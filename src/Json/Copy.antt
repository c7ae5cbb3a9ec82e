-- ===== src/Json/Copy.antt =====
-- JSON.parse(JSON.stringify(v)): what is left of a payload after it was written to a row or sent.
-- An object loses the keys whose value JSON cannot write; elsewhere such a value becomes null.
use agroassure.Json.{
  Json, Items, Fields, null, boolean, number, non_finite, text, array, object, undefined, foreign,
  nil, cons, end, field,
}

unfoldable mutual
  pub json_copy : Json → Json
  json_copy null = null
  json_copy (boolean b) = boolean b
  json_copy (number t) = number t
  json_copy non_finite = null
  json_copy (text t) = text t
  json_copy (array xs) = array (items_copy xs)
  json_copy (object fs) = object (fields_copy fs)
  json_copy undefined = null
  json_copy foreign = null

  pub items_copy : Items → Items
  items_copy nil = nil
  items_copy (cons v xs) = cons (json_copy v) (items_copy xs)

  pub fields_copy : Fields → Fields
  fields_copy end = end
  fields_copy (field k undefined fs) = fields_copy fs
  fields_copy (field k foreign fs) = fields_copy fs
  fields_copy (field k v fs) = field k (json_copy v) (fields_copy fs)
