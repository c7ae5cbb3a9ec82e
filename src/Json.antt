-- ===== src/Json.antt =====
-- The JavaScript values that events carry, as far as JSON and canonicalize tell them apart.
pub mod Copy
use agroassure.Prelude.{Bool, Text}

-- A finite number is the text that JSON.stringify prints for it; `foreign` is a bigint, a function
-- or a symbol. An object's keys are distinct, since setting a key again replaces its value.
mutual
  pub data Json : Type 0 where
    null : Json
    boolean : Bool → Json
    number : Text → Json
    non_finite : Json
    text : Text → Json
    array : Items → Json
    object : Fields → Json
    undefined : Json
    foreign : Json

  pub data Items : Type 0 where
    nil : Items
    cons : Json → Items → Items

  pub data Fields : Type 0 where
    end : Fields
    field : Text → Json → Fields → Fields
