-- ===== src/Access/Registrations/Asking.antt =====
-- services/sync-gateway/src/registration/registration.service.ts: a request is made.
use agroassure.Prelude.{
  ℕ, Bool, true, false, not, ◌||◌, Option, none, some, List, [], ◌∷◌, ◌++◌, any, ltb, length,
  if◌then◌else◌, Text, text_eq,
}
use agroassure.Access.{
  verifying, withdrawn, Registration, Register, invalid_phone, invalid_email, key_in_use,
  invalid_name, missing_key, invalid_state, account_exists, closed_to_all, constraint, Result, ok,
  refused, ◌>>=◌, ◌>>◌, refuse_if, or_refuse, has_key,
}
use agroassure.Access.Codes.{
  Config, setting, trim, normalize_phone, is_email, email, sms, hash_code, hash_status_token,
}
use agroassure.Access.Phones.{Stamp, parse_public_key}
use agroassure.Access.Invitations.{has_email}
use agroassure.Access.Registrations.{
  six_digits, available, keep_lawful, is_open_for, update_registrations,
}

-- INSERT INTO registration: the id and the hash of the token are unique, and the place exists.
abbrev pub same_row : Registration → Registration → Bool
same_row r q = text_eq q.id r.id || text_eq q.status_token_hash r.status_token_hash

unfoldable pub insert_registration : Config → Registration → Register → Result Register
insert_registration cfg r s =
    if any (same_row r) s.registrations || not (any (text_eq r.jurisdiction_id) s.jurisdictions)
    then refused constraint
    else keep_lawful cfg (s.registrations ++ r ∷ []) s

pub record StartInput : Type 0 where
  pub full_name : Text
  pub email : Text
  pub phone : Text
  pub jurisdiction_id : Text
  pub from_app : Bool
  pub public_key_base64 : Option Text

-- The id of the row, the time, the token, and the draws of the two codes.
pub record StartDraw : Type 0 where
  pub stamp : Stamp
  pub token : Text
  pub email_draw : ℕ
  pub sms_draw : ℕ

abbrev pub key_of : Bool → Option Text → Result (Option (List ℕ))
key_of false base64 = ok none
key_of true base64 = do
  let given = (← or_refuse (setting base64) missing_key)
  let key = (← parse_public_key given)
  ok (some key)

abbrev pub key_taken : Option (List ℕ) → Register → Bool
key_taken none s = false
key_taken (some key) s = any (has_key key) s.devices

abbrev pub withdraw : Registration → Registration
withdraw r = record r { status = withdrawn }

-- The row with the hashes that the statement after the insertion sets.
unfoldable pub new_registration :
    Config → StartInput → StartDraw → Text → Text → Text → Option (List ℕ) → Registration
new_registration cfg input draw full_name address phone key = record {
  id = draw.stamp.id;
  jurisdiction_id = input.jurisdiction_id;
  full_name = full_name;
  email = address;
  phone = phone;
  from_app = input.from_app;
  public_key = key;
  status_token_hash = hash_status_token cfg draw.token;
  email_code_hash = some (hash_code cfg draw.stamp.id email (six_digits draw.email_draw));
  sms_code_hash = some (hash_code cfg draw.stamp.id sms (six_digits draw.sms_draw));
  codes_sent_at = some draw.stamp.now;
  codes_sent_count = 1;
  code_attempts = 0;
  email_verified_at = none;
  phone_verified_at = none;
  status = verifying;
  decided_by = none;
  decided_at = none;
  decided_role = none;
  reject_reason = none;
  user_id = none;
  device_id = none;
}

-- Sending the codes, after the transaction, is left out.
unfoldable pub start_registration :
    Config → StartInput → StartDraw → Register → Result ((Text × Text) × Register)
start_registration cfg input draw s = do
  refuse_if (not (available cfg)) closed_to_all
  let full_name = trim input.full_name
  refuse_if (ltb (length full_name) 3) invalid_name
  let address = cfg.to_lower (trim input.email)
  refuse_if (not (is_email address)) invalid_email
  let phone = (← or_refuse (normalize_phone input.phone cfg.country_code) invalid_phone)
  let key = (← key_of input.from_app input.public_key_base64)
  refuse_if (not (any (text_eq input.jurisdiction_id) s.jurisdictions)) invalid_state
  refuse_if (any (has_email cfg address) s.users) account_exists
  refuse_if (key_taken key s) key_in_use
  let t = (← update_registrations cfg (is_open_for cfg address) withdraw s)
  let u =
      (← insert_registration cfg (new_registration cfg input draw full_name address phone key) t)
  ok ((draw.stamp.id, draw.token), u)
