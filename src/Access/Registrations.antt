-- ===== src/Access/Registrations.antt =====
-- services/sync-gateway/src/registration/registration.service.ts: the table of requests and
-- its checks.
pub mod Asking
pub mod Verifying
pub mod Decisions
pub mod Started
pub mod Tables
pub mod Guesses
pub mod Bounded
pub mod Proven
pub mod Approved
pub mod Admitted
use agroassure.Prelude.{
  ℕ, ◌+◌, ◌*◌, Bool, true, false, not, ◌&&◌, ◌||◌, Option, none, some, List, [], ◌∷◌, ◌++◌, find,
  any, ltb, leb, length, ◌==◌, if◌then◌else◌, Text, text_eq, decimal, pad_start,
}
use agroassure.Access.{
  Role, RegistrationStatus, verifying, pending, approved, rejected, withdrawn, Registration,
  Register, invalid_phone, invalid_email, not_found, key_in_use, invalid_name, missing_key,
  invalid_state, account_exists, closed_to_all, too_many_attempts, codes_expired, too_many_sends,
  too_soon, constraint, Result, ok, refused, ◌>>=◌, ◌>>◌, refuse_if, or_refuse, is_none, option_eq,
  update_where, has_key, is_open,
}
use agroassure.Access.Codes.{
  Config, setting, trim, normalize_phone, is_email, Channel, email, sms, hash_code,
  hash_status_token,
}
use agroassure.Access.Phones.{Stamp, parse_public_key}
use agroassure.Access.Invitations.{has_email}

abbrev pub code_ttl : ℕ
code_ttl = 30 * 60000

abbrev pub max_code_attempts : ℕ
max_code_attempts = 8

abbrev pub max_sends : ℕ
max_sends = 5

abbrev pub resend_after : ℕ
resend_after = 60000

unfoldable pub six_digits : ℕ → Text
six_digits n = pad_start 6 (decimal n)

unfoldable pub available : Config → Bool
available cfg = cfg.self_registration && (cfg.has_email && cfg.has_sms)

-- The checks on a row of the table registration, less those on what is never null here.
abbrev pub has_proof : Registration → Bool
has_proof r = not (is_none r.email_verified_at || is_none r.phone_verified_at)

abbrev pub has_decision : Registration → Bool
has_decision r = not (is_none r.decided_by || is_none r.decided_at)

abbrev pub key_is_lawful : Registration → Bool
key_is_lawful r = elim r.public_key [ none ↦ true | some key ↦ r.from_app && length key == 32 ]

unfoldable pub is_lawful : Registration → Bool
is_lawful r = key_is_lawful r && elim r.status [
  | verifying ↦ true
  | withdrawn ↦ true
  | pending ↦ has_proof r
  | rejected ↦ has_decision r
  | approved ↦ has_proof r && (has_decision r && not (is_none r.user_id || is_none r.decided_role))
]

abbrev pub is_open_for : Config → Text → Registration → Bool
is_open_for cfg address r = text_eq (cfg.sql_lower r.email) address && is_open r.status

-- registration_one_open_per_email
unfoldable pub one_open_each : Config → List Registration → Bool
one_open_each cfg [] = true
one_open_each cfg (r ∷ rs) =
    not (is_open r.status && any (is_open_for cfg (cfg.sql_lower r.email)) rs)
    && one_open_each cfg rs

abbrev pub all_lawful : List Registration → Bool
all_lawful [] = true
all_lawful (r ∷ rs) = is_lawful r && all_lawful rs

-- A statement that would break a check of the table is refused.
unfoldable pub keep_lawful : Config → List Registration → Register → Result Register
keep_lawful cfg rows s =
    if all_lawful rows && one_open_each cfg rows
    then ok (record s { registrations = rows })
    else refused constraint

abbrev pub is_registration : Text → Registration → Bool
is_registration id r = text_eq r.id id

abbrev pub update_registrations :
    Config → (Registration → Bool) → (Registration → Registration) → Register → Result Register
update_registrations cfg p f s = keep_lawful cfg (update_where p f s.registrations) s

abbrev pub answers : Text → Text → Registration → Bool
answers id hash r = is_registration id r && text_eq r.status_token_hash hash

unfoldable pub load : Config → Text → Text → Register → Result Registration
load cfg id token s =
    or_refuse (find (answers id (hash_status_token cfg token)) s.registrations) not_found
