-- ===== src/Tests/Access.antt =====
-- A state with an administrator and an inspector: a code is sent, replaced and spent.
use agroassure.Prelude.{
  ℕ, true, none, some, [], ◌∷◌, ◌++◌, ◌≡◌, refl, Text, codes, find, replicate, text_eq,
}
use agroassure.Hashing.Base64.{base64_to_bytes, decode_from, is_b64, b64_lookup}
use agroassure.Access.{
  Invitation, inspector, state_admin, auditor, Principal, User, Register, Result, ok, refused,
  invalid_code, already_used, new_user, is_user, is_unscoped, jurisdiction_filter, has_role,
}
use agroassure.Access.Codes.{
  Config, trim, new_invite_code, raw_code, format_invite_code, normalize_invite_code, in_alphabet,
  carries, hash_invite_code, activation_link,
}
use agroassure.Access.Directory.{console_principal, resolve_phone}
use agroassure.Access.People.{grant_role}
use agroassure.Access.Phones.{Stamp, parse_public_key}
use agroassure.Access.Promotion.{grant_role-Unscopes}
use agroassure.Access.Sessions.{activate-OpensSession}
use agroassure.Access.Invitations.{
  Draw, Issued, Activation, reinvite, issue, secret_of, cancel_live, has_code, is_live_of,
}
use agroassure.Access.Invitations.Presenting.{Presented}
use agroassure.Access.Invitations.Replaced.{reinvite-Retires}
use agroassure.Access.Invitations.SpentOnce.{activate-Once}
use agroassure.Access.Invitations.Spending.{activate, activate_with, bring_phone}

-- Functions that stand for those of the packages: texts are joined.
abbrev pub config : Config
config = record {
  secret = some (codes "s");
  country_code = codes "234";
  ttl_hours = 72;
  self_registration = true;
  has_email = true;
  has_sms = true;
  to_upper = λ t. t;
  to_lower = λ t. t;
  sql_lower = λ t. t;
  hmac = λ key t. key ++ t;
  sha256 = λ t. t;
  sign = λ user device secret. user ++ (device ++ secret);
}

abbrev pub place : Text
place = codes "ka"

abbrev pub admin : Principal
admin = record { user_id = codes "adm"; jurisdiction_id = some place; roles = state_admin ∷ [] }

abbrev pub head_office : User
head_office = new_user (codes "adm") place (codes "Ada Obi") (some (codes "ada@x.ng")) none none

abbrev pub ann : User
ann = new_user (codes "ann") place (codes "Ann Bala") (some (codes "ann@x.ng")) none none

abbrev pub register : Register
register = record {
  jurisdictions = place ∷ [];
  users = head_office ∷ ann ∷ [];
  roles =
      record { user_id = codes "adm"; role = state_admin; jurisdiction_id = place }
      ∷ record { user_id = codes "ann"; role = inspector; jurisdiction_id = place }
      ∷ [];
  devices = [];
  invitations = [];
  registrations = [];
}

abbrev pub stamp : Text → ℕ → Stamp
stamp id now = record { id = id; now = now }

abbrev draw : Text → ℕ → ℕ → Draw
draw id now n = record { stamp = stamp id now; places = replicate 8 n }

-- 32 bytes in base64.
abbrev pub key64 : Text
key64 = codes "AAAAAAAAAAAAAAAAAAAAAAAAAAAAAAAAAAAAAAAAAAA="

abbrev pub value {ℓ} : {A : Type ℓ} → A → Result A → A
value a (ok b) = b
value a (refused e) = a

abbrev issued : Issued × Register
issued =
    value
      (record { invitation_id = []; user_id = []; code = []; link = []; expires_at = 0 }, register)
      (reinvite config admin (codes "ann") (draw (codes "i1") 1000 0) register)

issued_run : reinvite config admin (codes "ann") (draw (codes "i1") 1000 0) register ≡ ok issued
unfolding reinvite secret_of jurisdiction_filter is_unscoped issue cancel_live normalize_invite_code
    new_invite_code raw_code format_invite_code in_alphabet carries hash_invite_code activation_link
    trim text_eq
issued_run = refl

abbrev spent : Activation × Register
spent =
    value (record { token = []; user_id = []; full_name = []; device_id = [] }, register)
      (activate config (codes "AAAA-AAAA") key64 none (stamp (codes "d1") 2000) issued.1)

spent_run :
    activate config (codes "AAAA-AAAA") key64 none (stamp (codes "d1") 2000) issued.1 ≡ ok spent
unfolding reinvite secret_of jurisdiction_filter is_unscoped issue cancel_live normalize_invite_code
    new_invite_code raw_code format_invite_code in_alphabet carries hash_invite_code activation_link
    trim text_eq activate activate_with bring_phone parse_public_key base64_to_bytes decode_from
    is_b64 b64_lookup
spent_run = refl

key_read : parse_public_key key64 ≡ ok (replicate 32 0)
unfolding parse_public_key base64_to_bytes decode_from is_b64 b64_lookup
key_read = refl

-- The code that was spent is presented again, later.
activate-Once_example :
    activate config (codes "AAAA-AAAA") key64 none (stamp (codes "d2") 3000) spent.1
    ≡ refused already_used
activate-Once_example =
    activate-Once config (codes "AAAA-AAAA") key64 none (stamp (codes "d1") 2000) issued.1 spent.1
      spent.0 key64 (replicate 32 0) none (stamp (codes "d2") 3000) spent_run key_read

ann_inspects : has_role spent.0.user_id inspector issued.1 ≡ true
unfolding reinvite secret_of jurisdiction_filter is_unscoped issue cancel_live normalize_invite_code
    new_invite_code raw_code format_invite_code in_alphabet carries hash_invite_code activation_link
    trim text_eq activate activate_with bring_phone parse_public_key base64_to_bytes decode_from
    is_b64 b64_lookup
ann_inspects = refl

activate-OpensSession_example :
    (u : User) × (find (is_user spent.0.user_id) issued.1.users ≡ some u)
    × (resolve_phone spent.0.user_id spent.0.device_id spent.1
        ≡ some (record {
          user_id = u.id;
          jurisdiction_id = u.jurisdiction_id;
          roles = inspector ∷ [];
        }))
activate-OpensSession_example =
    activate-OpensSession config (codes "AAAA-AAAA") key64 none (stamp (codes "d1") 2000) issued.1
      spent.1 spent.0 spent_run ann_inspects

abbrev again : Issued × Register
again = value issued (reinvite config admin (codes "ann") (draw (codes "i2") 1500 1) issued.1)

again_run : reinvite config admin (codes "ann") (draw (codes "i2") 1500 1) issued.1 ≡ ok again
unfolding reinvite secret_of jurisdiction_filter is_unscoped issue cancel_live normalize_invite_code
    new_invite_code raw_code format_invite_code in_alphabet carries hash_invite_code activation_link
    trim text_eq
again_run = refl

abbrev first : Invitation
first = record {
  id = codes "i1";
  jurisdiction_id = some place;
  user_id = codes "ann";
  code_hash = codes "sinvite:AAAAAAAA";
  created_by = codes "adm";
  created_at = 1000;
  expires_at = 259201000;
  used = none;
  cancelled_at = none;
  email_to = some (codes "ann@x.ng");
  sms_to = none;
}

first_on_file : find (has_code (codes "sinvite:AAAAAAAA")) issued.1.invitations ≡ some first
unfolding reinvite secret_of jurisdiction_filter is_unscoped issue cancel_live normalize_invite_code
    new_invite_code raw_code format_invite_code in_alphabet carries hash_invite_code activation_link
    trim text_eq
first_on_file = refl

presented : Presented config (codes "AAAA-AAAA") key64 (codes "sinvite:AAAAAAAA")
unfolding reinvite secret_of jurisdiction_filter is_unscoped issue cancel_live normalize_invite_code
    new_invite_code raw_code format_invite_code in_alphabet carries hash_invite_code activation_link
    trim text_eq
presented = record {
  secret = codes "s";
  normalized = codes "AAAAAAAA";
  key = replicate 32 0;
  secret_set = refl;
  well_formed = refl;
  is_key = key_read;
  hashed = refl;
}

first_live : is_live_of (codes "ann") first ≡ true
unfolding text_eq
first_live = refl

reinvite-Retires_example :
    activate config (codes "AAAA-AAAA") key64 none (stamp (codes "d1") 2000) again.1
    ≡ refused invalid_code
reinvite-Retires_example =
    reinvite-Retires config admin (codes "ann") (draw (codes "i2") 1500 1) issued.1 again.1 again.0
      (codes "AAAA-AAAA") key64 (codes "sinvite:AAAAAAAA") first none (stamp (codes "d1") 2000)
      again_run first_on_file first_live presented

adm_found : find (is_user (codes "adm")) register.users ≡ some head_office
unfolding text_eq
adm_found = refl

grant_role-Unscopes_example :
    (s' : Register) × (q : Principal) × (grant_role admin (codes "adm") auditor register ≡ ok s')
    × (console_principal (codes "adm") s' ≡ some q)
    × (is_unscoped q ≡ true)
    × (jurisdiction_filter q ≡ none)
grant_role-Unscopes_example =
    grant_role-Unscopes admin place register head_office refl adm_found refl refl
