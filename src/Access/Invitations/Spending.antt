-- ===== src/Access/Invitations/Spending.antt =====
-- services/sync-gateway/src/invitations/invitations.service.ts: a phone that spends a code.
use agroassure.Prelude.{ℕ, not, Option, none, some, List, find, ltb, if◌then◌else◌, Text, text_eq}
use agroassure.Access.{
  User, Device, active, Invitation, Register, invalid_code, already_used, expired, account_inactive,
  key_in_use, device_signed_out, Result, ok, ◌>>=◌, ◌>>◌, refuse_if, or_refuse, is_none, option_eq,
  update_where, is_user, has_key, is_device, is_revoked, is_active_status, insert_device,
}
use agroassure.Access.Codes.{Config, normalize_invite_code, hash_invite_code}
use agroassure.Access.Phones.{Stamp, parse_public_key, new_device}
use agroassure.Access.Invitations.{Activation, secret_of, has_code}

-- The guards of activate on the invitation that was found.
abbrev pub check_invite : ℕ → Invitation → User → Result (Unit {0})
check_invite now i u = do
  refuse_if (not (is_none i.cancelled_at)) invalid_code
  refuse_if (not (is_none i.used)) already_used
  refuse_if (ltb i.expires_at now) expired
  refuse_if (not u.is_active) account_inactive

abbrev pub or_else : Option Text → Option Text → Option Text
or_else none b = b
or_else (some a) b = some a

-- A phone with this key that the person may use comes back into service.
abbrev pub reuse_device : ℕ → Option Text → Device → Device
reuse_device now label d = record d {
  status = active;
  enrolled_at = if is_active_status d.status then d.enrolled_at else now;
  last_seen_at = some now;
  label = or_else label d.label;
}

abbrev pub seen_new : Stamp → Text → Text → List ℕ → Option Text → Device
seen_new at j user_id key label = record (new_device at j user_id key label active) {
  last_seen_at = some at.now;
}

unfoldable pub bring_phone :
    Stamp → Text → Text → List ℕ → Option Text → Register → Result (Text × Register)
bring_phone at user_id j key label s = elim (find (has_key key) s.devices) [
  | none ↦ insert_device (seen_new at j user_id key label) s >>= λ t. ok (at.id, t)
  | some d ↦
      refuse_if (not (option_eq d.assigned_user_id (some user_id))) key_in_use
      >> (refuse_if (is_revoked d.status) device_signed_out
          >> ok (
            d.id,
            record s {
              devices = update_where (is_device d.id) (reuse_device at.now label) s.devices;
            },
          ))
]

abbrev pub spend : Text → ℕ → Text → Register → Register
spend id now device_id s = record s {
  invitations =
      update_where (λ (i : Invitation). text_eq i.id id)
        (λ (i : Invitation). record i { used = some (now, device_id) }) s.invitations;
}

-- The transaction of activate, from the row that was found.
unfoldable pub activate_with :
    Config
    → Text
    → List ℕ
    → Option Text
    → Stamp
    → Invitation
    → User
    → Register
    → Result (Activation × Register)
activate_with cfg secret key label at i u s = do
  check_invite at.now i u
  let j = (← or_refuse (or_else i.jurisdiction_id u.jurisdiction_id) account_inactive)
  let phone = (← bring_phone at i.user_id j key label s)
  ok (
    record {
      token = cfg.sign i.user_id phone.0 secret;
      user_id = i.user_id;
      full_name = u.full_name;
      device_id = phone.0;
    },
    spend i.id at.now phone.0 phone.1,
  )

unfoldable pub activate :
    Config → Text → Text → Option Text → Stamp → Register → Result (Activation × Register)
activate cfg code public_key_base64 label at s = do
  let secret = (← secret_of cfg)
  let normalized = (← or_refuse (normalize_invite_code cfg code) invalid_code)
  let key = (← parse_public_key public_key_base64)
  let i =
      (← or_refuse (find (has_code (hash_invite_code cfg secret normalized)) s.invitations)
        invalid_code)
  let u = (← or_refuse (find (is_user i.user_id) s.users) invalid_code)
  activate_with cfg secret key label at i u s
