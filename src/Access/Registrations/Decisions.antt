-- ===== src/Access/Registrations/Decisions.antt =====
-- services/sync-gateway/src/registration/registration.service.ts: the administrator's decision, and
-- what the person who asked is told.
use agroassure.Prelude.{
  ℕ, Bool, true, false, not, ◌&&◌, Option, none, some, [], ◌∷◌, ◌++◌, find, any, if◌then◌else◌,
  Text, codes,
}
use agroassure.Access.{
  Role, inspector, national_admin, role_eq, Principal, holds, is_unscoped, jurisdiction_filter,
  UserRole, RegistrationStatus, verifying, pending, approved, rejected, Registration, Register,
  not_found, email_taken, other_jurisdiction, key_in_use, may_not_grant, not_verified,
  already_decided, constraint, Result, ok, refused, ◌>>=◌, ◌>>◌, refuse_if, or_refuse, is_none,
  option_eq, in_filter, has_key, is_open, new_user, insert_user, same_role, insert_device,
}
use agroassure.Access.Codes.{Config, setting}
use agroassure.Access.Phones.{Stamp}
use agroassure.Access.Invitations.{Draw, Activation, has_email, reinvite}
use agroassure.Access.Invitations.Spending.{seen_new}
use agroassure.Access.Registrations.{is_registration, update_registrations, load}

-- Without ON CONFLICT, a role that is there already refuses the statement.
abbrev pub insert_new_role : UserRole → Register → Result Register
insert_new_role row s =
    if any (same_role row) s.roles
    then refused constraint
    else ok (record s { roles = s.roles ++ row ∷ [] })

pub record ApproveDraw : Type 0 where
  pub user_id : Text
  pub device : Stamp
  pub invitation : Draw

abbrev pub assert_pending : RegistrationStatus → Result (Unit {0})
assert_pending status = elim status [
  | pending ↦ ok tt
  | verifying ↦ refused not_verified
  | _ ↦ refused already_decided
]

-- The phone that asked becomes the inspector's.
abbrev pub take_phone :
    Registration → Role → Text → Stamp → Register → Result (Option Text × Register)
take_phone r role user_id at s = elim (if role_eq role inspector then r.public_key else none) [
  | none ↦ ok (none, s)
  | some key ↦
      refuse_if (any (has_key key) s.devices) key_in_use
      >> (insert_device
            (seen_new at r.jurisdiction_id user_id key (some (codes "Registered phone"))) s
          >>= λ t. ok (some at.id, t))
]

abbrev pub write_approved : Text → ℕ → Role → Text → Option Text → Registration → Registration
write_approved decider now role user_id device_id r = record r {
  status = approved;
  decided_by = some decider;
  decided_at = some now;
  decided_role = some role;
  user_id = some user_id;
  device_id = device_id;
}

unfoldable pub approve_row :
    Config
    → Principal
    → Role
    → ApproveDraw
    → Registration
    → Register
    → Result (Option Text × Register)
approve_row cfg p role draw r s = do
  refuse_if (not (is_unscoped p) && not (option_eq (some r.jurisdiction_id) p.jurisdiction_id))
      other_jurisdiction
  assert_pending r.status
  refuse_if (any (has_email cfg (cfg.sql_lower r.email)) s.users) email_taken
  let t =
      (← insert_user
        (new_user draw.user_id r.jurisdiction_id r.full_name (some r.email) (some r.phone) none) s)
  let u =
      (← insert_new_role
        (record { user_id = draw.user_id; role = role; jurisdiction_id = r.jurisdiction_id }) t)
  let phone = (← take_phone r role draw.user_id draw.device u)
  let v =
      (← update_registrations cfg (is_registration r.id)
        (write_approved p.user_id draw.device.now role draw.user_id phone.0) phone.1)
  ok (phone.0, v)

-- Every role is one of APPROVABLE_ROLES.
abbrev pub assert_approves : Principal → Role → Result (Unit {0})
assert_approves p role =
    refuse_if (role_eq role national_admin && not (holds national_admin p)) may_not_grant

pub record Approval : Type 0 where
  pub user_id : Text
  pub device_id : Option Text
  pub invite_sent : Bool

-- A code that cannot be sent is only logged.
abbrev pub send_code :
    Config → Principal → Role → ApproveDraw → Option Text → Register → Approval × Register
send_code cfg p role draw device_id s =
    elim (if role_eq role inspector && is_none device_id
      then reinvite cfg p draw.user_id draw.invitation s
      else refused not_found) [
        | ok a ↦ (record { user_id = draw.user_id; device_id = device_id; invite_sent = true }, a.1)
        | refused e ↦
            (record { user_id = draw.user_id; device_id = device_id; invite_sent = false }, s)
      ]

unfoldable pub approve :
    Config → Principal → Text → Role → ApproveDraw → Register → Result (Approval × Register)
approve cfg p id role draw s = do
  assert_approves p role
  let r = (← or_refuse (find (is_registration id) s.registrations) not_found)
  let done = (← approve_row cfg p role draw r s)
  ok (send_code cfg p role draw done.0 done.1)

abbrev pub may_reject : Principal → Text → Registration → Bool
may_reject p id r =
    is_registration id r
    && (is_open r.status && in_filter (jurisdiction_filter p) (some r.jurisdiction_id))

abbrev pub write_rejected : Text → ℕ → Option Text → Registration → Registration
write_rejected decider now reason r = record r {
  status = rejected;
  decided_by = some decider;
  decided_at = some now;
  reject_reason = reason;
}

unfoldable pub reject : Config → Principal → Text → Option Text → ℕ → Register → Result Register
reject cfg p id reason now s = do
  refuse_if (not (any (may_reject p id) s.registrations)) not_found
  update_registrations cfg (may_reject p id) (write_rejected p.user_id now reason) s

-- The session that status adds for a phone whose request is approved.
abbrev pub is_approved : RegistrationStatus → Bool
is_approved status = elim status [ approved ↦ true | _ ↦ false ]

abbrev pub session_for :
    Config → Registration → Option Text → Option Text → Option Text → Option Activation
session_for cfg r (some user_id) (some device_id) (some secret) = some (record {
  token = cfg.sign user_id device_id secret;
  user_id = user_id;
  full_name = r.full_name;
  device_id = device_id;
})
session_for cfg r _ _ _ = none

unfoldable pub session_of : Config → Registration → Option Activation
session_of cfg r =
    if is_approved r.status
    then session_for cfg r r.user_id r.device_id (setting cfg.secret)
    else none

pub record Description : Type 0 where
  pub status : RegistrationStatus
  pub from_app : Bool
  pub full_name : Text
  pub email_verified : Bool
  pub phone_verified : Bool
  pub reject_reason : Option Text
  pub role : Option Role
  pub session : Option Activation

abbrev pub is_rejected : RegistrationStatus → Bool
is_rejected status = elim status [ rejected ↦ true | _ ↦ false ]

unfoldable pub describe : Config → Registration → Bool → Description
describe cfg r with_session = record {
  status = r.status;
  from_app = r.from_app;
  full_name = r.full_name;
  email_verified = not (is_none r.email_verified_at);
  phone_verified = not (is_none r.phone_verified_at);
  reject_reason = if is_rejected r.status then r.reject_reason else none;
  role = if is_approved r.status then r.decided_role else none;
  session = if with_session then session_of cfg r else none;
}

unfoldable pub status_of : Config → Text → Text → Register → Result Description
status_of cfg id token s = do let r = (← load cfg id token s); ok (describe cfg r true)
