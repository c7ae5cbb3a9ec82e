-- ===== src/Access/Phones.antt =====
-- services/sync-gateway/src/console/admin.service.ts: phones.
use agroassure.Prelude.{
  ℕ, Bool, not, ◌&&◌, Option, none, some, List, find, any, if◌then◌else◌, length, ◌==◌, Text,
}
use agroassure.Hashing.Base64.{base64_to_bytes}
use agroassure.Access.{
  Principal, is_unscoped, jurisdiction_filter, User, Device, DeviceStatus, waiting, active, revoked,
  Register, not_found, other_jurisdiction, key_in_use, account_inactive, invalid_key, constraint,
  Result, ok, refused, ◌>>=◌, ◌>>◌, refuse_if, or_refuse, option_eq, in_filter, update_where,
  is_user, has_key, is_device, is_active_status, is_waiting, insert_device,
}
use agroassure.Access.People.{target_jurisdiction}

-- What one call is given besides: the id that the database gives to a new row, and the time.
pub record Stamp : Type 0 where
  pub id : Text
  pub now : ℕ

unfoldable pub parse_public_key : Text → Result (List ℕ)
parse_public_key base64 =
    let bytes = base64_to_bytes base64 in
    if length bytes == 32 then ok bytes else refused invalid_key

abbrev pub is_active_user : Text → User → Bool
is_active_user id u = is_user id u && u.is_active

abbrev pub new_device : Stamp → Text → Text → List ℕ → Option Text → DeviceStatus → Device
new_device at j user_id key label status = record {
  id = at.id;
  jurisdiction_id = j;
  assigned_user_id = some user_id;
  public_key = key;
  label = label;
  status = status;
  enrolled_at = at.now;
  revoked_at = none;
  last_seen_at = none;
}

unfoldable pub enroll_device :
    Principal
    → Text
    → Option Text
    → Text
    → Option Text
    → Stamp
    → Register
    → Result (Text × Register)
enroll_device p assigned_user_id label public_key_base64 requested at s = do
  let j = (← target_jurisdiction p requested s)
  let key = (← parse_public_key public_key_base64)
  let assignee = (← or_refuse (find (is_active_user assigned_user_id) s.users) not_found)
  refuse_if (not (is_unscoped p) && not (option_eq assignee.jurisdiction_id (some j)))
      other_jurisdiction
  refuse_if (any (has_key key) s.devices) key_in_use
  let t = (← insert_device (new_device at j assigned_user_id key label active) s)
  ok (at.id, t)

-- A first request inserts a row; the column of the jurisdiction is not null.
abbrev pub first_request :
    Principal → List ℕ → Option Text → Stamp → Register → Result ((Text × DeviceStatus) × Register)
first_request p key label at s = do
  let u = (← or_refuse (find (is_active_user p.user_id) s.users) account_inactive)
  let j = (← or_refuse u.jurisdiction_id constraint)
  let t = (← insert_device (new_device at j p.user_id key label waiting) s)
  ok ((at.id, waiting), t)

unfoldable pub request_enrolment :
    Principal → Text → Option Text → Stamp → Register → Result ((Text × DeviceStatus) × Register)
request_enrolment p public_key_base64 label at s = do
  let key = (← parse_public_key public_key_base64)
  elim (find (has_key key) s.devices) [
    | none ↦ first_request p key label at s
    | some d ↦
        if option_eq d.assigned_user_id (some p.user_id)
        then ok ((d.id, d.status), s)
        else refused key_in_use
  ]

abbrev pub may_approve : Principal → Text → Device → Bool
may_approve p id d =
    is_device id d
    && (is_waiting d.status && in_filter (jurisdiction_filter p) (some d.jurisdiction_id))

unfoldable pub approve_device : Principal → Text → ℕ → Register → Result Register
approve_device p id now s = do
  refuse_if (not (any (may_approve p id) s.devices)) not_found
  ok (record s {
    devices =
        update_where (may_approve p id)
          (λ (d : Device). record d { status = active; enrolled_at = now }) s.devices;
  })

abbrev pub may_revoke : Principal → Text → Device → Bool
may_revoke p id d =
    is_device id d
    && (is_active_status d.status && in_filter (jurisdiction_filter p) (some d.jurisdiction_id))

-- The notification that follows is left out.
unfoldable pub revoke_device : Principal → Text → ℕ → Register → Result Register
revoke_device p id now s = do
  refuse_if (not (any (may_revoke p id) s.devices)) not_found
  ok (record s {
    devices =
        update_where (may_revoke p id)
          (λ (d : Device). record d { status = revoked; revoked_at = some now }) s.devices;
  })
