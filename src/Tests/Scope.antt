-- ===== src/Tests/Scope.antt =====
-- An administrator of one state in a register with a person, a phone and a request of another.
use agroassure.Prelude.{false, none, some, [], ◌∷◌, ◌++◌, ◌≡◌, refl, filter, Text, codes, text_eq}
use agroassure.Access.{
  inspector, desk_supervisor, User, Device, active, Registration, verifying, Register, ok, new_user,
  is_user, is_unscoped,
}
use agroassure.Access.People.{grant_role, suspend_user, assert_may_grant, user_jurisdiction}
use agroassure.Access.Registrations.{is_registration}
use agroassure.Access.Scope.{Scoped, Abroad, is_away, is_for, is_role_of}
use agroassure.Access.Scope.History.{suspended, granted, InState, begun, then, InState-StaysInState}
use agroassure.Tests.Access.{config, admin, place, register, value}

abbrev far : Text
far = codes "la"

abbrev bola : User
bola = new_user (codes "bol") far (codes "Bola Ade") none none none

abbrev asking : Registration
asking = record {
  id = codes "r1";
  jurisdiction_id = far;
  full_name = codes "Chi";
  email = codes "chi@x.ng";
  phone = codes "+234";
  from_app = false;
  public_key = none;
  status_token_hash = codes "h";
  email_code_hash = none;
  sms_code_hash = none;
  codes_sent_at = none;
  codes_sent_count = 1;
  code_attempts = 0;
  email_verified_at = none;
  phone_verified_at = none;
  status = verifying;
  decided_by = none;
  decided_at = none;
  decided_role = none;
  reject_reason = none;
  user_id = none;
  device_id = none;
}

abbrev bola_phone : Device
bola_phone = record {
  id = codes "d1";
  jurisdiction_id = far;
  assigned_user_id = some (codes "bol");
  public_key = 1 ∷ [];
  label = none;
  status = active;
  enrolled_at = 5;
  revoked_at = none;
  last_seen_at = none;
}

abbrev two_states : Register
two_states = record register {
  jurisdictions = place ∷ far ∷ [];
  users = register.users ++ bola ∷ [];
  roles =
      register.roles
      ++ record { user_id = codes "bol"; role = inspector; jurisdiction_id = far } ∷ [];
  devices = bola_phone ∷ [];
  registrations = asking ∷ [];
}

abbrev promoted : Register
promoted = value two_states (grant_role admin (codes "ann") desk_supervisor two_states)

abbrev left_out : Register
left_out = value promoted (suspend_user admin (codes "ann") promoted)

promoted_run : grant_role admin (codes "ann") desk_supervisor two_states ≡ ok promoted
unfolding grant_role assert_may_grant user_jurisdiction is_unscoped text_eq
promoted_run = refl

left_out_run : suspend_user admin (codes "ann") promoted ≡ ok left_out
unfolding suspend_user user_jurisdiction is_unscoped grant_role assert_may_grant text_eq
left_out_run = refl

at_home : Scoped place admin
unfolding is_unscoped
at_home = record { scoped = refl; at_home = refl }

calls : InState config place two_states left_out
calls =
    then (then begun admin at_home (granted (codes "ann") desk_supervisor promoted_run)) admin
      at_home (suspended (codes "ann") left_out_run)

away : Abroad place bola asking two_states
unfolding text_eq
away = record { person = refl; request = refl; codes = refl }

InState-StaysInState_example :
    (filter (is_user bola.id) left_out.users ≡ bola ∷ [])
    × (filter (is_role_of bola.id) left_out.roles ≡ filter (is_role_of bola.id) two_states.roles)
    × (filter (is_for bola.id) left_out.invitations
        ≡ filter (is_for bola.id) two_states.invitations)
    × (filter (is_registration asking.id) left_out.registrations ≡ asking ∷ [])
    × (filter (is_away place) left_out.devices ≡ filter (is_away place) two_states.devices)
unfolding text_eq
InState-StaysInState_example =
    InState-StaysInState config place bola asking two_states left_out away refl refl calls
