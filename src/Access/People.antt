-- ===== src/Access/People.antt =====
-- services/sync-gateway/src/console/admin.service.ts: users and roles.
use agroassure.Prelude.{
  false, not, ◌&&◌, Option, none, some, List, [], ◌∷◌, filter, find, any, if◌then◌else◌, Text,
  text_eq,
}
use agroassure.Access.{
  Role, national_admin, role_eq, Principal, holds, is_unscoped, User, UserRole, Register, not_found,
  no_jurisdiction, other_jurisdiction, no_state, may_not_grant, Result, ok, refused, ◌>>=◌, ◌>>◌,
  refuse_if, or_refuse, option_eq, update_where, is_user, new_user, insert_user, insert_role,
}
use agroassure.Access.Codes.{setting}

-- What the administrator types in, with the id that the database gives.
pub record CreateUserInput : Type 0 where
  pub id : Text
  pub full_name : Text
  pub email : Option Text
  pub phone : Option Text
  pub oidc_subject : Option Text
  pub roles : List Role
  pub jurisdiction_id : Option Text

abbrev pub only_state : List Text → Option Text
only_state (j ∷ []) = some j
only_state _ = none

abbrev pub own_jurisdiction : Text → Register → Option Text
own_jurisdiction user_id s = elim (find (is_user user_id) s.users) [
  | none ↦ none
  | some u ↦ u.jurisdiction_id
]

-- Only for an unscoped principal: the requested state, the one of its own record, or the only one.
abbrev pub default_state : Option Text → Option Text → List Text → Result Text
default_state (some j) own states = ok j
default_state none (some j) states = ok j
default_state none none states = or_refuse (only_state states) no_state

abbrev pub scoped_state : Option Text → Option Text → Result Text
scoped_state none requested = refused no_jurisdiction
scoped_state (some own) none = ok own
scoped_state (some own) (some j) = if text_eq j own then ok own else refused other_jurisdiction

unfoldable pub target_jurisdiction : Principal → Option Text → Register → Result Text
target_jurisdiction p requested s =
    if is_unscoped p
    then default_state (setting requested) (setting (own_jurisdiction p.user_id s)) s.jurisdictions
    else scoped_state (setting p.jurisdiction_id) (setting requested)

unfoldable pub user_jurisdiction : Principal → Text → Register → Result (Option Text)
user_jurisdiction p user_id s = elim (find (is_user user_id) s.users) [
  | none ↦ refused not_found
  | some u ↦
      if not (is_unscoped p) && not (option_eq u.jurisdiction_id p.jurisdiction_id)
      then refused other_jurisdiction
      else ok u.jurisdiction_id
]

unfoldable pub assert_may_grant : Principal → List Role → Result (Unit {0})
assert_may_grant p roles =
    refuse_if (any (role_eq national_admin) roles && not (holds national_admin p)) may_not_grant

unfoldable pub insert_roles : Text → List Role → Option Text → Register → Result Register
insert_roles user_id [] j s = ok s
insert_roles user_id (r ∷ rs) j s = insert_role user_id r j s >>= insert_roles user_id rs j

unfoldable pub create_user : Principal → CreateUserInput → Register → Result (Text × Register)
create_user p input s = do
  assert_may_grant p input.roles
  let j = (← target_jurisdiction p input.jurisdiction_id s)
  let t =
      (← insert_user
        (new_user input.id j input.full_name input.email input.phone input.oidc_subject) s)
  let u = (← insert_roles input.id input.roles (some j) t)
  ok (input.id, u)

unfoldable pub grant_role : Principal → Text → Role → Register → Result Register
grant_role p user_id role s = do
  assert_may_grant p (role ∷ [])
  let j = (← user_jurisdiction p user_id s)
  insert_role user_id role j s

unfoldable pub revoke_role : Principal → Text → Role → Register → Result Register
revoke_role p user_id role s = do
  let j = (← user_jurisdiction p user_id s)
  ok (record s {
    roles =
        filter
          (λ (r : UserRole). not (
            text_eq r.user_id user_id
            && (role_eq role r.role && option_eq (some r.jurisdiction_id) j)))
          s.roles;
  })

unfoldable pub suspend_user : Principal → Text → Register → Result Register
suspend_user p user_id s = do
  let j = (← user_jurisdiction p user_id s)
  ok (record s {
    users = update_where (is_user user_id) (λ (u : User). record u { is_active = false }) s.users;
  })
