-- ===== src/Access/Directory.antt =====
-- services/sync-gateway/src/common/user-directory.ts: who a session stands for.
use agroassure.Prelude.{
  ℕ, ◌+◌, Bool, false, not, ◌&&◌, ◌||◌, Option, none, some, [], ◌∷◌, filter, find, any, map, ltb,
  if◌then◌else◌, Text, text_eq,
}
use agroassure.Access.{
  role_eq, Principal, User, UserRole, Device, Register, option_eq, update_where, is_user, has_role,
  is_device, is_active_status, inspector, national_admin, auditor,
}

-- UserDirectory.resolve: the subject is an id of the provider or one of this register.
unfoldable pub resolve : Text → Register → Option (Text × Option Text)
resolve subject s =
    elim (find
      (λ (u : User).
        u.is_active && (option_eq u.oidc_subject (some subject) || text_eq u.id subject))
      s.users) [ none ↦ none | some u ↦ some (u.id, u.jurisdiction_id) ]

-- UserDirectory.resolveConsoleUser, and what the guard makes of it.
unfoldable pub console_principal : Text → Register → Option Principal
console_principal user_id s = elim (find (λ (u : User). is_user user_id u && u.is_active) s.users) [
  | none ↦ none
  | some u ↦
      let roles =
        map (λ (r : UserRole). r.role)
          (filter (λ (r : UserRole). text_eq r.user_id user_id) s.roles) in
      let scope = any (role_eq national_admin) roles || any (role_eq auditor) roles in
      some (record {
        user_id = u.id;
        jurisdiction_id = if scope then none else u.jurisdiction_id;
        roles = roles;
      })
]

-- UserDirectory.resolvePhone: the phone is marked as seen where it is the person's and active.
abbrev pub five_minutes : ℕ
five_minutes = 300000

abbrev pub is_phone_of : Text → Text → Device → Bool
is_phone_of user_id device_id d =
    is_device device_id d
    && (option_eq d.assigned_user_id (some user_id) && is_active_status d.status)

abbrev seen_lately : ℕ → Device → Bool
seen_lately now d = elim d.last_seen_at [ none ↦ false | some t ↦ not (ltb (t + five_minutes) now) ]

unfoldable pub touch_phone : ℕ → Text → Text → Register → Register
touch_phone now user_id device_id s = record s {
  devices =
      update_where (λ (d : Device). is_phone_of user_id device_id d && not (seen_lately now d))
        (λ (d : Device). record d { last_seen_at = some now }) s.devices;
}

unfoldable pub resolve_phone : Text → Text → Register → Option Principal
resolve_phone user_id device_id s =
    elim (find (λ (u : User). is_user user_id u && u.is_active) s.users) [
      | none ↦ none
      | some u ↦
          if any (is_phone_of user_id device_id) s.devices && has_role user_id inspector s
          then some (record {
            user_id = u.id;
            jurisdiction_id = u.jurisdiction_id;
            roles = inspector ∷ [];
          })
          else none
    ]
