-- ===== src/Access/Promotion.antt =====
-- Who may give the roles that see every state.
use agroassure.Prelude.{
  or_true, if◌then◌else◌, Bool, true, false, not, ◌||◌, ◌&&◌, Option, none, some, List, [], ◌∷◌,
  ◌++◌, ◌≡◌, refl, ◌∙◌, Text, text_eq, text_eq_refl, find, any, any-append, filter, map, Bool-cases,
  inl, inr,
}
use agroassure.Access.{
  Role, auditor, national_admin, role_eq, Principal, Register, User, UserRole, is_user, insert_role,
  same_role, has_role, is_unscoped, jurisdiction_filter, ok,
}
use agroassure.Access.Rows.{find-and, roles_of, held_row, role_eq_refl}
use agroassure.Access.Directory.{console_principal}
use agroassure.Access.People.{grant_role, assert_may_grant, user_jurisdiction}

pub insert_role-Held :
    (id : Text) (role : Role) (j : Text) (s : Register)
    → (s' : Register) × (insert_role id role (some j) s ≡ ok s')
      × (s'.users ≡ s.users)
      × (has_role id role s' ≡ true)
insert_role-Held id role j s =
    let row : UserRole = record { user_id = id; role = role; jurisdiction_id = j } in
    elim (Bool-cases (any (same_role row) s.roles)) [
      | inl h ↦ (s, rw h refl, refl, held_row row s.roles h)
      | inr h ↦ (
        record s { roles = s.roles ++ row ∷ [] },
        rw h refl,
        refl,
        any-append (λ (r : UserRole). text_eq r.user_id id && role_eq role r.role) s.roles
              (row ∷ [])
            ∙ rw (text_eq_refl id, role_eq_refl role) (or_true _),
      )
    ]

bypass : {B : Type 0} (x y : B) (b : Bool) → (if not b && false then x else y) ≡ y
bypass x y true = refl
bypass x y false = refl

-- An administrator's own state has the person.
pub user_jurisdiction-own :
    (p : Principal) (id : Text) (j : Text) (s : Register) (u : User)
    → find (is_user id) s.users ≡ some u
    → u.jurisdiction_id ≡ some j
    → p.jurisdiction_id ≡ some j
    → user_jurisdiction p id s ≡ ok (some j)
unfolding user_jurisdiction
user_jurisdiction-own p id j s u h hj hp =
    rw (user_jurisdiction, h, hj, hp, text_eq_refl j)
      (bypass _ _ (is_unscoped (record p { jurisdiction_id = some j })))

pub granted :
    (p : Principal) (id : Text) (role : Role) (j : Option Text) (s : Register)
    → assert_may_grant p (role ∷ []) ≡ ok tt
    → user_jurisdiction p id s ≡ ok j
    → grant_role p id role s ≡ insert_role id role j s
unfolding grant_role
granted p id role j s h k = rw (grant_role, h, k) refl

-- An auditor, as the console sees one.
abbrev console_view : Text → User → List UserRole → Principal
console_view id u rows =
    let roles =
      map (λ (r : UserRole). r.role) (filter (λ (r : UserRole). text_eq r.user_id id) rows) in
    let scope = any (role_eq national_admin) roles || any (role_eq auditor) roles in
    record {
      user_id = u.id;
      jurisdiction_id = if scope then none else u.jurisdiction_id;
      roles = roles;
    }

seen_as :
    (id : Text) (s : Register) (u : User)
    → find (is_user id) s.users ≡ some u
    → u.is_active ≡ true
    → has_role id auditor s ≡ true
    → (q : Principal) × (console_principal id s ≡ some q)
      × (is_unscoped q ≡ true)
      × (q.jurisdiction_id ≡ none)
unfolding console_principal is_unscoped
seen_as id s u h a r =
    let aud = roles_of id auditor s.roles ∙ r in
    (
      console_view id u s.roles,
      rw (console_principal, find-and (is_user id) (λ (v : User). v.is_active) s.users u h a) refl,
      rw aud (or_true _),
      rw (aud, or_true (any (role_eq national_admin) (console_view id u s.roles).roles)) refl,
    )

-- A scoped administrator that gives itself the role of auditor sees every state from then on.
pub grant_role-Unscopes :
    (p : Principal) (j : Text) (s : Register) (u : User)
    → p.jurisdiction_id ≡ some j
    → find (is_user p.user_id) s.users ≡ some u
    → u.jurisdiction_id ≡ some j
    → u.is_active ≡ true
    → (s' : Register) × (q : Principal) × (grant_role p p.user_id auditor s ≡ ok s')
      × (console_principal p.user_id s' ≡ some q)
      × (is_unscoped q ≡ true)
      × (jurisdiction_filter q ≡ none)
unfolding assert_may_grant jurisdiction_filter
grant_role-Unscopes p j s u hp h hj a =
    let (s', wrote, users, held) = insert_role-Held p.user_id auditor j s in
    let (q, seen, wide, place) = seen_as p.user_id s' u (rw users h) a held in
    (
      s',
      q,
      granted p p.user_id auditor (some j) s refl (user_jurisdiction-own p p.user_id j s u h hj hp)
          ∙ wrote,
      seen,
      wide,
      rw (jurisdiction_filter, wide) refl,
    )
