-- ===== src/Access/Nationals.antt =====
-- Only a national administrator makes national administrators.
use agroassure.Prelude.{
  Bool, true, false, not, ◌&&◌, ◌||◌, Option, none, some, List, [], ◌∷◌, ◌++◌, ◌≡◌, refl, sym, ap,
  ◌∙◌, arith, any, filter, if◌then◌else◌, Text,
}
use agroassure.Access.{
  Role, inspector, desk_supervisor, authorising_officer, state_admin, auditor, national_admin,
  role_eq, Principal, holds, User, UserRole, Register, new_user, insert_user, insert_role,
  same_role, Result, ok,
}
use agroassure.Access.Rules.{Post, bind-Post, ok-Post, refused-Post, refuse_if-ok, unless-ok}
use agroassure.Access.Rows.{filter-other}
use agroassure.Access.Codes.{Config}
use agroassure.Access.People.{
  CreateUserInput, assert_may_grant, target_jurisdiction, user_jurisdiction, insert_roles,
  create_user, grant_role,
}
use agroassure.Access.Registrations.Admitted.{approve_lem}
use agroassure.Access.Registrations.Decisions.{ApproveDraw, Approval, approve, assert_approves}

abbrev is_national : UserRole → Bool
is_national r = role_eq national_admin r.role

abbrev pub nationals : Register → List UserRole
nationals s = filter is_national s.roles

either : {A : Type 0} (P : A → Type 0) (b : Bool) (x y : A) → P x → P y → P (if b then x else y)
either P true x y h k = h
either P false x y h k = k

insert_role_lem :
    (id : Text) (role : Role) (j : Option Text) (s : Register)
    → role_eq national_admin role ≡ false
    → Post (λ s'. nationals s' ≡ nationals s) (insert_role id role j s)
insert_role_lem id role none s h = refused-Post _ _
insert_role_lem id role (some j) s h = ok-Post _ _ (
    either (λ x. nationals x ≡ nationals s)
      (any (same_role (record { user_id = id; role = role; jurisdiction_id = j })) s.roles) s
      (record s {
        roles = s.roles ++ record { user_id = id; role = role; jurisdiction_id = j } ∷ [];
      })
      refl
      (filter-other is_national s.roles (record { user_id = id; role = role; jurisdiction_id = j })
        h))

insert_roles_lem :
    (id : Text) (roles : List Role) (j : Option Text) (s : Register)
    → any (role_eq national_admin) roles ≡ false
    → Post (λ s'. nationals s' ≡ nationals s) (insert_roles id roles j s)
unfolding insert_roles
insert_roles_lem id [] j s h = ok-Post _ _ refl
insert_roles_lem id (r ∷ rs) j s h = bind-Post (insert_role id r j s) _ (λ t wrote.
    same_as t (insert_roles id rs j t) ((insert_role_lem id r j s (ground arith)).at_ok t wrote)
      (insert_roles_lem id rs j t (ground arith)))
  where
    same_as :
        (t : Register) (m : Result Register)
        → nationals t ≡ nationals s
        → Post (λ s'. nationals s' ≡ nationals t) m
        → Post (λ s'. nationals s' ≡ nationals s) m
    same_as t m e q = record { at_ok = λ s' h. q.at_ok s' h ∙ e }

-- What a call that is allowed does not ask for.
allowed :
    (wants national : Bool) → (wants && not national) ≡ false → national ≡ false → wants ≡ false
allowed wants national h k = ground arith

module _ (p : Principal) (scoped : holds national_admin p ≡ false) (s : Register) where
  grants_none :
      (roles : List Role)
      → assert_may_grant p roles ≡ ok tt
      → any (role_eq national_admin) roles ≡ false
  unfolding assert_may_grant
  grants_none roles h = allowed _ (holds national_admin p) (refuse_if-ok _ _ h) scoped

  granted :
      (id : Text) (role : Role) → Post (λ s'. nationals s' ≡ nationals s) (grant_role p id role s)
  unfolding grant_role
  granted id role = bind-Post (assert_may_grant p (role ∷ [])) _ (λ a h.
      bind-Post (user_jurisdiction p id s) _ (λ j found.
        insert_role_lem id role j s
          (one (role_eq national_admin role) (grants_none (role ∷ []) h))))
    where
      one : (b : Bool) → (b || false) ≡ false → b ≡ false
      one b h = ground arith

  created :
      (input : CreateUserInput)
      → Post (λ out. nationals out.1 ≡ nationals s) (create_user p input s)
  unfolding create_user
  created input = bind-Post (assert_may_grant p input.roles) _ (λ a h.
      bind-Post (target_jurisdiction p input.jurisdiction_id s) _ (λ j found.
        bind-Post (insert_user (person j) s) _ (λ t wrote.
          bind-Post (insert_roles input.id input.roles (some j) t) _ (λ u more. ok-Post _ _ (
            (insert_roles_lem input.id input.roles (some j) t (grants_none input.roles h)).at_ok u
              more
            ∙ sym (ap nationals (unless-ok _ _ _ _ wrote).1))))))
    where
      person : Text → User
      person j = new_user input.id j input.full_name input.email input.phone input.oidc_subject

  admitted :
      (cfg : Config) (id : Text) (role : Role) (draw : ApproveDraw)
      → Post (λ out. nationals out.1 ≡ nationals s) (approve cfg p id role draw s)
  admitted cfg id role draw = record {
    at_ok = λ out h.
        let a = (approve_lem cfg p role draw id s).at_ok out h in
        ap nationals a.rest
        ∙ ap (filter is_national) a.approval.roles
        ∙ filter-other is_national s.roles
            (record {
              user_id = draw.user_id;
              role = role;
              jurisdiction_id = a.request.jurisdiction_id;
            })
            (flip role (
              allowed (role_eq role national_admin) (holds national_admin p) (approves a.allowed)
                scoped));
  }
    where
      approves :
          assert_approves p role ≡ ok tt
          → (role_eq role national_admin && not (holds national_admin p)) ≡ false
      approves h = refuse_if-ok _ _ h

      flip : (r : Role) → role_eq r national_admin ≡ false → role_eq national_admin r ≡ false
      flip national_admin h = h
      flip inspector h = refl
      flip desk_supervisor h = refl
      flip authorising_officer h = refl
      flip state_admin h = refl
      flip auditor h = refl

-- Whoever is no national administrator makes none: creating a user, granting a role and approving a
-- request all leave the rows of that role as they are.
pub nationals-Guarded :
    (cfg : Config) (p : Principal) (s : Register)
    → holds national_admin p ≡ false
    → ((input : CreateUserInput) (id : Text) (s' : Register)
        → create_user p input s ≡ ok (id, s')
        → nationals s' ≡ nationals s)
      × ((id : Text) (role : Role) (s' : Register)
          → grant_role p id role s ≡ ok s'
          → nationals s' ≡ nationals s)
      × ((id : Text) (role : Role) (draw : ApproveDraw) (a : Approval) (s' : Register)
          → approve cfg p id role draw s ≡ ok (a, s')
          → nationals s' ≡ nationals s)
nationals-Guarded cfg p s scoped = (
  (λ input id s' h. (created p scoped s input).at_ok (id, s') h),
  (λ id role s' h. (granted p scoped s id role).at_ok s' h),
  (λ id role draw a s' h. (admitted p scoped s cfg id role draw).at_ok (a, s') h),
)
