-- ===== src/Access/Scope/People.antt =====
-- Creating and suspending users, granting and revoking roles: admin.service.ts.
use agroassure.Prelude.{
  false, true, not, ◌&&◌, Option, some, List, [], ◌∷◌, ◌≡◌, refl, ap, ◌∙◌, arith, find, Text,
  text_eq, text_eq_iff, Bool,
}
use agroassure.Access.{
  Role, Principal, is_unscoped, User, Registration, Register, is_user, option_eq, new_user,
  insert_user, insert_role,
}
use agroassure.Access.Rules.{
  Post, bind-Post, option-Post, if-Post, ok-Post, refused-Post, then-Post,
}
use agroassure.Access.Rows.{filter-within, find-holds}
use agroassure.Access.People.{
  CreateUserInput, target_jurisdiction, user_jurisdiction, assert_may_grant, insert_roles,
  create_user, grant_role, revoke_role, suspend_user,
}
use agroassure.Access.Scope.{
  Scoped, Abroad, Untouched, is_role_of, own_row, found_other, with_roles, with_others,
  user-Untouched, role-Untouched,
}

module _ (j : Text) (p : Principal) (at : Scoped j p) (u : User) (r : Registration)
    (before : Register) (out : Abroad j u r before) where
  module _ (s : Register) (kept : Untouched j u r before s) where
    -- Whoever the call names is another person.
    names_other : (id : Text) → Post (λ k. text_eq u.id id ≡ false) (user_jurisdiction p id s)
    unfolding user_jurisdiction
    names_other id =
        option-Post (find (is_user id) s.users) _ _ (λ e. refused-Post _ _)
          (λ w found.
            if-Post (not (is_unscoped p) && not (option_eq w.jurisdiction_id p.jurisdiction_id)) _ _
              (λ h. refused-Post _ _)
              (λ h. ok-Post _ _ (
                found_other j u r before out s kept (is_user id) id w found
                  (find-holds (is_user id) s.users w found) (own_row j p at w.jurisdiction_id h))))

    pub suspend_user-Untouched : (id : Text) → Post (Untouched j u r before) (suspend_user p id s)
    unfolding suspend_user
    suspend_user-Untouched id = bind-Post (user_jurisdiction p id s) _ (λ k h. ok-Post _ _ (
        with_others j u r before out s kept (is_user id) _ (λ v. refl)
          ((names_other id).at_ok k h)))

    pub grant_role-Untouched :
        (id : Text) (role : Role) → Post (Untouched j u r before) (grant_role p id role s)
    unfolding grant_role
    grant_role-Untouched id role = then-Post (assert_may_grant p (role ∷ [])) _ (λ a.
        bind-Post (user_jurisdiction p id s) _
          (λ k h. role-Untouched j u r before out s kept id role k ((names_other id).at_ok k h)))

    pub revoke_role-Untouched :
        (id : Text) (role : Role) → Post (Untouched j u r before) (revoke_role p id role s)
    unfolding revoke_role
    revoke_role-Untouched id role = bind-Post (user_jurisdiction p id s) _ (λ k h. ok-Post _ _ (
        with_roles j u r before out s kept _ (
          filter-within (is_role_of u.id) _ s.roles (λ x mine. stays (text_eq x.user_id id) _ (
            ap (λ t. text_eq t id) ((text_eq_iff x.user_id u.id).0 mine)
            ∙ (names_other id).at_ok k h)))))
      where
        stays : (a b : Bool) → a ≡ false → not (a && b) ≡ true
        stays a b h = ground arith

  insert_roles-Untouched :
      (id : Text) (roles : List Role) (k : Option Text) (s : Register)
      → text_eq u.id id ≡ false
      → Untouched j u r before s
      → Post (Untouched j u r before) (insert_roles id roles k s)
  unfolding insert_roles
  insert_roles-Untouched id [] k s other kept = ok-Post _ _ kept
  insert_roles-Untouched id (role ∷ roles) k s other kept =
      bind-Post (insert_role id role k s) _ (λ t h.
        insert_roles-Untouched id roles k t other
          ((role-Untouched j u r before out s kept id role k other).at_ok t h))

  pub create_user-Untouched :
      (input : CreateUserInput) (s : Register)
      → Untouched j u r before s
      → Post (λ done. Untouched j u r before done.1) (create_user p input s)
  unfolding create_user
  create_user-Untouched input s kept = then-Post (assert_may_grant p input.roles) _ (λ a.
      bind-Post (target_jurisdiction p input.jurisdiction_id s) _ (λ k b.
        bind-Post (insert_user (person k) s) _ (λ t c.
          let (other, then) = (user-Untouched j u r before out s kept (person k)).at_ok t c in
          bind-Post (insert_roles input.id input.roles (some k) t) _ (λ v d.
            ok-Post _ _
              ((insert_roles-Untouched input.id input.roles (some k) t other then).at_ok v d)))))
    where
      person : Text → User
      person k = new_user input.id k input.full_name input.email input.phone input.oidc_subject
