-- ===== src/Access/Scope/Phones.antt =====
-- Enrolling, approving and revoking phones: admin.service.ts.
use agroassure.Prelude.{
  ℕ, false, true, not, ◌&&◌, Option, some, ◌≡◌, refl, any, find, Text, text_eq, arith, Bool,
}
use agroassure.Access.{
  Principal, is_unscoped, User, Device, active, Registration, Register, has_key, option_eq,
  insert_device, is_device,
}
use agroassure.Access.Rules.{Post, bind-Post, guard-Post, read-Post, ok-Post}
use agroassure.Access.Rows.{filter-untouched, none-among}
use agroassure.Access.People.{target_jurisdiction}
use agroassure.Access.Phones.{
  Stamp, parse_public_key, is_active_user, new_device, enroll_device, may_approve, approve_device,
  may_revoke, revoke_device,
}
use agroassure.Access.Scope.{
  Scoped, Abroad, Untouched, is_away, own_state, not_elsewhere, with_phones, phone-Untouched,
}

module _ (j : Text) (p : Principal) (at : Scoped j p) (u : User) (r : Registration)
    (before : Register) (out : Abroad j u r before) (s : Register)
    (kept : Untouched j u r before s) where
  pub enroll_device-Untouched :
      (user : Text) (label : Option Text) (base64 : Text) (requested : Option Text) (stamp : Stamp)
      → Post
          (λ done. Untouched j u r before done.1)
          (enroll_device p user label base64 requested stamp s)
  unfolding enroll_device
  enroll_device-Untouched user label base64 requested stamp =
      bind-Post (target_jurisdiction p requested s) _ (λ k a.
        bind-Post (parse_public_key base64) _ (λ key b.
          read-Post (find (is_active_user user) s.users) _ _ (λ w e.
            guard-Post (not (is_unscoped p) && not (option_eq w.jurisdiction_id (some k))) _ _ (λ f.
              guard-Post (any (has_key key) s.devices) _ _ (λ g.
                bind-Post (insert_device (new_device stamp k user key label active) s) _ (λ t h.
                  ok-Post _ _ (
                    (phone-Untouched j u r before out s kept
                        (new_device stamp k user key label active)
                        ((own_state j p at requested s).at_ok k a)).at_ok
                      t h)))))))

  away : (d : Device) → is_away j d ≡ true → text_eq j d.jurisdiction_id ≡ false
  away d h = passed (text_eq j d.jurisdiction_id) h
    where
      passed : (b : Bool) → not b ≡ true → b ≡ false
      passed b h = ground arith

  pub approve_device-Untouched :
      (id : Text) (now : ℕ) → Post (Untouched j u r before) (approve_device p id now s)
  unfolding approve_device
  approve_device-Untouched id now = guard-Post (not (any (may_approve p id) s.devices)) _ _ (λ a.
      ok-Post _ _ (
        with_phones j u r before out s kept _ (
          filter-untouched (may_approve p id) (is_away j) _ s.devices (λ d. refl)
            (none-among (may_approve p id) (is_away j) s.devices (λ d h.
              not_elsewhere j p at (some d.jurisdiction_id) (is_device id d) _ (away d h))))))

  pub revoke_device-Untouched :
      (id : Text) (now : ℕ) → Post (Untouched j u r before) (revoke_device p id now s)
  unfolding revoke_device
  revoke_device-Untouched id now = guard-Post (not (any (may_revoke p id) s.devices)) _ _ (λ a.
      ok-Post _ _ (
        with_phones j u r before out s kept _ (
          filter-untouched (may_revoke p id) (is_away j) _ s.devices (λ d. refl)
            (none-among (may_revoke p id) (is_away j) s.devices (λ d h.
              not_elsewhere j p at (some d.jurisdiction_id) (is_device id d) _ (away d h))))))
