-- ===== src/Access/Scope/Invited.antt =====
-- Issuing, replacing and cancelling codes: invitations.service.ts.
use mathlib.Core.Path.{subst}
use agroassure.Prelude.{
  ℕ, false, true, not, ◌&&◌, Option, some, none, ◌≡◌, refl, sym, ap, ◌∙◌, any, find, filter, Text,
  text_eq, text_eq_iff, arith, Bool, and_both,
}
use agroassure.Access.{
  inspector, Principal, User, Invitation, Registration, Register, has_role, is_none, is_user,
  is_live, new_user, insert_user, insert_role, update_where, option_eq, in_filter,
}
use agroassure.Access.Codes.{Config, setting, trim}
use agroassure.Access.Rules.{Post, bind-Post, guard-Post, read-Post, ok-Post}
use agroassure.Access.Rows.{
  any-without, filter-other, filter-untouched, none-among, find-holds, text_eq_flip,
}
use agroassure.Access.People.{target_jurisdiction}
use agroassure.Access.Invitations.{
  InviteInput, Draw, is_live_of, cancel_at, new_invitation, issue, invite, reinvite, cancel,
  can_see, may_cancel, secret_of, email_of, phone_of, is_bad_email, is_taken,
}
use agroassure.Access.Invitations.Issuing.{issue_lem}
use agroassure.Access.Scope.{
  Scoped, Abroad, Untouched, is_for, own_filter, found_other, with_codes, user-Untouched,
  role-Untouched,
}

module _ (j : Text) (p : Principal) (at : Scoped j p) (u : User) (r : Registration)
    (before : Register) (out : Abroad j u r before) where
  -- A code for another person.
  issue-Untouched :
      (cfg : Config) (who : User) (draw : Draw) (s : Register)
      → text_eq u.id who.id ≡ false
      → Untouched j u r before s
      → Post (λ done. Untouched j u r before done.1) (issue cfg p who draw s)
  issue-Untouched cfg who draw s other kept = record {
    at_ok = λ done h.
        let i = (issue_lem cfg p who draw s).at_ok done h in
        subst (Untouched j u r before) (sym i.written) (
          with_codes j u r before out s kept _ (
            filter-other (is_for u.id)
              (update_where (is_live_of who.id) (cancel_at draw.stamp.now) s.invitations)
              (new_invitation cfg p who draw i.hash) (text_eq_flip u.id who.id other)
            ∙ filter-untouched (is_live_of who.id) (is_for u.id) (cancel_at draw.stamp.now)
                s.invitations (λ x. refl)
                (none-among (is_live_of who.id) (is_for u.id) s.invitations (λ x mine.
                  stays (text_eq x.user_id who.id) (is_live x)
                    (ap (λ t. text_eq t who.id) ((text_eq_iff x.user_id u.id).0 mine) ∙ other)))));
  }
    where
      stays : (a b : Bool) → a ≡ false → (a && b) ≡ false
      stays a b h = ground arith

  pub reinvite-Untouched :
      (cfg : Config) (id : Text) (draw : Draw) (s : Register)
      → Untouched j u r before s
      → Post (λ done. Untouched j u r before done.1) (reinvite cfg p id draw s)
  unfolding reinvite secret_of
  reinvite-Untouched cfg id draw s kept = read-Post (setting cfg.secret) _ _ (λ secret a.
      read-Post (find (can_see p id) s.users) _ _ (λ who found.
        guard-Post (not who.is_active) _ _ (λ b.
          guard-Post (not (has_role id inspector s)) _ _ (λ c.
            guard-Post (is_none (setting who.email) && is_none (setting who.phone)) _ _
              (λ d. issue-Untouched cfg who draw s (another who found) kept)))))
    where
      another : (who : User) → find (can_see p id) s.users ≡ some who → text_eq u.id who.id ≡ false
      another who found =
          let (named, seen) =
            and_both (is_user id who) _ (find-holds (can_see p id) s.users who found) in
          ap (text_eq u.id) ((text_eq_iff who.id id).0 named)
          ∙ found_other j u r before out s kept (can_see p id) id who found named
              (ap (λ f. in_filter f who.jurisdiction_id) (sym (own_filter j p at)) ∙ seen)

  pub invite-Untouched :
      (cfg : Config) (input : InviteInput) (draw : Draw) (s : Register)
      → Untouched j u r before s
      → Post (λ done. Untouched j u r before done.1) (invite cfg p input draw s)
  unfolding invite secret_of
  invite-Untouched cfg input draw s kept = read-Post (setting cfg.secret) _ _ (λ secret a.
      bind-Post (phone_of cfg input.phone) _ (λ phone b.
        guard-Post (is_none (email_of cfg input.email) && is_none phone) _ _ (λ c.
          guard-Post (is_bad_email (email_of cfg input.email)) _ _ (λ d.
            bind-Post (target_jurisdiction p input.jurisdiction_id s) _ (λ k e.
              guard-Post (is_taken cfg (email_of cfg input.email) s.users) _ _ (λ f.
                bind-Post (insert_user (person k phone) s) _ (λ t g.
                  let (other, then) =
                    (user-Untouched j u r before out s kept (person k phone)).at_ok t g in
                  bind-Post (insert_role input.user_id inspector (some k) t) _ (λ v h.
                    issue-Untouched cfg (person k phone) draw v other (
                      (role-Untouched j u r before out t then input.user_id inspector (some k)
                          other).at_ok
                        v h)))))))))
    where
      person : Text → Option Text → User
      person k phone =
          new_user input.user_id k (trim input.full_name) (email_of cfg input.email) phone none

  pub cancel-Untouched :
      (id : Text) (now : ℕ) (s : Register)
      → Untouched j u r before s
      → Post (Untouched j u r before) (cancel p id now s)
  unfolding cancel
  cancel-Untouched id now s kept = guard-Post (not (any (may_cancel p id) s.invitations)) _ _ (λ a.
      ok-Post _ _ (
        with_codes j u r before out s kept _ (
          filter-untouched (may_cancel p id) (is_for u.id) _ s.invitations (λ x. refl)
            (ap (any (may_cancel p id)) kept.codes
              ∙ any-without (may_cancel p id)
                  (λ (i : Invitation). option_eq (some j) i.jurisdiction_id)
                  (filter (is_for u.id) before.invitations) (λ i h. seen i h) out.codes))))
    where
      seen :
          (i : Invitation) → may_cancel p id i ≡ true → option_eq (some j) i.jurisdiction_id ≡ true
      seen i h =
          ap (λ f. in_filter f i.jurisdiction_id) (sym (own_filter j p at))
          ∙ (and_both (is_live i) _ (and_both (text_eq i.id id) _ h).1).1
