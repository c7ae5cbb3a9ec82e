-- ===== src/Access/Scope/Decided.antt =====
-- Approving and rejecting requests to join: registration.service.ts.
use mathlib.Core.Path.{subst}
use agroassure.Prelude.{
  ℕ, false, true, not, ◌&&◌, Option, some, none, List, ◌≡◌, refl, sym, ap, ◌∙◌, any, find, filter,
  Text, text_eq, text_eq_iff, text_eq_refl, Bool-cases, inl, inr, differ, if◌then◌else◌,
}
use agroassure.Access.{
  Role, inspector, role_eq, Principal, User, Device, Registration, Register, Result, ok, refused,
  not_found, is_none, is_user, is_open, option_eq,
}
use agroassure.Access.Codes.{Config}
use agroassure.Access.Rules.{
  Post, bind-Post, guard-Post, read-Post, ok-Post, then-Post, if-Post, refused-Post,
}
use agroassure.Access.Rows.{filter-other, filter-untouched, found-only, text_eq_flip}
use agroassure.Access.Phones.{Stamp}
use agroassure.Access.Invitations.{Issued, reinvite}
use agroassure.Access.Registrations.{is_registration}
use agroassure.Access.Registrations.Started.{keep_lawful-rows}
use agroassure.Access.Registrations.Approved.{ApprovedAs, PhonesAfter, approve_row_lem, asked_phone}
use agroassure.Access.Registrations.Decisions.{
  ApproveDraw, Approval, approve, approve_row, assert_approves, send_code, may_reject, reject,
  write_rejected,
}
use agroassure.Access.Scope.{
  Scoped, Abroad, Untouched, is_away, is_for, is_role_of, own_row, not_elsewhere, new_other,
  with_requests,
}
use agroassure.Access.Scope.Invited.{reinvite-Untouched}

module _ (j : Text) (p : Principal) (at : Scoped j p) (u : User) (r : Registration)
    (before : Register) (out : Abroad j u r before) where
  -- A request that the administrator may decide is another one.
  request_other :
      (id : Text) (q : Registration) (s : Register)
      → find (is_registration id) s.registrations ≡ some q
      → option_eq (some j) (some q.jurisdiction_id) ≡ true
      → Untouched j u r before s
      → text_eq r.id q.id ≡ false
  request_other id q s found own kept = elim (Bool-cases (text_eq r.id q.id)) [
    | inr h ↦ h
    | inl h ↦ absurd (
        differ (text_eq j q.jurisdiction_id) own (
          ap (λ (x : Registration). text_eq j x.jurisdiction_id)
            (found-only (is_registration id) (is_registration r.id) s.registrations q r kept.request
              found ((text_eq_iff q.id r.id).1 (sym ((text_eq_iff r.id q.id).0 h))))
          ∙ out.request))
  ]

  phones_away :
      (q : Registration) (user : Text) (stamp : Stamp) (key : Option (List ℕ)) (id : Option Text)
      (ds ds' : List Device)
      → q.jurisdiction_id ≡ j
      → PhonesAfter q user stamp key id ds ds'
      → filter (is_away j) ds' ≡ filter (is_away j) ds
  phones_away q user stamp none id ds ds' here (a, same) = ap (filter (is_away j)) same
  phones_away q user stamp (some key) id ds ds' here (a, same, b, c) =
      ap (filter (is_away j)) same ∙ filter-other (is_away j) ds _ (rw (here, text_eq_refl j) refl)

  -- The transaction of an approval.
  approved :
      (cfg : Config) (role : Role) (draw : ApproveDraw) (id : Text) (q : Registration)
      (device : Option Text) (s t : Register)
      → find (is_registration id) s.registrations ≡ some q
      → Untouched j u r before s
      → ApprovedAs p role draw q s device t
      → Untouched j u r before t
  approved cfg role draw id q device s t found kept a =
      let own = own_row j p at (some q.jurisdiction_id) a.here in
      let other = new_other j u r before out s kept draw.user_id a.fresh in
      record {
        person =
            ap (filter (is_user u.id)) a.users
            ∙ filter-other (is_user u.id) s.users _ (text_eq_flip u.id draw.user_id other)
            ∙ kept.person;
        roles =
            ap (filter (is_role_of u.id)) a.roles
            ∙ filter-other (is_role_of u.id) s.roles _ (text_eq_flip u.id draw.user_id other)
            ∙ kept.roles;
        codes = ap (filter (is_for u.id)) a.invitations ∙ kept.codes;
        phones =
            phones_away q draw.user_id draw.device (asked_phone q role) device s.devices t.devices
              (sym ((text_eq_iff j q.jurisdiction_id).0 own)) a.phones
            ∙ kept.phones;
        request =
            ap (filter (is_registration r.id)) a.registrations
            ∙ filter-untouched (is_registration q.id) (is_registration r.id) _ s.registrations
                (λ x. refl) (rw kept.request (rw (request_other id q s found own kept) refl))
            ∙ kept.request;
      }

  sent :
      (cfg : Config) (role : Role) (draw : ApproveDraw) (device : Option Text) (s : Register)
      → Untouched j u r before s
      → Untouched j u r before (send_code cfg p role draw device s).1
  sent cfg role draw device s kept =
      either
        (if role_eq role inspector && is_none device
          then reinvite cfg p draw.user_id draw.invitation s
          else refused not_found)
        (if-Post (role_eq role inspector && is_none device) _ _
          (λ h. reinvite-Untouched j p at u r before out cfg draw.user_id draw.invitation s kept)
          (λ h. refused-Post _ _))
    where
      result : Result (Issued × Register) → Approval × Register
      result m = elim m [
        | ok a ↦ (record { user_id = draw.user_id; device_id = device; invite_sent = true }, a.1)
        | refused e ↦
            (record { user_id = draw.user_id; device_id = device; invite_sent = false }, s)
      ]

      either :
          (m : Result (Issued × Register))
          → Post (λ done. Untouched j u r before done.1) m
          → Untouched j u r before (result m).1
      either (ok a) q = q.at_ok a refl
      either (refused e) q = kept

  pub approve-Untouched :
      (cfg : Config) (id : Text) (role : Role) (draw : ApproveDraw) (s : Register)
      → Untouched j u r before s
      → Post (λ done. Untouched j u r before done.1) (approve cfg p id role draw s)
  unfolding approve
  approve-Untouched cfg id role draw s kept = then-Post (assert_approves p role) _ (λ may.
      read-Post (find (is_registration id) s.registrations) _ _ (λ q found.
        bind-Post (approve_row cfg p role draw q s) _ (λ done h. ok-Post _ _ (
          sent cfg role draw done.0 done.1 (
            approved cfg role draw id q done.0 s done.1 found kept
              ((approve_row_lem cfg p role draw q s).at_ok done h))))))

  pub reject-Untouched :
      (cfg : Config) (id : Text) (reason : Option Text) (now : ℕ) (s : Register)
      → Untouched j u r before s
      → Post (Untouched j u r before) (reject cfg p id reason now s)
  unfolding reject
  reject-Untouched cfg id reason now s kept =
      guard-Post (not (any (may_reject p id) s.registrations)) _ _ (λ a. record {
        at_ok = λ t h. subst (Untouched j u r before) (keep_lawful-rows cfg _ s t h) (
            with_requests j u r before out s kept _ (
              filter-untouched (may_reject p id) (is_registration r.id)
                (write_rejected p.user_id now reason) s.registrations (λ x. refl)
                (rw kept.request (
                  rw
                    (not_elsewhere j p at (some r.jurisdiction_id) (is_registration id r)
                      (is_open r.status) out.request)
                    refl))));
      })
