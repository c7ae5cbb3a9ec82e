-- ===== src/Access/Custody.antt =====
-- A phone keeps its key and its person, and stays out of service once it is revoked.
pub mod History
use mathlib.Core.Path.{subst}
use agroassure.Prelude.{
  differ, or_left, ℕ, Bool, true, false, not, ◌&&◌, ◌||◌, Option, none, some, List, [], ◌∷◌, ◌++◌,
  ◌≡◌, refl, sym, ap, ◌∙◌, arith, any, find, filter, Text, text_eq, text_eq_iff, Bool-cases, inl,
  inr, Option-cases, if◌then◌else◌,
}
use agroassure.Access.{
  inspector, Role, Principal, User, Device, Registration, DeviceStatus, waiting, active, revoked,
  Register, update_where, is_user, is_device, is_revoked, is_active_status, is_waiting, has_key,
  has_role, insert_device, option_eq, ok, Result, or_refuse, is_unscoped,
}
use agroassure.Access.Rules.{
  Post, bind-Post, read-Post, guard-Post, if-Post, option-Post, ok-Post, refused-Post, unless-ok,
}
use agroassure.Access.Rows.{
  filter-update, filter-append, found-only, only-holds, none-in, find-none, any-without,
}
use agroassure.Access.Directory.{touch_phone, is_phone_of, resolve_phone}
use agroassure.Access.Codes.{Config}
use agroassure.Access.People.{target_jurisdiction}
use agroassure.Access.Phones.{
  Stamp, parse_public_key, is_active_user, new_device, enroll_device, first_request,
  request_enrolment, may_approve, approve_device, may_revoke, revoke_device,
}
use agroassure.Access.Invitations.{Activation}
use agroassure.Access.Invitations.Activated.{activate_lem}
use agroassure.Access.Invitations.Spending.{seen_new, reuse_device, bring_phone, activate}
use agroassure.Access.Registrations.Approved.{PhonesAfter, asked_phone}
use agroassure.Access.Registrations.Admitted.{approve_lem}
use agroassure.Access.Registrations.Decisions.{ApproveDraw, Approval, approve}

-- What a phone keeps.
abbrev pub Held : Device → Device → Type 0
Held d e =
    (e.public_key ≡ d.public_key)
    × (e.assigned_user_id ≡ d.assigned_user_id)
    × (is_revoked d.status ≡ true → is_revoked e.status ≡ true)

-- The one row of a phone, which has kept what it had.
pub record Custody (did : Text) (d : Device) (rows : List Device) : Type 0 where
  pub row : Device
  pub only : filter (is_device did) rows ≡ row ∷ []
  pub held : Held d row

idle :
    (st : DeviceStatus) (b c : Bool) → (b && (is_waiting st && c)) ≡ true → is_revoked st ≡ true → ⊥
idle waiting b c h k = cc
idle active b c h k = cc
idle revoked b c h k = ground arith

Held-trans : (d e f : Device) → Held d e → Held e f → Held d f
Held-trans d e f (a, b, c) (a', b', c') = (a' ∙ a, b' ∙ b, λ h. c' (c h))

module _ (did : Text) (d : Device) where
  -- An update of some phones.
  updated :
      (p : Device → Bool) (f : Device → Device) (rows : List Device)
      → ((e : Device) → is_device did (f e) ≡ is_device did e)
      → ((e : Device)
          → is_device did e ≡ true
          → filter (is_device did) rows ≡ e ∷ []
          → p e ≡ true
          → Held e (f e))
      → Custody did d rows
      → Custody did d (update_where p f rows)
  updated p f rows keeps holds c = record {
    row = if p c.row then f c.row else c.row;
    only = filter-update p (is_device did) f rows keeps ∙ ap (update_where p f) c.only;
    held = either (p c.row) (holds c.row (only-holds (is_device did) rows c.row c.only) c.only);
  }
    where
      either :
          (b : Bool) → (b ≡ true → Held c.row (f c.row)) → Held d (if b then f c.row else c.row)
      either true h = Held-trans d c.row (f c.row) c.held (h refl)
      either false h = c.held

  -- A phone with an id of its own.
  added :
      (new : Device) (rows : List Device)
      → any (is_device new.id) rows ≡ false
      → Custody did d rows
      → Custody did d (rows ++ new ∷ [])
  added new rows free c = record {
    row = c.row;
    only = filter-append (is_device did) rows (new ∷ []) ∙ rw (c.only, other) refl;
    held = c.held;
  }
    where
      other : is_device did new ≡ false
      other = elim (Bool-cases (is_device did new)) [
        | inr h ↦ h
        | inl h ↦ absurd (
            differ (is_device new.id c.row)
              ((text_eq_iff c.row.id new.id).1 (
                (text_eq_iff c.row.id did).0 (only-holds (is_device did) rows c.row c.only)
                ∙ sym ((text_eq_iff new.id did).0 h)))
              (none-in (is_device new.id) (is_device did) rows c.row free c.only))
      ]

  inserted :
      (new : Device) (s : Register)
      → Custody did d s.devices
      → Post (λ t. Custody did d t.devices) (insert_device new s)
  inserted new s c = record {
    at_ok = λ t h.
        let (free, same) = unless-ok _ _ _ _ h in
        subst (Custody did d) (ap (λ (x : Register). x.devices) same)
          (added new s.devices (or_left _ _ free) c);
  }

  pub enroll_device-Custody :
      (p : Principal) (user : Text) (label : Option Text) (base64 : Text) (requested : Option Text)
      (at : Stamp) (s : Register)
      → Custody did d s.devices
      → Post (λ out. Custody did d out.1.devices) (enroll_device p user label base64 requested at s)
  unfolding enroll_device
  enroll_device-Custody p user label base64 requested at s c =
      bind-Post (target_jurisdiction p requested s) _ (λ j a.
        bind-Post (parse_public_key base64) _ (λ key b.
          read-Post (find (is_active_user user) s.users) _ _ (λ u e.
            guard-Post (not (is_unscoped p) && not (option_eq u.jurisdiction_id (some j))) _ _ (λ f.
              guard-Post (any (has_key key) s.devices) _ _ (λ g.
                bind-Post (insert_device (new_device at j user key label active) s) _
                  (λ t h. ok-Post _ _ ((inserted _ s c).at_ok t h)))))))

  pub request_enrolment-Custody :
      (p : Principal) (base64 : Text) (label : Option Text) (at : Stamp) (s : Register)
      → Custody did d s.devices
      → Post (λ out. Custody did d out.1.devices) (request_enrolment p base64 label at s)
  unfolding request_enrolment
  request_enrolment-Custody p base64 label at s c = bind-Post (parse_public_key base64) _ (λ key a.
      option-Post (find (has_key key) s.devices) _ _
        (λ e. read-Post (find (is_active_user p.user_id) s.users) _ _ (λ u b.
          read-Post u.jurisdiction_id _ _ (λ j f.
            bind-Post (insert_device (new_device at j p.user_id key label waiting) s) _
              (λ t h. ok-Post _ _ ((inserted _ s c).at_ok t h)))))
        (λ e found.
          if-Post (option_eq e.assigned_user_id (some p.user_id)) _ _ (λ h. ok-Post _ _ c)
            (λ h. refused-Post _ _)))

  pub approve_device-Custody :
      (p : Principal) (id : Text) (now : ℕ) (s : Register)
      → Custody did d s.devices
      → Post (λ t. Custody did d t.devices) (approve_device p id now s)
  unfolding approve_device
  approve_device-Custody p id now s c =
      guard-Post (not (any (may_approve p id) s.devices)) _ _ (λ a. ok-Post _ _ (
        updated (may_approve p id) _ s.devices (λ e. refl)
          (λ e i o h. (refl, refl, λ k. absurd (idle e.status _ _ h k))) c))

  pub revoke_device-Custody :
      (p : Principal) (id : Text) (now : ℕ) (s : Register)
      → Custody did d s.devices
      → Post (λ t. Custody did d t.devices) (revoke_device p id now s)
  unfolding revoke_device
  revoke_device-Custody p id now s c = guard-Post (not (any (may_revoke p id) s.devices)) _ _ (λ a.
      ok-Post _ _
        (updated (may_revoke p id) _ s.devices (λ e. refl) (λ e i o h. (refl, refl, λ k. refl)) c))

  pub touch_phone-Custody :
      (now : ℕ) (user id : Text) (s : Register)
      → Custody did d s.devices
      → Custody did d (touch_phone now user id s).devices
  unfolding touch_phone
  touch_phone-Custody now user id s c =
      updated _ _ s.devices (λ e. refl) (λ e i o h. (refl, refl, λ k. k)) c

  bring_phone-Custody :
      (at : Stamp) (user j : Text) (key : List ℕ) (label : Option Text) (s : Register)
      → Custody did d s.devices
      → Post (λ out. Custody did d out.1.devices) (bring_phone at user j key label s)
  unfolding bring_phone
  bring_phone-Custody at user j key label s c =
      option-Post (find (has_key key) s.devices) _ _
        (λ new.
          bind-Post (insert_device (seen_new at j user key label) s) _
            (λ t h. ok-Post _ _ ((inserted _ s c).at_ok t h)))
        (λ e old. guard-Post (not (option_eq e.assigned_user_id (some user))) _ _ (λ own.
          guard-Post (is_revoked e.status) _ _ (λ standing. ok-Post _ _ (
            updated (is_device e.id) (reuse_device at.now label) s.devices (λ x. refl)
              (λ x i o h. (
                refl,
                refl,
                λ k. absurd (
                    differ (is_revoked x.status) k (
                      ap (λ (y : Device). is_revoked y.status) (sym (same x e i o h old))
                      ∙ standing)),
              ))
              c))))
    where
      same :
          (x e : Device)
          → is_device did x ≡ true
          → filter (is_device did) s.devices ≡ x ∷ []
          → is_device e.id x ≡ true
          → find (has_key key) s.devices ≡ some e
          → e ≡ x
      same x e i o h old = found-only (has_key key) (is_device did) s.devices e x o old (
          (text_eq_iff e.id did).1 (sym ((text_eq_iff x.id e.id).0 h) ∙ (text_eq_iff x.id did).0 i))

  pub activate-Custody :
      (cfg : Config) (code base64 : Text) (label : Option Text) (at : Stamp) (s : Register)
      → Custody did d s.devices
      → Post (λ out. Custody did d out.1.devices) (activate cfg code base64 label at s)
  activate-Custody cfg code base64 label at s c = record {
    at_ok = λ out h.
        let a = (activate_lem cfg code base64 label at s).at_ok out h in
        subst (Custody did d) (sym a.devices) (
          (bring_phone-Custody at a.invitation.user_id a.place a.given.key label s c).at_ok _
            a.brought);
  }

  pub approve-Custody :
      (cfg : Config) (p : Principal) (id : Text) (role : Role) (draw : ApproveDraw) (s : Register)
      → Custody did d s.devices
      → Post (λ out. Custody did d out.1.devices) (approve cfg p id role draw s)
  approve-Custody cfg p id role draw s c = record {
    at_ok = λ out h.
        let a = (approve_lem cfg p role draw id s).at_ok out h in
        subst (Custody did d) (sym (ap (λ (x : Register). x.devices) a.rest)) (
          after a.request (asked_phone a.request role) out.0.device_id a.between.devices
            a.approval.phones);
  }
    where
      after :
          (r : Registration) (o : Option (List ℕ)) (id : Option Text) (ds : List Device)
          → PhonesAfter r draw.user_id draw.device o id s.devices ds
          → Custody did d ds
      after r none id ds (e, same) = subst (Custody did d) (sym same) c
      after r (some key) id ds (e, same, f, new) =
          subst (Custody did d) (sym same) (added _ s.devices new c)
