-- ===== src/Access/Registrations/Approved.antt =====
-- What the approval of a request leaves.
use agroassure.Prelude.{
  or_left, ℕ, false, not, ◌&&◌, Option, none, some, List, [], ◌∷◌, ◌++◌, ◌≡◌, refl, sym, ap, ◌∙◌,
  any, Text, codes, if◌then◌else◌,
}
use agroassure.Access.{
  Role, inspector, role_eq, Principal, is_unscoped, User, UserRole, Device, RegistrationStatus,
  verifying, pending, approved, rejected, withdrawn, Registration, Register, new_user, insert_user,
  is_user, insert_device, is_device, has_key, option_eq, ok, update_where,
}
use agroassure.Access.Rules.{
  Post, bind-Post, guard-Post, then-Post, ok-Post, unless-ok, option-Post,
}
use agroassure.Access.Rows.{no_clash}
use agroassure.Access.Codes.{Config}
use agroassure.Access.Phones.{Stamp}
use agroassure.Access.Invitations.{has_email}
use agroassure.Access.Invitations.Spending.{seen_new}
use agroassure.Access.Registrations.{is_registration, keep_lawful}
use agroassure.Access.Registrations.Started.{keep_lawful-rows}
use agroassure.Access.Registrations.Decisions.{
  ApproveDraw, approve_row, assert_pending, take_phone, insert_new_role, write_approved,
}

abbrev pub asked_phone : Registration → Role → Option (List ℕ)
asked_phone r role = if role_eq role inspector then r.public_key else none

abbrev pub registered_phone : Registration → Text → Stamp → List ℕ → Device
registered_phone r user_id at key =
    seen_new at r.jurisdiction_id user_id key (some (codes "Registered phone"))

-- The phone that came with the request is in service where the role is an inspector's.
abbrev pub PhonesAfter :
    Registration → Text → Stamp → Option (List ℕ) → Option Text → List Device → List Device → Type 0
PhonesAfter r user_id at none id ds ds' = (id ≡ none) × (ds' ≡ ds)
PhonesAfter r user_id at (some key) id ds ds' =
    (id ≡ some at.id)
    × (ds' ≡ ds ++ registered_phone r user_id at key ∷ [])
    × (any (has_key key) ds ≡ false)
    × (any (is_device at.id) ds ≡ false)

-- The register after take_phone.
abbrev Taken : Registration → Role → Text → Stamp → Register → Option Text × Register → Type 0
Taken r role user_id at s out =
    (out.1 ≡ record s { devices = out.1.devices })
    × PhonesAfter r user_id at (asked_phone r role) out.0 s.devices out.1.devices

take_phone_lem :
    (r : Registration) (role : Role) (user_id : Text) (at : Stamp) (s : Register)
    → Post (Taken r role user_id at s) (take_phone r role user_id at s)
take_phone_lem r role user_id at s =
    option-Post (asked_phone r role) _ _ (λ e. ok-Post _ _ (refl, rw e (refl, refl)))
      (λ key e. guard-Post (any (has_key key) s.devices) _ _ (λ free.
        bind-Post (insert_device (registered_phone r user_id at key) s) _ (λ t wrote.
          let (new, same) = unless-ok _ _ _ _ wrote in
          let ds = ap (λ (u : Register). u.devices) same in
          ok-Post _ _ (
            sym same ∙ ap (λ (l : List Device). record s { devices = l }) ds,
            rw e (refl, sym ds, free, or_left _ _ new),
          ))))

-- What the transaction of an approval leaves.
pub record ApprovedAs (p : Principal) (role : Role) (draw : ApproveDraw) (r : Registration)
    (s : Register) (id : Option Text) (s' : Register) : Type 0 where
  pub here :
      (not (is_unscoped p) && not (option_eq (some r.jurisdiction_id) p.jurisdiction_id)) ≡ false
  pub was_pending : r.status ≡ pending
  pub fresh : any (is_user draw.user_id) s.users ≡ false
  pub users :
      s'.users
      ≡ s.users
        ++ new_user draw.user_id r.jurisdiction_id r.full_name (some r.email) (some r.phone) none
          ∷ []
  pub roles :
      s'.roles
      ≡ s.roles
        ++ record { user_id = draw.user_id; role = role; jurisdiction_id = r.jurisdiction_id } ∷ []
  pub phones : PhonesAfter r draw.user_id draw.device (asked_phone r role) id s.devices s'.devices
  pub invitations : s'.invitations ≡ s.invitations
  pub registrations :
      s'.registrations
      ≡ update_where
          (is_registration r.id)
          (write_approved p.user_id draw.device.now role draw.user_id id)
          s.registrations

assert_pending-ok : (st : RegistrationStatus) → assert_pending st ≡ ok tt → st ≡ pending
assert_pending-ok verifying h = absurd (cc h)
assert_pending-ok pending h = refl
assert_pending-ok approved h = absurd (cc h)
assert_pending-ok rejected h = absurd (cc h)
assert_pending-ok withdrawn h = absurd (cc h)

pub approve_row_lem :
    (cfg : Config) (p : Principal) (role : Role) (draw : ApproveDraw) (r : Registration)
    (s : Register)
    → Post (λ out. ApprovedAs p role draw r s out.0 out.1) (approve_row cfg p role draw r s)
unfolding approve_row
approve_row_lem cfg p role draw r s =
    guard-Post (not (is_unscoped p) && not (option_eq (some r.jurisdiction_id) p.jurisdiction_id)) _
      _
      (λ here. then-Post (assert_pending r.status) _ (λ waits.
        guard-Post (any (has_email cfg (cfg.sql_lower r.email)) s.users) _ _ (λ free.
          bind-Post (insert_user person s) _ (λ t a. bind-Post (insert_new_role row t) _ (λ u b.
            bind-Post (take_phone r role draw.user_id draw.device u) _ (λ phone c.
              bind-Post (keep_lawful cfg (rows phone) phone.1) _ (λ v d. ok-Post _ _ (
                put t u v phone here (no_clash person s.users (or_left _ _ (unless-ok _ _ _ _ a).0))
                  waits (unless-ok _ _ _ _ a).1 (unless-ok _ _ _ _ b).1
                  ((take_phone_lem r role draw.user_id draw.device u).at_ok phone c)
                  (keep_lawful-rows cfg (rows phone) phone.1 v d)))))))))
  where
    person : User
    person = new_user draw.user_id r.jurisdiction_id r.full_name (some r.email) (some r.phone) none

    row : UserRole
    row = record { user_id = draw.user_id; role = role; jurisdiction_id = r.jurisdiction_id }

    rows : Option Text × Register → List Registration
    rows phone =
        update_where (is_registration r.id)
          (write_approved p.user_id draw.device.now role draw.user_id phone.0) phone.1.registrations

    put :
        (t u v : Register) (phone : Option Text × Register)
        → (not (is_unscoped p) && not (option_eq (some r.jurisdiction_id) p.jurisdiction_id))
          ≡ false
        → any (is_user draw.user_id) s.users ≡ false
        → assert_pending r.status ≡ ok tt
        → record s { users = s.users ++ person ∷ [] } ≡ t
        → record t { roles = t.roles ++ row ∷ [] } ≡ u
        → Taken r role draw.user_id draw.device u phone
        → record phone.1 { registrations = rows phone } ≡ v
        → ApprovedAs p role draw r s phone.0 v
    put t u v phone here free waits a b (c, ds) d = record {
      here = here;
      fresh = free;
      was_pending = assert_pending-ok _ waits;
      users =
          sym (ap (λ (x : Register). x.users) d)
          ∙ ap (λ (x : Register). x.users) c
          ∙ sym (ap (λ (x : Register). x.users) b)
          ∙ sym (ap (λ (x : Register). x.users) a);
      roles =
          sym (ap (λ (x : Register). x.roles) d)
          ∙ ap (λ (x : Register). x.roles) c
          ∙ sym (ap (λ (x : Register). x.roles) b)
          ∙ sym (ap (λ (x : Register). x.roles ++ row ∷ []) a);
      phones =
          subst2
            (sym (ap (λ (x : Register). x.devices) b) ∙ sym (ap (λ (x : Register). x.devices) a))
            (ap (λ (x : Register). x.devices) d) ds;
      invitations =
          sym (ap (λ (x : Register). x.invitations) d)
          ∙ ap (λ (x : Register). x.invitations) c
          ∙ sym (ap (λ (x : Register). x.invitations) b)
          ∙ sym (ap (λ (x : Register). x.invitations) a);
      registrations =
          sym (ap (λ (x : Register). x.registrations) d)
          ∙ ap approved_rows (
              ap (λ (x : Register). x.registrations) c
              ∙ sym (ap (λ (x : Register). x.registrations) b)
              ∙ sym (ap (λ (x : Register). x.registrations) a));
    }
      where
        approved_rows : List Registration → List Registration
        approved_rows =
            update_where (is_registration r.id)
              (write_approved p.user_id draw.device.now role draw.user_id phone.0)

        subst2 :
            {xs xs' ys ys' : List Device}
            → xs ≡ xs'
            → ys ≡ ys'
            → PhonesAfter r draw.user_id draw.device (asked_phone r role) phone.0 xs ys
            → PhonesAfter r draw.user_id draw.device (asked_phone r role) phone.0 xs' ys'
        subst2 e f h = rw (sym e, sym f) h
