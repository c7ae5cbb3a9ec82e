-- ===== src/Access/Registrations/Admitted.antt =====
-- An approval from end to end: the transaction, and the code that is sent after it.
use mathlib.Core.Path.{subst}
use agroassure.Prelude.{
  or_true, unsome, ℕ, true, false, ◌&&◌, Option, none, some, List, [], ◌∷◌, ◌≡◌, refl, sym, ap, ◌∙◌,
  any, any-append, find, Text, text_eq, text_eq_refl, if◌then◌else◌,
}
use agroassure.Access.{
  Role, inspector, role_eq, Principal, UserRole, Registration, Register, new_user, is_user,
  has_role, is_none, Result, ok, refused, not_found, already_decided, Invitation,
}
use agroassure.Access.Rules.{Post, bind-Post, read-Post, then-Post, ok-Post, refused-Post, if-Post}
use agroassure.Access.Rows.{find-append, find-update_where}
use agroassure.Access.Directory.{is_phone_of, resolve_phone}
use agroassure.Access.Codes.{Config}
use agroassure.Access.Sessions.{session_stands}
use agroassure.Access.Invitations.{Issued, reinvite}
use agroassure.Access.Invitations.Issuing.{reinvite_lem}
use agroassure.Access.Registrations.{is_registration}
use agroassure.Access.Registrations.Approved.{ApprovedAs, approve_row_lem, PhonesAfter, asked_phone}
use agroassure.Access.Registrations.Decisions.{
  ApproveDraw, Approval, approve, approve_row, assert_approves, write_approved, send_code,
}

abbrev pub OnlyInvitations : Register → Register → Type 0
OnlyInvitations s s' = s' ≡ record s { invitations = s'.invitations }

module _ (cfg : Config) (p : Principal) (role : Role) (draw : ApproveDraw) where
  code_sent :
      (id : Option Text) (s : Register)
      → Post
          (λ out. OnlyInvitations s out.1)
          (if role_eq role inspector && is_none id
            then reinvite cfg p draw.user_id draw.invitation s
            else refused not_found)
  code_sent id s =
      if-Post (role_eq role inspector && is_none id) _ _
        (λ h. record {
          at_ok = λ out e.
              let (who, seen, i) =
                (reinvite_lem cfg p draw.user_id draw.invitation s).at_ok out e in
              i.written
              ∙ ap (λ (l : List Invitation). record s { invitations = l })
                  (sym (ap (λ (x : Register). x.invitations) i.written));
        })
        (λ h. refused-Post _ _)

  send_code_lem :
      (id : Option Text) (s : Register)
      → (OnlyInvitations s (send_code cfg p role draw id s).1)
        × ((send_code cfg p role draw id s).0.user_id ≡ draw.user_id)
        × ((send_code cfg p role draw id s).0.device_id ≡ id)
  send_code_lem id s =
      sent
        (if role_eq role inspector && is_none id
          then reinvite cfg p draw.user_id draw.invitation s
          else refused not_found)
        (code_sent id s)
    where
      result : Result (Issued × Register) → Approval × Register
      result m = elim m [
        | ok a ↦ (record { user_id = draw.user_id; device_id = id; invite_sent = true }, a.1)
        | refused e ↦ (record { user_id = draw.user_id; device_id = id; invite_sent = false }, s)
      ]

      sent :
          (m : Result (Issued × Register))
          → Post (λ out. OnlyInvitations s out.1) m
          → (OnlyInvitations s (result m).1)
            × ((result m).0.user_id ≡ draw.user_id)
            × ((result m).0.device_id ≡ id)
      sent (ok a) q = (q.at_ok a refl, refl, refl)
      sent (refused e) q = (refl, refl, refl)

  -- The request, and the register between the transaction and the code.
  pub record AdmittedAs (id : Text) (s : Register) (out : Approval × Register) : Type 0 where
    pub allowed : assert_approves p role ≡ ok tt
    pub request : Registration
    pub between : Register
    pub on_file : find (is_registration id) s.registrations ≡ some request
    pub approval : ApprovedAs p role draw request s out.0.device_id between
    pub person : out.0.user_id ≡ draw.user_id
    pub rest : OnlyInvitations between out.1

  pub approve_lem :
      (id : Text) (s : Register) → Post (AdmittedAs id s) (approve cfg p id role draw s)
  unfolding approve
  approve_lem id s = then-Post (assert_approves p role) _ (λ may.
      read-Post (find (is_registration id) s.registrations) _ _ (λ r found.
        bind-Post (approve_row cfg p role draw r s) _ (λ done h. ok-Post _ _ (
          let (a, b, c) = send_code_lem done.0 done.1 in
          record {
            allowed = may;
            request = r;
            between = done.1;
            on_file = found;
            approval =
                subst (λ x. ApprovedAs p role draw r s x done.1) (sym c)
                  ((approve_row_lem cfg p role draw r s).at_ok done h);
            person = b;
            rest = a;
          }))))

-- Where an inspector's request came with a phone, its approval opens that phone's session: the person
-- is an inspector of the state that was asked for.
pub approve-OpensSession :
    (cfg : Config) (p : Principal) (draw : ApproveDraw) (id : Text) (s s' : Register) (a : Approval)
    (r : Registration) (key : List ℕ)
    → approve cfg p id inspector draw s ≡ ok (a, s')
    → find (is_registration id) s.registrations ≡ some r
    → r.public_key ≡ some key
    → (a.device_id ≡ some draw.device.id)
      × (resolve_phone a.user_id draw.device.id s'
          ≡ some (record {
            user_id = a.user_id;
            jurisdiction_id = some r.jurisdiction_id;
            roles = inspector ∷ [];
          }))
approve-OpensSession cfg p draw id s s' a r key h found brought =
    let adm = (approve_lem cfg p inspector draw id s).at_ok (a, s') h in
    let same : adm.request ≡ r = unsome (sym adm.on_file ∙ found) in
    let came : asked_phone adm.request inspector ≡ some key =
      ap (λ (x : Registration). x.public_key) same ∙ brought in
    let (taken, ds, free, new) = came_with adm came in
    let user =
      new_user draw.user_id adm.request.jurisdiction_id adm.request.full_name
        (some adm.request.email) (some adm.request.phone) none in
    (
      taken,
      rw adm.person (
            session_stands draw.user_id draw.device.id s' user
              (ap (λ (x : Register). find (is_user draw.user_id) x.users) adm.rest
                ∙ ap (find (is_user draw.user_id)) adm.approval.users
                ∙ find-append (is_user draw.user_id) s.users (user ∷ []) adm.approval.fresh
                ∙ rw (text_eq_refl draw.user_id) refl)
              refl
              (ap (λ (x : Register). any (is_phone_of draw.user_id draw.device.id) x.devices)
                  adm.rest
                ∙ ap (any (is_phone_of draw.user_id draw.device.id)) ds
                ∙ any-append (is_phone_of draw.user_id draw.device.id) s.devices _
                ∙ rw (text_eq_refl draw.user_id, text_eq_refl draw.device.id) (or_true _))
              (ap (λ (x : Register). has_role draw.user_id inspector x) adm.rest
                ∙ ap
                    (any (λ (x : UserRole).
                      text_eq x.user_id draw.user_id && role_eq inspector x.role))
                    adm.approval.roles
                ∙ any-append
                    (λ (x : UserRole). text_eq x.user_id draw.user_id && role_eq inspector x.role)
                    s.roles _
                ∙ rw (text_eq_refl draw.user_id) (or_true _)))
          ∙ ap (λ (x : Registration). some (seen x)) same,
    )
  where
    seen : Registration → Principal
    seen x = record {
      user_id = a.user_id;
      jurisdiction_id = some x.jurisdiction_id;
      roles = inspector ∷ [];
    }

    came_with :
        (adm : AdmittedAs cfg p inspector draw id s (a, s'))
        → asked_phone adm.request inspector ≡ some key
        → PhonesAfter adm.request draw.user_id draw.device
            (some key)
            a.device_id
            s.devices
            adm.between.devices
    came_with adm e =
        subst
          (λ o.
            PhonesAfter adm.request draw.user_id draw.device o a.device_id s.devices
              adm.between.devices)
          e adm.approval.phones

-- A request that has been approved cannot be approved again, in whatever role.
pub approve-Once :
    (cfg : Config) (p : Principal) (role role' : Role) (draw draw' : ApproveDraw) (id : Text)
    (s s' : Register) (a : Approval)
    → approve cfg p id role draw s ≡ ok (a, s')
    → assert_approves p role' ≡ ok tt
    → approve cfg p id role' draw' s' ≡ refused already_decided
unfolding approve approve_row
approve-Once cfg p role role' draw draw' id s s' a h may =
    let adm = (approve_lem cfg p role draw id s).at_ok (a, s') h in
    rw (approve, may, decided adm, approve_row, adm.approval.here) refl
  where
    decided :
        (adm : AdmittedAs cfg p role draw id s (a, s'))
        → find (is_registration id) s'.registrations
          ≡ some
              (write_approved p.user_id draw.device.now role draw.user_id a.device_id adm.request)
    decided adm =
        ap (λ (x : Register). find (is_registration id) x.registrations) adm.rest
        ∙ ap (find (is_registration id)) adm.approval.registrations
        ∙ find-update_where (is_registration adm.request.id) (is_registration id)
            (write_approved p.user_id draw.device.now role draw.user_id a.device_id) s.registrations
            adm.request (λ b. refl) adm.on_file
        ∙ rw (text_eq_refl adm.request.id) refl
