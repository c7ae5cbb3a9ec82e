-- ===== src/Access/Custody/History.antt =====
-- A phone through any history of calls.
use mathlib.Core.Path.{subst}
use agroassure.Prelude.{
  and_both, ℕ, Bool, true, false, ◌&&◌, Option, none, [], ◌∷◌, ◌≡◌, refl, ap, arith, any, find,
  filter, Text, inl, inr, Option-cases,
}
use agroassure.Access.{
  Role, Principal, User, Device, DeviceStatus, waiting, active, revoked, Register, is_user,
  is_device, is_revoked, ok,
}
use agroassure.Access.Rows.{any-only}
use agroassure.Access.Directory.{touch_phone, is_phone_of, resolve_phone}
use agroassure.Access.Codes.{Config}
use agroassure.Access.Phones.{
  Stamp, enroll_device, request_enrolment, approve_device, revoke_device,
}
use agroassure.Access.Invitations.{Activation}
use agroassure.Access.Invitations.Spending.{activate}
use agroassure.Access.Registrations.Decisions.{ApproveDraw, Approval, approve}
use agroassure.Access.Custody.{
  Custody, enroll_device-Custody, request_enrolment-Custody, approve_device-Custody,
  revoke_device-Custody, touch_phone-Custody, activate-Custody, approve-Custody,
}

-- Any calls at the gateway, one after another. `elsewhere` is a call that leaves the phones alone.
pub data Served (cfg : Config) (s : Register) : Register → Type 0 where
  begun : Served cfg s s
  enrolled :
      {t u : Register} {out : Text}
      → Served cfg s t
      → (p : Principal) (user : Text) (label : Option Text) (base64 : Text)
        (requested : Option Text) (at : Stamp)
      → enroll_device p user label base64 requested at t ≡ ok (out, u)
      → Served cfg s u
  requested :
      {t u : Register} {out : Text × DeviceStatus}
      → Served cfg s t
      → (p : Principal) (base64 : Text) (label : Option Text) (at : Stamp)
      → request_enrolment p base64 label at t ≡ ok (out, u)
      → Served cfg s u
  approved :
      {t u : Register}
      → Served cfg s t
      → (p : Principal) (id : Text) (now : ℕ) → approve_device p id now t ≡ ok u
      → Served cfg s u
  signed_out :
      {t u : Register}
      → Served cfg s t
      → (p : Principal) (id : Text) (now : ℕ) → revoke_device p id now t ≡ ok u
      → Served cfg s u
  seen :
      {t : Register}
      → Served cfg s t
      → (now : ℕ) (user id : Text) → Served cfg s (touch_phone now user id t)
  activated :
      {t u : Register} {out : Activation}
      → Served cfg s t
      → (code base64 : Text) (label : Option Text) (at : Stamp)
      → activate cfg code base64 label at t ≡ ok (out, u)
      → Served cfg s u
  admitted :
      {t u : Register} {out : Approval}
      → Served cfg s t
      → (p : Principal) (id : Text) (role : Role) (draw : ApproveDraw)
      → approve cfg p id role draw t ≡ ok (out, u)
      → Served cfg s u
  elsewhere : {t u : Register} → Served cfg s t → t.devices ≡ u.devices → Served cfg s u

served-Custody :
    (cfg : Config) (did : Text) (d : Device) (s s' : Register)
    → Custody did d s.devices
    → Served cfg s s'
    → Custody did d s'.devices
served-Custody cfg did d s s' c begun = c
served-Custody cfg did d s s' c (enrolled {t} {u} {out} g p user label base64 place at h) =
    (enroll_device-Custody did d p user label base64 place at t
        (served-Custody cfg did d s t c g)).at_ok
      (out, s') h
served-Custody cfg did d s s' c (requested {t} {u} {out} g p base64 label at h) =
    (request_enrolment-Custody did d p base64 label at t (served-Custody cfg did d s t c g)).at_ok
      (out, s') h
served-Custody cfg did d s s' c (approved {t} {u} g p id now h) =
    (approve_device-Custody did d p id now t (served-Custody cfg did d s t c g)).at_ok s' h
served-Custody cfg did d s s' c (signed_out {t} {u} g p id now h) =
    (revoke_device-Custody did d p id now t (served-Custody cfg did d s t c g)).at_ok s' h
served-Custody cfg did d s _ c (seen {t} g now user id) =
    touch_phone-Custody did d now user id t (served-Custody cfg did d s t c g)
served-Custody cfg did d s s' c (activated {t} {u} {out} g code base64 label at h) =
    (activate-Custody did d cfg code base64 label at t (served-Custody cfg did d s t c g)).at_ok
      (out, s') h
served-Custody cfg did d s s' c (admitted {t} {u} {out} g p id role draw h) =
    (approve-Custody did d cfg p id role draw t (served-Custody cfg did d s t c g)).at_ok (out, s')
      h
served-Custody cfg did d s s' c (elsewhere {t} {u} g same) =
    subst (Custody did d) same (served-Custody cfg did d s t c g)

no_session :
    (user_id device_id : Text) (s : Register)
    → any (is_phone_of user_id device_id) s.devices ≡ false
    → resolve_phone user_id device_id s ≡ none
unfolding resolve_phone
no_session user_id device_id s h =
    elim (Option-cases (find (λ (u : User). is_user user_id u && u.is_active) s.users)) [
      | inl e ↦ rw (resolve_phone, e) refl
      | inr (u, e) ↦ rw (resolve_phone, e, h) refl
    ]

-- A phone that is revoked has the same key and the same person ever after, stays revoked, and nobody
-- has a session on it again, whatever is called from then on.
pub Served-StaysRevoked :
    (cfg : Config) (d : Device) (s s' : Register)
    → filter (is_device d.id) s.devices ≡ d ∷ []
    → d.status ≡ revoked
    → Served cfg s s'
    → (e : Device) × (filter (is_device d.id) s'.devices ≡ e ∷ [])
      × (e.public_key ≡ d.public_key)
      × (e.assigned_user_id ≡ d.assigned_user_id)
      × (e.status ≡ revoked)
      × ((user_id : Text) → resolve_phone user_id d.id s' ≡ none)
Served-StaysRevoked cfg d s s' only out g =
    let c =
      served-Custody cfg d.id d s s' (record { row = d; only = only; held = (refl, refl, λ k. k) })
        g in
    let gone = revoked_of c.row.status (c.held.2 (ap is_revoked out)) in
    (
      c.row,
      c.only,
      c.held.0,
      c.held.1,
      gone,
      λ user_id. no_session user_id d.id s' (closed c.row user_id c.only gone),
    )
  where
    revoked_of : (st : DeviceStatus) → is_revoked st ≡ true → st ≡ revoked
    revoked_of waiting h = cc
    revoked_of active h = cc
    revoked_of revoked h = refl

    never : (a b : Bool) → (a && (b && false)) ≡ false
    never a b = ground arith

    closed :
        (e : Device) (user_id : Text)
        → filter (is_device d.id) s'.devices ≡ e ∷ []
        → e.status ≡ revoked
        → any (is_phone_of user_id d.id) s'.devices ≡ false
    closed e user_id one gone =
        any-only (is_phone_of user_id d.id) (is_device d.id) s'.devices e
          (λ x h. (and_both (is_device d.id x) _ h).0) one (rw gone (never _ _))
