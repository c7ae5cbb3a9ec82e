-- ===== src/Access/Scope/History.antt =====
-- The administrators of one state, through any history of their calls.
use agroassure.Prelude.{ℕ, Option, [], ◌∷◌, ◌≡◌, refl, filter, Text}
use agroassure.Access.{Role, Principal, User, Registration, Register, is_user, ok}
use agroassure.Access.Codes.{Config}
use agroassure.Access.People.{CreateUserInput, create_user, grant_role, revoke_role, suspend_user}
use agroassure.Access.Phones.{Stamp, enroll_device, approve_device, revoke_device}
use agroassure.Access.Invitations.{InviteInput, Draw, Issued, invite, reinvite, cancel}
use agroassure.Access.Registrations.{is_registration}
use agroassure.Access.Registrations.Decisions.{ApproveDraw, Approval, approve, reject}
use agroassure.Access.Scope.{Scoped, Abroad, Untouched, is_away, is_for, is_role_of}
use agroassure.Access.Scope.People.{
  create_user-Untouched, grant_role-Untouched, revoke_role-Untouched, suspend_user-Untouched,
}
use agroassure.Access.Scope.Phones.{
  enroll_device-Untouched, approve_device-Untouched, revoke_device-Untouched,
}
use agroassure.Access.Scope.Invited.{invite-Untouched, reinvite-Untouched, cancel-Untouched}
use agroassure.Access.Scope.Decided.{approve-Untouched, reject-Untouched}

-- One call of an administrator: the register before it and after it.
pub data Administered (cfg : Config) (p : Principal) : Register → Register → Type 0 where
  created :
      {s t : Register} {out : Text} (input : CreateUserInput)
      → create_user p input s ≡ ok (out, t)
      → Administered cfg p s t
  granted :
      {s t : Register} (id : Text) (role : Role)
      → grant_role p id role s ≡ ok t
      → Administered cfg p s t
  withdrawn :
      {s t : Register} (id : Text) (role : Role)
      → revoke_role p id role s ≡ ok t
      → Administered cfg p s t
  suspended : {s t : Register} (id : Text) → suspend_user p id s ≡ ok t → Administered cfg p s t
  enrolled :
      {s t : Register} {out : Text} (user : Text) (label : Option Text) (base64 : Text)
      (requested : Option Text) (stamp : Stamp)
      → enroll_device p user label base64 requested stamp s ≡ ok (out, t)
      → Administered cfg p s t
  let_in :
      {s t : Register} (id : Text) (now : ℕ)
      → approve_device p id now s ≡ ok t
      → Administered cfg p s t
  signed_out :
      {s t : Register} (id : Text) (now : ℕ)
      → revoke_device p id now s ≡ ok t
      → Administered cfg p s t
  invited :
      {s t : Register} {out : Issued} (input : InviteInput) (draw : Draw)
      → invite cfg p input draw s ≡ ok (out, t)
      → Administered cfg p s t
  reinvited :
      {s t : Register} {out : Issued} (id : Text) (draw : Draw)
      → reinvite cfg p id draw s ≡ ok (out, t)
      → Administered cfg p s t
  cancelled :
      {s t : Register} (id : Text) (now : ℕ) → cancel p id now s ≡ ok t → Administered cfg p s t
  admitted :
      {s t : Register} {out : Approval} (id : Text) (role : Role) (draw : ApproveDraw)
      → approve cfg p id role draw s ≡ ok (out, t)
      → Administered cfg p s t
  turned_down :
      {s t : Register} (id : Text) (reason : Option Text) (now : ℕ)
      → reject cfg p id reason now s ≡ ok t
      → Administered cfg p s t

-- Calls of administrators of the state `j`, one after another.
pub data InState (cfg : Config) (j : Text) (s : Register) : Register → Type 0 where
  begun : InState cfg j s s
  then :
      {t v : Register}
      → InState cfg j s t
      → (p : Principal) → Scoped j p
      → Administered cfg p t v
      → InState cfg j s v

module _ (cfg : Config) (j : Text) (u : User) (r : Registration) (before : Register)
    (out : Abroad j u r before) where
  one_call :
      (p : Principal) (s t : Register)
      → Scoped j p
      → Administered cfg p s t
      → Untouched j u r before s
      → Untouched j u r before t
  one_call p s t at (created {out = id} input h) kept =
      (create_user-Untouched j p at u r before out input s kept).at_ok (id, t) h
  one_call p s t at (granted id role h) kept =
      (grant_role-Untouched j p at u r before out s kept id role).at_ok t h
  one_call p s t at (withdrawn id role h) kept =
      (revoke_role-Untouched j p at u r before out s kept id role).at_ok t h
  one_call p s t at (suspended id h) kept =
      (suspend_user-Untouched j p at u r before out s kept id).at_ok t h
  one_call p s t at (enrolled {out = id} user label base64 requested stamp h) kept =
      (enroll_device-Untouched j p at u r before out s kept user label base64 requested stamp).at_ok
        (id, t) h
  one_call p s t at (let_in id now h) kept =
      (approve_device-Untouched j p at u r before out s kept id now).at_ok t h
  one_call p s t at (signed_out id now h) kept =
      (revoke_device-Untouched j p at u r before out s kept id now).at_ok t h
  one_call p s t at (invited {out = i} input draw h) kept =
      (invite-Untouched j p at u r before out cfg input draw s kept).at_ok (i, t) h
  one_call p s t at (reinvited {out = i} id draw h) kept =
      (reinvite-Untouched j p at u r before out cfg id draw s kept).at_ok (i, t) h
  one_call p s t at (cancelled id now h) kept =
      (cancel-Untouched j p at u r before out id now s kept).at_ok t h
  one_call p s t at (admitted {out = a} id role draw h) kept =
      (approve-Untouched j p at u r before out cfg id role draw s kept).at_ok (a, t) h
  one_call p s t at (turned_down id reason now h) kept =
      (reject-Untouched j p at u r before out cfg id reason now s kept).at_ok t h

  all_calls :
      (s t : Register) → InState cfg j s t → Untouched j u r before s → Untouched j u r before t
  all_calls s t begun kept = kept
  all_calls s _ (then {t} {v} g p at call) kept = one_call p t v at call (all_calls s t g kept)

-- Whatever the administrators of a state call while their roles bind them to it, and however often: a
-- person of another state, with no invitation of the administrators' state, keeps their record, their
-- roles and their invitations, a request to join another state stays as it is, and so does every
-- phone of another state.
pub InState-StaysInState :
    (cfg : Config) (j : Text) (u : User) (r : Registration) (s s' : Register)
    → Abroad j u r s
    → filter (is_user u.id) s.users ≡ u ∷ []
    → filter (is_registration r.id) s.registrations ≡ r ∷ []
    → InState cfg j s s'
    → (filter (is_user u.id) s'.users ≡ u ∷ [])
      × (filter (is_role_of u.id) s'.roles ≡ filter (is_role_of u.id) s.roles)
      × (filter (is_for u.id) s'.invitations ≡ filter (is_for u.id) s.invitations)
      × (filter (is_registration r.id) s'.registrations ≡ r ∷ [])
      × (filter (is_away j) s'.devices ≡ filter (is_away j) s.devices)
InState-StaysInState cfg j u r s s' out person request calls =
    let kept =
      all_calls cfg j u r s out s s' calls (record {
        person = person;
        roles = refl;
        codes = refl;
        phones = refl;
        request = request;
      }) in
    (kept.person, kept.roles, kept.codes, kept.request, kept.phones)
