-- ===== src/Access/Sessions.antt =====
-- When a phone's session stands.
use agroassure.Prelude.{
  true, false, ◌&&◌, Option, none, some, List, [], ◌∷◌, ◌≡◌, refl, ap, ◌∙◌, arith, any, find, Text,
}
use agroassure.Access.{inspector, Principal, User, Register, update_where, is_user, has_role, ok}
use agroassure.Access.Rules.{Post, bind-Post, ok-Post}
use agroassure.Access.Rows.{find-and, find-none, any-weaken}
use agroassure.Access.Directory.{is_phone_of, resolve_phone, console_principal}
use agroassure.Access.Codes.{Config}
use agroassure.Access.Phones.{Stamp}
use agroassure.Access.People.{user_jurisdiction, suspend_user}
use agroassure.Access.Invitations.{Activation}
use agroassure.Access.Invitations.Activated.{activate_lem, is_brought}
use agroassure.Access.Invitations.Spending.{activate}

pub session_stands :
    (user_id device_id : Text) (s : Register) (u : User)
    → find (is_user user_id) s.users ≡ some u
    → u.is_active ≡ true
    → any (is_phone_of user_id device_id) s.devices ≡ true
    → has_role user_id inspector s ≡ true
    → resolve_phone user_id device_id s
      ≡ some
          (record { user_id = u.id; jurisdiction_id = u.jurisdiction_id; roles = inspector ∷ [] })
unfolding resolve_phone
session_stands user_id device_id s u h a d r =
    rw (resolve_phone, find-and (is_user user_id) (λ (v : User). v.is_active) s.users u h a, d, r)
      refl

-- The phone that has spent a code of an inspector holds a session at once: it stands for that
-- person, as an inspector of the person's state.
pub activate-OpensSession :
    (cfg : Config) (code base64 : Text) (label : Option Text) (at : Stamp) (s s' : Register)
    (out : Activation)
    → activate cfg code base64 label at s ≡ ok (out, s')
    → has_role out.user_id inspector s ≡ true
    → (u : User) × (find (is_user out.user_id) s.users ≡ some u)
      × (resolve_phone out.user_id out.device_id s'
          ≡ some (record {
            user_id = u.id;
            jurisdiction_id = u.jurisdiction_id;
            roles = inspector ∷ [];
          }))
activate-OpensSession cfg code base64 label at s s' out h r =
    let a = (activate_lem cfg code base64 label at s).at_ok (out, s') h in
    let known : find (is_user out.user_id) s.users ≡ some a.user = rw a.theirs a.known in
    (
      a.user,
      known,
      session_stands out.user_id out.device_id s' a.user
          (ap (λ (t : Register). find (is_user out.user_id) t.users) a.rest ∙ known) a.standing
          (any-weaken (is_brought out.user_id a.given.key out.device_id)
            (is_phone_of out.user_id out.device_id) s'.devices (λ d q. ground arith)
            (rw a.theirs a.there))
          (ap (λ (t : Register). has_role out.user_id inspector t) a.rest ∙ r),
    )

suspended :
    (p : Principal) (user_id : Text) (s : Register)
    → Post
        (λ s'. find (λ (u : User). is_user user_id u && u.is_active) s'.users ≡ none)
        (suspend_user p user_id s)
unfolding suspend_user
suspended p user_id s = bind-Post (user_jurisdiction p user_id s) _ (λ j found. ok-Post _ _ (
    find-none (λ (u : User). is_user user_id u && u.is_active)
      (update_where (is_user user_id) (λ (u : User). record u { is_active = false }) s.users)
      (none_left s.users)))
  where
    none_left :
        (l : List User)
        → any
            (λ (u : User). is_user user_id u && u.is_active)
            (update_where (is_user user_id) (λ (u : User). record u { is_active = false }) l)
          ≡ false
    none_left [] = refl
    none_left (u ∷ l) = ground (arith, none_left l)

-- A person whose account is suspended has no session from then on, on any phone or at the console.
suspend_user-EndsSessions :
    (p : Principal) (user_id : Text) (s s' : Register)
    → suspend_user p user_id s ≡ ok s'
    → ((device_id : Text) → resolve_phone user_id device_id s' ≡ none)
      × (console_principal user_id s' ≡ none)
unfolding resolve_phone console_principal
suspend_user-EndsSessions p user_id s s' h =
    let gone : find (λ (u : User). is_user user_id u && u.is_active) s'.users ≡ none =
      (suspended p user_id s).at_ok s' h in
    ((λ d. ended d gone), rw (console_principal, gone) refl)
  where
    ended :
        (device_id : Text)
        → find (λ (u : User). is_user user_id u && u.is_active) s'.users ≡ none
        → resolve_phone user_id device_id s' ≡ none
    ended d g = rw (resolve_phone, g) refl
