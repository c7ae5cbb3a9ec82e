-- ===== src/Access/Invitations/SpentOnce.antt =====
-- A code is spent once.
use agroassure.Prelude.{
  ℕ, Option, some, List, ◌≡◌, refl, ap, ◌∙◌, find, Text, text_eq, text_eq_refl,
}
use agroassure.Access.{Invitation, Register, is_user, ok, refused, already_used}
use agroassure.Access.Rows.{find-update_where}
use agroassure.Access.Codes.{Config}
use agroassure.Access.Phones.{Stamp, parse_public_key}
use agroassure.Access.Invitations.{Activation, has_code}
use agroassure.Access.Invitations.Presenting.{Presented, activate-used}
use agroassure.Access.Invitations.Activated.{Activated, activate_lem}
use agroassure.Access.Invitations.Spending.{activate}

-- The invitation with the phone that spent it.
spent :
    (cfg : Config) (code base64 : Text) (label : Option Text) (at : Stamp) (s : Register)
    (out : Activation × Register) (a : Activated cfg code base64 label at s out)
    → find (has_code a.hash) out.1.invitations
      ≡ some (record (a.invitation) { used = some (at.now, out.0.device_id) })
spent cfg code base64 label at s out a =
    ap (λ (t : Register). find (has_code a.hash) t.invitations) a.rest
    ∙ find-update_where (λ (i : Invitation). text_eq i.id a.invitation.id) (has_code a.hash)
        (λ (i : Invitation). record i { used = some (at.now, out.0.device_id) }) s.invitations
        a.invitation (λ b. refl) a.on_file
    ∙ rw (text_eq_refl a.invitation.id) refl

-- Once a code has been spent, it is refused as used to every phone that presents it with a key.
pub activate-Once :
    (cfg : Config) (code base64 : Text) (label : Option Text) (at : Stamp) (s s' : Register)
    (out : Activation) (base64' : Text) (key' : List ℕ) (label' : Option Text) (at' : Stamp)
    → activate cfg code base64 label at s ≡ ok (out, s')
    → parse_public_key base64' ≡ ok key'
    → activate cfg code base64' label' at' s' ≡ refused already_used
activate-Once cfg code base64 label at s s' out base64' key' label' at' h parsed =
    let a = (activate_lem cfg code base64 label at s).at_ok (out, s') h in
    activate-used cfg code base64' a.hash (again a) label' at' s' _ (at.now, out.device_id) a.user
      (spent cfg code base64 label at s (out, s') a)
      (ap (λ (t : Register). find (is_user a.invitation.user_id) t.users) a.rest ∙ a.known)
      a.cancelled refl
  where
    again : (a : Activated cfg code base64 label at s (out, s')) → Presented cfg code base64' a.hash
    again a = record {
      secret = a.given.secret;
      normalized = a.given.normalized;
      key = key';
      secret_set = a.given.secret_set;
      well_formed = a.given.well_formed;
      is_key = parsed;
      hashed = a.given.hashed;
    }
