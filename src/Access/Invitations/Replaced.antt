-- ===== src/Access/Invitations/Replaced.antt =====
-- A code stops working once a new one is sent.
use agroassure.Prelude.{true, Option, some, ◌≡◌, refl, ap, ◌∙◌, find, Text}
use agroassure.Access.{
  Principal, User, Invitation, Register, update_where, ok, refused, invalid_code,
}
use agroassure.Access.Rows.{find-update_where, find-append-some}
use agroassure.Access.Codes.{Config}
use agroassure.Access.Phones.{Stamp}
use agroassure.Access.Invitations.{Draw, Issued, is_live_of, cancel_at, has_code, reinvite}
use agroassure.Access.Invitations.Issuing.{IssuedAs, reinvite_lem}
use agroassure.Access.Invitations.OneLive.{seen_id}
use agroassure.Access.Invitations.Presenting.{Presented, activate-cancelled}
use agroassure.Access.Invitations.Spending.{activate}

-- The old invitation is on file still, cancelled.
replaced :
    (cfg : Config) (p : Principal) (who : User) (draw : Draw) (s : Register)
    (out : Issued × Register) (hash : Text) (i : Invitation)
    → IssuedAs cfg p who draw s out
    → find (has_code hash) s.invitations ≡ some i
    → is_live_of who.id i ≡ true
    → find (has_code hash) out.1.invitations ≡ some (cancel_at draw.stamp.now i)
replaced cfg p who draw s out hash i a h live =
    let old = update_where (is_live_of who.id) (cancel_at draw.stamp.now) s.invitations in
    ap (λ (t : Register). find (has_code hash) t.invitations) a.written
    ∙ find-append-some (has_code hash) old _ _ (
        find-update_where (is_live_of who.id) (has_code hash) (cancel_at draw.stamp.now)
          s.invitations i (λ b. refl) h
        ∙ rw live refl)

-- Once a person is sent a new code, a code that was live for them is refused as a wrong one, on
-- whatever phone and whenever it is presented.
pub reinvite-Retires :
    (cfg : Config) (p : Principal) (user_id : Text) (draw : Draw) (s s' : Register)
    (issued : Issued) (code base64 hash : Text) (i : Invitation) (label : Option Text) (at : Stamp)
    → reinvite cfg p user_id draw s ≡ ok (issued, s')
    → find (has_code hash) s.invitations ≡ some i
    → is_live_of user_id i ≡ true
    → Presented cfg code base64 hash
    → activate cfg code base64 label at s' ≡ refused invalid_code
reinvite-Retires cfg p user_id draw s s' issued code base64 hash i label at h found live given =
    let (who, seen, a) = (reinvite_lem cfg p user_id draw s).at_ok (issued, s') h in
    activate-cancelled cfg code base64 hash given label at s' (cancel_at draw.stamp.now i)
      draw.stamp.now
      (replaced cfg p who draw s (issued, s') hash i a found
        (rw (seen_id p user_id s who seen) live))
      refl
