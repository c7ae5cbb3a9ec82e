-- ===== src/Access/Invitations/OneLive.antt =====
-- One code works for a person at a time.
use agroassure.Prelude.{
  ℕ, Bool, true, false, ◌&&◌, some, [], ◌∷◌, ◌≡◌, refl, sym, ap, ◌∙◌, arith, find, filter, Text,
  text_eq, text_eq_iff, text_eq_refl,
}
use agroassure.Access.{Principal, User, Invitation, Register, update_where, ok}
use agroassure.Access.Rows.{find-holds, filter-append, filter-none, update-clears}
use agroassure.Access.Codes.{Config}
use agroassure.Access.Invitations.{
  Draw, Issued, is_live_of, cancel_at, new_invitation, reinvite, can_see,
}
use agroassure.Access.Invitations.Issuing.{IssuedAs, Kept, reinvite_lem}

cancelled_live : (id : Text) (now : ℕ) (i : Invitation) → is_live_of id (cancel_at now i) ≡ false
cancelled_live id now i = ground arith

issued_one :
    (cfg : Config) (p : Principal) (who : User) (draw : Draw) (s : Register)
    (out : Issued × Register)
    → (i : IssuedAs cfg p who draw s out)
    → filter (is_live_of who.id) out.1.invitations ≡ new_invitation cfg p who draw i.hash ∷ []
issued_one cfg p who draw s out i =
    let old = update_where (is_live_of who.id) (cancel_at draw.stamp.now) s.invitations in
    ap (λ (t : Register). filter (is_live_of who.id) t.invitations) i.written
    ∙ filter-append (is_live_of who.id) old (new_invitation cfg p who draw i.hash ∷ [])
    ∙ rw
        (
          filter-none (is_live_of who.id) old (
              update-clears (is_live_of who.id) (cancel_at draw.stamp.now) s.invitations
                (cancelled_live who.id draw.stamp.now)),
          text_eq_refl who.id,
        )
        refl

pub seen_id :
    (p : Principal) (id : Text) (s : Register) (who : User)
    → find (can_see p id) s.users ≡ some who
    → who.id ≡ id
seen_id p id s who h =
    (text_eq_iff who.id id).0
      (first (text_eq who.id id) _ (find-holds (can_see p id) s.users who h))
  where
    first : (a b : Bool) → (a && b) ≡ true → a ≡ true
    first a b h = ground arith

-- A new code for a person is the only live one of theirs, and it is kept only as its hash.
pub reinvite-OneLive :
    (cfg : Config) (p : Principal) (user_id : Text) (draw : Draw) (s s' : Register)
    (issued : Issued)
    → reinvite cfg p user_id draw s ≡ ok (issued, s')
    → (who : User) × (hash : Text) × (who.id ≡ user_id)
      × Kept cfg draw hash
      × (filter (is_live_of user_id) s'.invitations ≡ new_invitation cfg p who draw hash ∷ [])
reinvite-OneLive cfg p user_id draw s s' issued h =
    let (who, found, i) = (reinvite_lem cfg p user_id draw s).at_ok (issued, s') h in
    let same = seen_id p user_id s who found in
    (who, i.hash, same, i.kept, rw (sym same) (issued_one cfg p who draw s (issued, s') i))
