-- ===== src/Access/Invitations/Presenting.antt =====
-- A phone that presents a code that is on file.
use agroassure.Prelude.{
  ℕ, Option, none, some, List, ◌≡◌, refl, ◌∙◌, find, Text, Option-cases, inl, inr,
}
use agroassure.Access.{
  User, Invitation, Register, is_user, ok, refused, invalid_code, already_used, or_refuse, ◌>>=◌,
}
use agroassure.Access.Codes.{Config, normalize_invite_code, hash_invite_code, setting}
use agroassure.Access.Phones.{Stamp, parse_public_key}
use agroassure.Access.Invitations.{has_code, secret_of}
use agroassure.Access.Invitations.Spending.{activate, activate_with}

-- What a phone presents: a code that is well formed, and a key.
pub record Presented (cfg : Config) (code base64 hash : Text) : Type 0 where
  pub secret : Text
  pub normalized : Text
  pub key : List ℕ
  pub secret_set : setting cfg.secret ≡ some secret
  pub well_formed : normalize_invite_code cfg code ≡ some normalized
  pub is_key : parse_public_key base64 ≡ ok key
  pub hashed : hash_invite_code cfg secret normalized ≡ hash

module _ (cfg : Config) (code base64 hash : Text) (given : Presented cfg code base64 hash)
    (label : Option Text) (at : Stamp) (s : Register) (i : Invitation) where
  pub activate_found :
      find (has_code hash) s.invitations ≡ some i
      → activate cfg code base64 label at s ≡ (
          or_refuse (find (is_user i.user_id) s.users) invalid_code >>= λ u.
          activate_with cfg given.secret given.key label at i u s)
  unfolding activate secret_of
  activate_found h =
      rw (activate, given.secret_set, given.well_formed, given.is_key, given.hashed, h) refl

  pub activate-cancelled :
      (t : ℕ)
      → find (has_code hash) s.invitations ≡ some i
      → i.cancelled_at ≡ some t
      → activate cfg code base64 label at s ≡ refused invalid_code
  unfolding activate_with
  activate-cancelled t h c =
      activate_found h ∙ elim (Option-cases (find (is_user i.user_id) s.users)) [
        | inl e ↦ rw e refl
        | inr (u, e) ↦ rw (e, activate_with, c) refl
      ]

  pub activate-used :
      (by : ℕ × Text) (u : User)
      → find (has_code hash) s.invitations ≡ some i
      → find (is_user i.user_id) s.users ≡ some u
      → i.cancelled_at ≡ none
      → i.used ≡ some by
      → activate cfg code base64 label at s ≡ refused already_used
  unfolding activate_with
  activate-used by u h e c d = activate_found h ∙ rw (e, activate_with, c, d) refl
