-- ===== src/Access/Registrations/Tables.antt =====
-- Asking to join touches no table but that of the requests.
use agroassure.Prelude.{ℕ, not, ◌+◌, ◌&&◌, List, ◌≡◌, refl, sym, ap, ◌∙◌, ltb, leb, find, Text}
use agroassure.Access.{Registration, Register, update_where, ok}
use agroassure.Access.Rules.{Post, bind-Post, read-Post, guard-Post, if-Post, ok-Post, refused-Post}
use agroassure.Access.Codes.{Config}
use agroassure.Access.Registrations.{
  keep_lawful, is_registration, all_lawful, one_open_each, max_code_attempts, code_ttl, max_sends,
}
use agroassure.Access.Registrations.Started.{start_lem}
use agroassure.Access.Registrations.Asking.{StartInput, StartDraw, start_registration}
use agroassure.Access.Registrations.Verifying.{
  Typed, Verified, check_codes, write_checked, verify_loaded, is_too_soon, write_sent,
  resend_loaded, is_status_verifying,
}

-- Everything but the requests is as it was.
abbrev pub OnlyRequests : Register → Register → Type 0
OnlyRequests s s' = s' ≡ record s { registrations = s'.registrations }

after : (s t u : Register) → OnlyRequests s t → OnlyRequests t u → OnlyRequests s u
after s t u h k = k ∙ ap (λ (x : Register). record x { registrations = u.registrations }) h

kept :
    (s t : Register) (rows : List Registration)
    → record s { registrations = rows } ≡ t
    → OnlyRequests s t
kept s t rows h =
    sym h
    ∙ ap (λ (rs : List Registration). record s { registrations = rs })
        (ap (λ (x : Register). x.registrations) h)

module _ (cfg : Config) where
  pub keep_lawful_lem :
      (rows : List Registration) (s : Register) → Post (OnlyRequests s) (keep_lawful cfg rows s)
  unfolding keep_lawful
  keep_lawful_lem rows s =
      if-Post (all_lawful rows && one_open_each cfg rows) _ _ (λ lawful. ok-Post _ _ refl)
        (λ broken. refused-Post _ _)

  verify_loaded_lem :
      (r : Registration) (typed : Typed) (now : ℕ) (s : Register)
      → Post (λ out. OnlyRequests s out.1) (verify_loaded cfg r typed now s)
  unfolding verify_loaded
  verify_loaded_lem r typed now s =
      if-Post (not (is_status_verifying r.status)) _ _ (λ h. ok-Post _ _ refl)
        (λ h. guard-Post (leb max_code_attempts r.code_attempts) _ _ (λ a.
          read-Post r.codes_sent_at _ _ (λ sent b. guard-Post (ltb (sent + code_ttl) now) _ _ (λ c.
            bind-Post (keep_lawful cfg rows s) _ (λ t written.
              read-Post (find (is_registration r.id) t.registrations) _ _
                (λ updated d. ok-Post _ _ ((keep_lawful_lem rows s).at_ok t written)))))))
    where
      rows : List Registration
      rows =
          update_where (is_registration r.id) (write_checked (check_codes cfg r typed) now)
            s.registrations

  resend_loaded_lem :
      (r : Registration) (email_draw sms_draw now : ℕ) (s : Register)
      → Post (λ out. OnlyRequests s out.1) (resend_loaded cfg r email_draw sms_draw now s)
  unfolding resend_loaded
  resend_loaded_lem r email_draw sms_draw now s =
      if-Post (not (is_status_verifying r.status)) _ _ (λ h. ok-Post _ _ refl)
        (λ h. guard-Post (leb max_sends r.codes_sent_count) _ _ (λ a.
          guard-Post (is_too_soon r.codes_sent_at now) _ _ (λ b.
            bind-Post (keep_lawful cfg rows s) _
              (λ t written. ok-Post _ _ ((keep_lawful_lem rows s).at_ok t written)))))
    where
      rows : List Registration
      rows =
          update_where (is_registration r.id) (write_sent cfg r email_draw sms_draw now)
            s.registrations

-- What people who ask to join do, in any order and as often as they like. A call to verify or resend
-- acts on the row that it loaded, which may be any row, for the register may have changed since.
pub data Asked (cfg : Config) (s : Register) : Register → Type 0 where
  nothing : Asked cfg s s
  started :
      {t u : Register} {out : Text × Text}
      → Asked cfg s t
      → (input : StartInput) (draw : StartDraw) → start_registration cfg input draw t ≡ ok (out, u)
      → Asked cfg s u
  verified :
      {t u : Register} {out : Verified}
      → Asked cfg s t
      → (r : Registration) (typed : Typed) (now : ℕ) → verify_loaded cfg r typed now t ≡ ok (out, u)
      → Asked cfg s u
  resent :
      {t u : Register} {out : Registration}
      → Asked cfg s t
      → (r : Registration) (email_draw sms_draw now : ℕ)
      → resend_loaded cfg r email_draw sms_draw now t ≡ ok (out, u)
      → Asked cfg s u

-- However people ask, verify and resend, nobody is granted anything by it: the users, their roles,
-- the phones and the invitations stay as they were.
pub asked-GrantsNothing : (cfg : Config) (s s' : Register) → Asked cfg s s' → OnlyRequests s s'
asked-GrantsNothing cfg s s' nothing = refl
asked-GrantsNothing cfg s s' (started {t} {u} {out} before input draw h) =
    after s t s' (asked-GrantsNothing cfg s t before)
      (kept t s' _ (sym ((start_lem cfg input draw t).at_ok (out, s') h).written))
asked-GrantsNothing cfg s s' (verified {t} {u} {out} before r typed now h) =
    after s t s' (asked-GrantsNothing cfg s t before)
      ((verify_loaded_lem cfg r typed now t).at_ok (out, s') h)
asked-GrantsNothing cfg s s' (resent {t} {u} {out} before r e m now h) =
    after s t s' (asked-GrantsNothing cfg s t before)
      ((resend_loaded_lem cfg r e m now t).at_ok (out, s') h)
