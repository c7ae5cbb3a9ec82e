-- ===== src/Access/Registrations/Proven.antt =====
-- A request waits for a decision only once and_both codes were right.
use mathlib.Core.Path.{subst}
use agroassure.Prelude.{
  and_both, ℕ, ◌+◌, Bool, true, false, not, ◌&&◌, Option, none, some, List, [], ◌∷◌, ◌≡◌, refl, sym,
  ap, ◌∙◌, arith, find, filter, ltb, leb, Text, text_eq_iff, if◌then◌else◌, ◌⊎◌, inl, inr, unsome,
}
use agroassure.Access.{
  Registration, RegistrationStatus, verifying, pending, Register, update_where, is_none, option_eq,
  ok,
}
use agroassure.Access.Rules.{Post, bind-Post, read-Post, guard-Post, if-Post, ok-Post, or_refuse-ok}
use agroassure.Access.Rows.{find-holds, find-update, find-only, found-only, only-holds}
use agroassure.Access.Codes.{Config, Channel, email, sms, setting, hash_code, hash_status_token}
use agroassure.Access.Registrations.{
  is_registration, answers, load, keep_lawful, max_code_attempts, code_ttl,
}
use agroassure.Access.Registrations.Started.{keep_lawful-rows}
use agroassure.Access.Registrations.Verifying.{
  Typed, checks, check_codes, write_checked, Verified, described, answer_of, verify_loaded, verify,
  is_status_verifying,
}

-- The channel was verified before, or the code that was typed is the one that was sent.
abbrev pub Proven : Config → Text → Channel → Option ℕ → Option Text → Option Text → Type 0
Proven cfg id channel earlier hash typed =
    (is_none earlier ≡ false)
    ⊎ ((code : Text) × (typed ≡ some code) × (hash ≡ some (hash_code cfg id channel code)))

option_eq-eq : (t : Text) (o : Option Text) → option_eq (some t) o ≡ true → o ≡ some t
option_eq-eq t none h = absurd (cc h)
option_eq-eq t (some u) h = ap some (sym ((text_eq_iff t u).0 h))

checks-Proven :
    (cfg : Config) (r : Registration) (channel : Channel) (earlier : Option ℕ)
    (hash typed : Option Text)
    → (checks cfg r channel hash (not (is_none earlier)) typed).0 ≡ true
    → Proven cfg r.id channel earlier hash typed
checks-Proven cfg r channel (some t) hash typed h = inl refl
checks-Proven cfg r channel none hash none h = absurd (cc h)
checks-Proven cfg r channel none hash (some code) h = inr (code, refl, option_eq-eq _ hash h)

-- What verify answers, from the row that it loaded.
Answered : Config → Registration → Typed → ℕ → Verified → Type 0
Answered cfg r typed now out =
    out ≡ answer_of (write_checked (check_codes cfg r typed) now r) (check_codes cfg r typed).wrong

verify_loaded_lem :
    (cfg : Config) (r : Registration) (typed : Typed) (now : ℕ) (s : Register)
    → filter (is_registration r.id) s.registrations ≡ r ∷ []
    → r.status ≡ verifying
    → Post (λ out. Answered cfg r typed now out.0) (verify_loaded cfg r typed now s)
unfolding verify_loaded Answered write_checked
verify_loaded_lem cfg r typed now s only waits =
    if-Post (not (is_status_verifying r.status)) _ _
      (λ h. absurd (differ _ (ap is_status_verifying waits) h))
      (λ h. guard-Post (leb max_code_attempts r.code_attempts) _ _ (λ a.
        read-Post r.codes_sent_at _ _ (λ sent b. guard-Post (ltb (sent + code_ttl) now) _ _ (λ c.
          bind-Post (keep_lawful cfg rows s) _ (λ t written.
            read-Post (find (is_registration r.id) t.registrations) _ _ (λ updated d. ok-Post _ _ (
              ap (λ u. answer_of u (check_codes cfg r typed).wrong)
                (unsome (sym d ∙ there t (keep_lawful-rows cfg rows s t written))))))))))
  where
    differ : (b : Bool) → b ≡ true → not b ≡ true → ⊥
    differ b h k = ground arith

    rows : List Registration
    rows =
        update_where (is_registration r.id) (write_checked (check_codes cfg r typed) now)
          s.registrations

    there :
        (t : Register)
        → record s { registrations = rows } ≡ t
        → find (is_registration r.id) t.registrations
          ≡ some (write_checked (check_codes cfg r typed) now r)
    there t e =
        sym (ap (λ (x : Register). find (is_registration r.id) x.registrations) e)
        ∙ find-update (is_registration r.id) (write_checked (check_codes cfg r typed) now)
            s.registrations r (λ b. refl) (find-only (is_registration r.id) s.registrations r only)

-- When verify answers that a request is pending, which was not before, each of its email and phone
-- was verified earlier or by the code that was typed now.
pub verify-Proves :
    (cfg : Config) (id token : Text) (typed : Typed) (now : ℕ) (s s' : Register)
    (r u : Registration)
    → filter (is_registration id) s.registrations ≡ r ∷ []
    → r.status ≡ verifying
    → verify cfg id token typed now s ≡ ok (described u, s')
    → u.status ≡ pending
    → Proven cfg id email r.email_verified_at r.email_code_hash (setting typed.email_code)
      × Proven cfg id sms r.phone_verified_at r.sms_code_hash (setting typed.sms_code)
unfolding verify load Answered check_codes write_checked
verify-Proves cfg id token typed now s s' r u only waits h done =
    let (e, p) = and_both _ _ (u_pending (post.at_ok (described u, s') h)) in
    (
      subst
          (λ x. Proven cfg x email r.email_verified_at r.email_code_hash (setting typed.email_code))
          own
          (checks-Proven cfg r email r.email_verified_at r.email_code_hash
            (setting typed.email_code) e),
      subst (λ x. Proven cfg x sms r.phone_verified_at r.sms_code_hash (setting typed.sms_code)) own
          (checks-Proven cfg r sms r.phone_verified_at r.sms_code_hash (setting typed.sms_code) p),
    )
  where
    own : r.id ≡ id
    own = (text_eq_iff r.id id).0 (only-holds (is_registration id) s.registrations r only)

    post : Post (λ out. Answered cfg r typed now out.0) (verify cfg id token typed now s)
    post = bind-Post (load cfg id token s) _ (λ x found. loaded_lem x (
        found-only (answers id (hash_status_token cfg token)) (is_registration id) s.registrations x
          r only (or_refuse-ok _ _ _ found)
          (and_both _ _ (
            find-holds (answers id (hash_status_token cfg token)) s.registrations x
              (or_refuse-ok _ _ _ found))).0))
      where
        loaded_lem :
            (x : Registration)
            → x ≡ r
            → Post (λ out. Answered cfg r typed now out.0) (verify_loaded cfg x typed now s)
        loaded_lem x e =
            subst
              (λ y. Post (λ out. Answered cfg r typed now out.0) (verify_loaded cfg y typed now s))
              (sym e)
              (verify_loaded_lem cfg r typed now s
                (subst (λ i. filter (is_registration i) s.registrations ≡ r ∷ []) (sym own) only)
                waits)

    told : (x : Registration) (cs : List Channel) → described u ≡ answer_of x cs → u ≡ x
    told x [] e = cc
    told x (c ∷ cs) e = absurd (cc e)

    decided :
        (b : Bool) (st : RegistrationStatus)
        → st ≡ verifying
        → (if b then pending else st) ≡ pending
        → b ≡ true
    decided true st w e = refl
    decided false st w e = absurd (cc (w, e))

    u_pending :
        Answered cfg r typed now (described u)
        → ((check_codes cfg r typed).email_ok && (check_codes cfg r typed).phone_ok) ≡ true
    u_pending a =
        decided ((check_codes cfg r typed).email_ok && (check_codes cfg r typed).phone_ok) r.status
          waits
          (sym (
              ap (λ (x : Registration). x.status)
                (told (write_checked (check_codes cfg r typed) now r)
                  (check_codes cfg r typed).wrong a))
            ∙ done)
