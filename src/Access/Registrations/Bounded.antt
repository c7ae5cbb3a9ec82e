-- ===== src/Access/Registrations/Bounded.antt =====
-- A code cannot be guessed at for long.
use mathlib.Core.Path.{subst}
use agroassure.Prelude.{
  text_eq_refl, text_eq_iff, and_both, ℕ, ◌+◌, ◌*◌, ◌≤◌, true, false, not, Option, List, [], ◌∷◌,
  ◌≡◌, refl, sym, ap, ◌∙◌, arith, any, ltb, leb, find, filter, Text, text_eq, if◌then◌else◌,
}
use agroassure.Access.{Role, Principal, Registration, Register, update_where, ok}
use agroassure.Access.Rules.{Post, bind-Post, read-Post, guard-Post, if-Post, ok-Post, or_refuse-ok}
use agroassure.Access.Rows.{filter-append, filter-none, any-without, find-holds, only-holds}
use agroassure.Access.Codes.{Config, trim, hash_status_token}
use agroassure.Access.Registrations.{
  keep_lawful, is_registration, is_open_for, load, max_code_attempts, code_ttl, max_sends, answers,
}
use agroassure.Access.Registrations.Asking.{
  StartInput, StartDraw, withdraw, new_registration, same_row, start_registration,
}
use agroassure.Access.Registrations.Verifying.{
  Typed, Verified, answer_of, check_codes, write_checked, verify_loaded, verify, is_too_soon,
  write_sent, resend_loaded, resend, is_status_verifying,
}
use agroassure.Access.Registrations.Started.{keep_lawful-rows, start_lem}
use agroassure.Access.Registrations.Admitted.{approve_lem}
use agroassure.Access.Registrations.Decisions.{
  ApproveDraw, Approval, approve, may_reject, write_rejected, reject,
}
use agroassure.Access.Registrations.Guesses.{
  Tried, and_wrong, One, One-kept, One-updated, One-more, loaded, write_checked-Tried,
  write_sent-Tried,
}

-- The row that is loaded has the id that it is asked for by.
loaded_id :
    (cfg : Config) (id token : Text) (s : Register) (r : Registration)
    → load cfg id token s ≡ ok r
    → is_registration id r ≡ true
unfolding load
loaded_id cfg id token s r h =
    (and_both _ _ (
      find-holds (answers id (hash_status_token cfg token)) s.registrations r
        (or_refuse-ok _ _ _ h))).0

apart_row :
    (rid id : Text) (mine r : Registration)
    → text_eq rid id ≡ false
    → is_registration rid mine ≡ true
    → is_registration id r ≡ true
    → is_registration r.id mine ≡ false
apart_row rid id mine r apart h k = ground (
  arith,
  apart,
  text_eq_iff mine.id rid,
  text_eq_iff r.id id,
  text_eq_iff mine.id r.id,
  text_eq_iff rid id,
  h,
  k,
)

module _ (cfg : Config) (rid : Text) where
  abbrev checked_rows : Registration → Typed → ℕ → Register → List Registration
  checked_rows r typed now s =
      update_where (is_registration r.id) (write_checked (check_codes cfg r typed) now)
        s.registrations

  checked-One :
      (n : ℕ) (typed : Typed) (now : ℕ) (s t : Register) (r updated : Registration)
      (one : One rid n s.registrations)
      → r ≡ one.row
      → leb max_code_attempts r.code_attempts ≡ false
      → record s { registrations = checked_rows r typed now s } ≡ t
      → One rid (and_wrong (answer_of updated (check_codes cfg r typed).wrong) n) t.registrations
  unfolding write_checked
  checked-One n typed now s t r updated one same a written =
      let m = and_wrong (answer_of updated (check_codes cfg r typed).wrong) n in
      let f = write_checked (check_codes cfg r typed) now in
      subst (One rid m) (ap (λ (x : Register). x.registrations) written) (
        One-updated rid n m (is_registration r.id) f s.registrations (λ b. refl) one
          (subst (λ x. Tried m (if is_registration r.id x then f x else x)) same
            (rw (text_eq_refl r.id) (
              write_checked-Tried cfg n r updated typed now a
                (subst (Tried n) (sym same) one.tried)))))

  -- Codes typed for the request: the answer says whether any was wrong.
  verify-One :
      (n : ℕ) (token : Text) (typed : Typed) (now : ℕ) (s : Register)
      → One rid n s.registrations
      → Post
          (λ out. One rid (and_wrong out.0 n) out.1.registrations)
          (verify cfg rid token typed now s)
  unfolding verify verify_loaded
  verify-One n token typed now s one = bind-Post (load cfg rid token s) _ (λ r found.
      if-Post (not (is_status_verifying r.status)) _ _ (λ h. ok-Post _ _ one)
        (λ h. guard-Post (leb max_code_attempts r.code_attempts) _ _ (λ a.
          read-Post r.codes_sent_at _ _ (λ sent b. guard-Post (ltb (sent + code_ttl) now) _ _ (λ c.
            bind-Post (keep_lawful cfg (checked_rows r typed now s) s) _ (λ t written.
              read-Post (find (is_registration r.id) t.registrations) _ _ (λ updated d.
                ok-Post _ _ (
                  checked-One n typed now s t r updated one (loaded cfg rid n token s r found one) a
                    (keep_lawful-rows cfg (checked_rows r typed now s) s t written)))))))))

  abbrev sent_rows : Registration → ℕ → ℕ → ℕ → Register → List Registration
  sent_rows r e m now s =
      update_where (is_registration r.id) (write_sent cfg r e m now) s.registrations

  sent-One :
      (n e m now : ℕ) (s t : Register) (r : Registration) (one : One rid n s.registrations)
      → r ≡ one.row
      → leb max_sends r.codes_sent_count ≡ false
      → record s { registrations = sent_rows r e m now s } ≡ t
      → One rid n t.registrations
  unfolding write_sent
  sent-One n e m now s t r one same a written =
      let f = write_sent cfg r e m now in
      subst (One rid n) (ap (λ (x : Register). x.registrations) written) (
        One-updated rid n n (is_registration r.id) f s.registrations (λ b. refl) one
          (subst (λ x. Tried n (if is_registration r.id x then f x else x)) same
            (rw (text_eq_refl r.id)
              (write_sent-Tried cfg n r r e m now a (subst (Tried n) (sym same) one.tried)))))

  resend-One :
      (n : ℕ) (token : Text) (e m now : ℕ) (s : Register)
      → One rid n s.registrations
      → Post (λ out. One rid n out.1.registrations) (resend cfg rid token e m now s)
  unfolding resend resend_loaded
  resend-One n token e m now s one = bind-Post (load cfg rid token s) _ (λ r found.
      if-Post (not (is_status_verifying r.status)) _ _ (λ h. ok-Post _ _ one)
        (λ h. guard-Post (leb max_sends r.codes_sent_count) _ _ (λ a.
          guard-Post (is_too_soon r.codes_sent_at now) _ _ (λ b.
            bind-Post (keep_lawful cfg (sent_rows r e m now s) s) _ (λ t written. ok-Post _ _ (
              sent-One n e m now s t r one (loaded cfg rid n token s r found one) a
                (keep_lawful-rows cfg (sent_rows r e m now s) s t written)))))))

  -- An update of another request's row.
  One-elsewhere :
      (n : ℕ) (id token : Text) (f : Registration → Registration) (s : Register) (r : Registration)
      → text_eq rid id ≡ false
      → load cfg id token s ≡ ok r
      → ((x : Registration) → is_registration rid (f x) ≡ is_registration rid x)
      → One rid n s.registrations
      → One rid n (update_where (is_registration r.id) f s.registrations)
  One-elsewhere n id token f s r apart found keeps one =
      One-updated rid n n (is_registration r.id) f s.registrations keeps one (
        rw
          (apart_row rid id one.row r apart
            (only-holds (is_registration rid) s.registrations one.row one.only)
            (loaded_id cfg id token s r found))
          one.tried)

  verify-elsewhere :
      (n : ℕ) (id token : Text) (typed : Typed) (now : ℕ) (s : Register)
      → text_eq rid id ≡ false
      → One rid n s.registrations
      → Post (λ out. One rid n out.1.registrations) (verify cfg id token typed now s)
  unfolding verify verify_loaded write_checked
  verify-elsewhere n id token typed now s apart one = bind-Post (load cfg id token s) _ (λ r found.
      if-Post (not (is_status_verifying r.status)) _ _ (λ h. ok-Post _ _ one)
        (λ h. guard-Post (leb max_code_attempts r.code_attempts) _ _ (λ a.
          read-Post r.codes_sent_at _ _ (λ sent b. guard-Post (ltb (sent + code_ttl) now) _ _ (λ c.
            bind-Post (keep_lawful cfg (checked_rows r typed now s) s) _ (λ t written.
              read-Post (find (is_registration r.id) t.registrations) _ _ (λ updated d.
                ok-Post _ _ (
                  subst (One rid n)
                    (ap (λ (x : Register). x.registrations)
                      (keep_lawful-rows cfg (checked_rows r typed now s) s t written))
                    (One-elsewhere n id token (write_checked (check_codes cfg r typed) now) s r
                      apart found (λ x. refl) one)))))))))

  resend-elsewhere :
      (n : ℕ) (id token : Text) (e m now : ℕ) (s : Register)
      → text_eq rid id ≡ false
      → One rid n s.registrations
      → Post (λ out. One rid n out.1.registrations) (resend cfg id token e m now s)
  unfolding resend resend_loaded write_sent
  resend-elsewhere n id token e m now s apart one = bind-Post (load cfg id token s) _ (λ r found.
      if-Post (not (is_status_verifying r.status)) _ _ (λ h. ok-Post _ _ one)
        (λ h. guard-Post (leb max_sends r.codes_sent_count) _ _ (λ a.
          guard-Post (is_too_soon r.codes_sent_at now) _ _ (λ b.
            bind-Post (keep_lawful cfg (sent_rows r e m now s) s) _ (λ t written. ok-Post _ _ (
              subst (One rid n)
                (ap (λ (x : Register). x.registrations)
                  (keep_lawful-rows cfg (sent_rows r e m now s) s t written))
                (One-elsewhere n id token (write_sent cfg r e m now) s r apart found (λ x. refl)
                  one)))))))

  -- A request that someone makes withdraws the open ones of its address, and adds a row.
  start_registration-One :
      (n : ℕ) (input : StartInput) (draw : StartDraw) (s : Register)
      → One rid n s.registrations
      → Post (λ out. One rid n out.1.registrations) (start_registration cfg input draw s)
  start_registration-One n input draw s one = record {
    at_ok = λ out h.
        let a = (start_lem cfg input draw s).at_ok out h in
        subst (One rid n) (sym (ap (λ (x : Register). x.registrations) a.written)) (
          One-more rid n
            (new_registration cfg input draw (trim input.full_name) a.address a.phone a.key) _
            a.fresh
            (One-kept rid n (is_open_for cfg a.address) withdraw s.registrations (λ r. refl)
              (λ r t. t) one));
  }

  approve-One :
      (n : ℕ) (p : Principal) (id : Text) (role : Role) (draw : ApproveDraw) (s : Register)
      → One rid n s.registrations
      → Post (λ out. One rid n out.1.registrations) (approve cfg p id role draw s)
  approve-One n p id role draw s one = record {
    at_ok = λ out h.
        let a = (approve_lem cfg p role draw id s).at_ok out h in
        subst (One rid n)
          (sym (ap (λ (x : Register). x.registrations) a.rest ∙ a.approval.registrations))
          (One-kept rid n (is_registration a.request.id) _ s.registrations (λ r. refl) (λ r t. t)
            one);
  }

  reject-One :
      (n : ℕ) (p : Principal) (id : Text) (reason : Option Text) (now : ℕ) (s : Register)
      → One rid n s.registrations
      → Post (λ t. One rid n t.registrations) (reject cfg p id reason now s)
  unfolding reject
  reject-One n p id reason now s one =
      guard-Post (not (any (may_reject p id) s.registrations)) _ _ (λ found. record {
        at_ok = λ t h.
            subst (One rid n)
              (ap (λ (x : Register). x.registrations)
                (keep_lawful-rows cfg
                  (update_where (may_reject p id) (write_rejected p.user_id now reason)
                    s.registrations)
                  s t h))
              (One-kept rid n (may_reject p id) (write_rejected p.user_id now reason)
                s.registrations (λ r. refl) (λ r t. t) one);
      })

-- What happens at the gateway where each call runs to its end before the next one begins, with the
-- number of answers that some code typed for one request is wrong. Codes are also typed and sent for
-- other requests; `elsewhere` is any call that leaves the table of requests alone.
pub data Guessed (cfg : Config) (rid : Text) (s : Register) : ℕ → Register → Type 0 where
  begun : Guessed cfg rid s 0 s
  typed :
      {n : ℕ} {t u : Register} {out : Verified}
      → Guessed cfg rid s n t
      → (token : Text) (codes : Typed) (now : ℕ) → verify cfg rid token codes now t ≡ ok (out, u)
      → Guessed cfg rid s (and_wrong out n) u
  typed_elsewhere :
      {n : ℕ} {t u : Register} {out : Verified}
      → Guessed cfg rid s n t
      → (id token : Text) (codes : Typed) (now : ℕ) → text_eq rid id ≡ false
      → verify cfg id token codes now t ≡ ok (out, u)
      → Guessed cfg rid s n u
  sent_again :
      {n : ℕ} {t u : Register} {out : Registration}
      → Guessed cfg rid s n t
      → (token : Text) (e m now : ℕ) → resend cfg rid token e m now t ≡ ok (out, u)
      → Guessed cfg rid s n u
  sent_elsewhere :
      {n : ℕ} {t u : Register} {out : Registration}
      → Guessed cfg rid s n t
      → (id token : Text) (e m now : ℕ) → text_eq rid id ≡ false
      → resend cfg id token e m now t ≡ ok (out, u)
      → Guessed cfg rid s n u
  started :
      {n : ℕ} {t u : Register} {out : Text × Text}
      → Guessed cfg rid s n t
      → (input : StartInput) (draw : StartDraw) → start_registration cfg input draw t ≡ ok (out, u)
      → Guessed cfg rid s n u
  approved :
      {n : ℕ} {t u : Register} {out : Approval}
      → Guessed cfg rid s n t
      → (p : Principal) (id : Text) (role : Role) (draw : ApproveDraw)
      → approve cfg p id role draw t ≡ ok (out, u)
      → Guessed cfg rid s n u
  rejected :
      {n : ℕ} {t u : Register}
      → Guessed cfg rid s n t
      → (p : Principal) (id : Text) (reason : Option Text) (now : ℕ)
      → reject cfg p id reason now t ≡ ok u
      → Guessed cfg rid s n u
  elsewhere :
      {n : ℕ} {t u : Register}
      → Guessed cfg rid s n t
      → t.registrations ≡ u.registrations
      → Guessed cfg rid s n u

guessed-One :
    (cfg : Config) (rid : Text) (s s' : Register) (n : ℕ)
    → One rid 0 s.registrations
    → Guessed cfg rid s n s'
    → One rid n s'.registrations
guessed-One cfg rid s s' n one begun = one
guessed-One cfg rid s s' _ one (typed {n} {t} {u} {out} g token codes now h) =
    (verify-One cfg rid n token codes now t (guessed-One cfg rid s t n one g)).at_ok (out, s') h
guessed-One cfg rid s s' _ one (typed_elsewhere {n} {t} {u} {out} g id token codes now apart h) =
    (verify-elsewhere cfg rid n id token codes now t apart (guessed-One cfg rid s t n one g)).at_ok
      (out, s') h
guessed-One cfg rid s s' _ one (sent_elsewhere {n} {t} {u} {out} g id token e k now apart h) =
    (resend-elsewhere cfg rid n id token e k now t apart (guessed-One cfg rid s t n one g)).at_ok
      (out, s') h
guessed-One cfg rid s s' _ one (sent_again {n} {t} {u} {out} g token e k now h) =
    (resend-One cfg rid n token e k now t (guessed-One cfg rid s t n one g)).at_ok (out, s') h
guessed-One cfg rid s s' _ one (started {n} {t} {u} {out} g input draw h) =
    (start_registration-One cfg rid n input draw t (guessed-One cfg rid s t n one g)).at_ok
      (out, s') h
guessed-One cfg rid s s' _ one (approved {n} {t} {u} {out} g p id role draw h) =
    (approve-One cfg rid n p id role draw t (guessed-One cfg rid s t n one g)).at_ok (out, s') h
guessed-One cfg rid s s' _ one (rejected {n} {t} {u} g p id reason now h) =
    (reject-One cfg rid n p id reason now t (guessed-One cfg rid s t n one g)).at_ok s' h
guessed-One cfg rid s s' _ one (elsewhere {n} {t} {u} g same) =
    subst (One rid n) same (guessed-One cfg rid s t n one g)

started-One :
    (cfg : Config) (input : StartInput) (draw : StartDraw) (s t : Register) (rid token : Text)
    → start_registration cfg input draw s ≡ ok ((rid, token), t)
    → One rid 0 t.registrations
unfolding text_eq new_registration
started-One cfg input draw s t rid token h =
    let a = (start_lem cfg input draw s).at_ok ((rid, token), t) h in
    let new = new_registration cfg input draw (trim input.full_name) a.address a.phone a.key in
    let rows = update_where (is_open_for cfg a.address) withdraw s.registrations in
    subst (λ id. One id 0 t.registrations) (sym (ap (λ (x : Text × Text). x.0) a.named))
      (record {
        row = new;
        only =
            ap (λ (x : Register). filter (is_registration draw.stamp.id) x.registrations) a.written
            ∙ filter-append (is_registration draw.stamp.id) rows (new ∷ [])
            ∙ rw
                (
                  filter-none (is_registration draw.stamp.id) rows (
                      any-without (is_registration draw.stamp.id) (same_row new) rows
                        (λ r e. rw e refl) a.fresh),
                  text_eq_refl draw.stamp.id,
                )
                refl;
        tried = first;
      })
  where
    first : (0 ≤ 8) × (1 ≤ 1) × (1 ≤ 5) × (8 ≤ 8)
    first = ground arith

-- Where each call runs to its end before the next one begins: from the call that made a request on, at
-- most forty answers say that a code typed for it is wrong, whatever codes are typed for it, however
-- often they are sent again, and whatever requests are made, typed for, sent for, approved or
-- rejected in between, and whatever is called that leaves the table of requests alone. Calls that
-- overlap are no such history.
pub guesses-Bounded :
    (cfg : Config) (input : StartInput) (draw : StartDraw) (s t u : Register) (rid token : Text)
    (n : ℕ)
    → start_registration cfg input draw s ≡ ok ((rid, token), t)
    → Guessed cfg rid t n u
    → n ≤ 40
guesses-Bounded cfg input draw s t u rid token n h g =
    let one = guessed-One cfg rid t u n (started-One cfg input draw s t rid token h) g in
    few n one.row.code_attempts one.row.codes_sent_count one.tried
  where
    few : (n a c : ℕ) → (a ≤ 8) × (1 ≤ c) × (c ≤ 5) × (n + 8 ≤ 8 * c + a) → n ≤ 40
    few n a c h = ground arith
