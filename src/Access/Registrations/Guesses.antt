-- ===== src/Access/Registrations/Guesses.antt =====
-- How often a code can be guessed.
use agroassure.Prelude.{
  ℕ, ◌+◌, ◌*◌, ◌≤◌, Bool, true, false, List, [], ◌∷◌, ◌++◌, filter, if◌then◌else◌, ◌≡◌, refl, sym,
  ap, ◌∙◌, arith, any, leb, and_both, differ, or_left, Text, text_eq, text_eq_iff, Bool-cases, inl,
  inr,
}
use agroassure.Access.{Registration, Register, update_where, ok}
use agroassure.Access.Registrations.Asking.{same_row}
use agroassure.Access.Rules.{or_refuse-ok}
use agroassure.Access.Rows.{
  find-holds, filter-update, filter-append, found-only, only-holds, none-in,
}
use agroassure.Access.Codes.{Config, Channel, hash_status_token}
use agroassure.Access.Registrations.{is_registration, answers, load, max_code_attempts, max_sends}
use agroassure.Access.Registrations.Verifying.{
  Typed, Verified, wrong_code, described, answer_of, count_wrong, check_codes, write_checked,
  write_sent,
}

-- The tries that the row has had, by what it counts: eight for each time that codes were sent.
abbrev pub Tried : ℕ → Registration → Type 0
Tried n r =
    (r.code_attempts ≤ 8)
    × (1 ≤ r.codes_sent_count)
    × (r.codes_sent_count ≤ 5)
    × (n + 8 ≤ 8 * r.codes_sent_count + r.code_attempts)

-- The number of wrong answers, with one more.
abbrev pub and_wrong : Verified → ℕ → ℕ
and_wrong (described r) n = n
and_wrong (wrong_code cs) n = 1 + n

pub write_checked-Tried :
    (cfg : Config) (n : ℕ) (r updated : Registration) (typed : Typed) (now : ℕ)
    → leb max_code_attempts r.code_attempts ≡ false
    → Tried n r
    → Tried
        (and_wrong (answer_of updated (check_codes cfg r typed).wrong) n)
        (write_checked (check_codes cfg r typed) now r)
unfolding write_checked
write_checked-Tried cfg n r updated typed now h t =
    counted n r.code_attempts r.codes_sent_count (check_codes cfg r typed).wrong h t
  where
    counted :
        (n a c : ℕ) (cs : List Channel)
        → leb max_code_attempts a ≡ false
        → (a ≤ 8) × (1 ≤ c) × (c ≤ 5) × (n + 8 ≤ 8 * c + a)
        → (a + count_wrong cs ≤ 8)
          × (1 ≤ c)
          × (c ≤ 5)
          × (and_wrong (answer_of updated cs) n + 8 ≤ 8 * c + (a + count_wrong cs))
    counted n a c [] h t = ground arith
    counted n a c (x ∷ cs) h t = ground arith

pub write_sent-Tried :
    (cfg : Config) (n : ℕ) (loaded r : Registration) (e m now : ℕ)
    → leb max_sends r.codes_sent_count ≡ false
    → Tried n r
    → Tried n (write_sent cfg loaded e m now r)
unfolding write_sent
write_sent-Tried cfg n loaded r e m now h t = counted n r.code_attempts r.codes_sent_count h t
  where
    counted :
        (n a c : ℕ)
        → leb max_sends c ≡ false
        → (a ≤ 8) × (1 ≤ c) × (c ≤ 5) × (n + 8 ≤ 8 * c + a)
        → (0 ≤ 8) × (1 ≤ c + 1) × (c + 1 ≤ 5) × (n + 8 ≤ 8 * (c + 1) + 0)
    counted n a c h t = ground arith

-- The one row of a request, with the tries that it has had.
pub record One (rid : Text) (n : ℕ) (rows : List Registration) : Type 0 where
  pub row : Registration
  pub only : filter (is_registration rid) rows ≡ row ∷ []
  pub tried : Tried n row

-- An update of some rows, which keeps their ids.
pub One-updated :
    (rid : Text) (n m : ℕ) (p : Registration → Bool) (f : Registration → Registration)
    (rows : List Registration)
    → ((r : Registration) → is_registration rid (f r) ≡ is_registration rid r)
    → (one : One rid n rows) → Tried m (if p one.row then f one.row else one.row)
    → One rid m (update_where p f rows)
One-updated rid n m p f rows keeps one t = record {
  row = if p one.row then f one.row else one.row;
  only = filter-update p (is_registration rid) f rows keeps ∙ ap (update_where p f) one.only;
  tried = t;
}

-- An update that leaves the counts alone.
pub One-kept :
    (rid : Text) (n : ℕ) (p : Registration → Bool) (f : Registration → Registration)
    (rows : List Registration)
    → ((r : Registration) → is_registration rid (f r) ≡ is_registration rid r)
    → ((r : Registration) → Tried n r → Tried n (f r))
    → One rid n rows
    → One rid n (update_where p f rows)
One-kept rid n p f rows keeps counts one =
    One-updated rid n n p f rows keeps one (either (p one.row))
  where
    either : (b : Bool) → Tried n (if b then f one.row else one.row)
    either true = counts one.row one.tried
    either false = one.tried

-- A row that is loaded for the request is its row.
pub loaded :
    (cfg : Config) (rid : Text) (n : ℕ) (token : Text) (s : Register) (r : Registration)
    → load cfg rid token s ≡ ok r
    → (one : One rid n s.registrations) → r ≡ one.row
unfolding load
loaded cfg rid n token s r h one =
    let found = or_refuse-ok _ _ _ h in
    found-only (answers rid (hash_status_token cfg token)) (is_registration rid) s.registrations r
      one.row one.only found
      (and_both _ _
        (find-holds (answers rid (hash_status_token cfg token)) s.registrations r found)).0

-- One more request, with an id of its own.
pub One-more :
    (rid : Text) (n : ℕ) (new : Registration) (rows : List Registration)
    → any (same_row new) rows ≡ false
    → One rid n rows
    → One rid n (rows ++ new ∷ [])
One-more rid n new rows free one = record {
  row = one.row;
  only = filter-append (is_registration rid) rows (new ∷ []) ∙ rw (one.only, other) refl;
  tried = one.tried;
}
  where
    mine : is_registration rid one.row ≡ true
    mine = only-holds (is_registration rid) rows one.row one.only

    apart : same_row new one.row ≡ false
    apart = none-in (same_row new) (is_registration rid) rows one.row free one.only

    other : is_registration rid new ≡ false
    other = elim (Bool-cases (is_registration rid new)) [
      | inr h ↦ h
      | inl h ↦ absurd (
          differ (text_eq one.row.id new.id)
            ((text_eq_iff one.row.id new.id).1
              ((text_eq_iff one.row.id rid).0 mine ∙ sym ((text_eq_iff new.id rid).0 h)))
            (or_left _ _ apart))
    ]
