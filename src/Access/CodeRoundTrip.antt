-- ===== src/Access/CodeRoundTrip.antt =====
-- A code that is sent is read back as itself.
use agroassure.Prelude.{
  ℕ, zero, suc, ◌<◌, ◌==◌, Bool, true, ◌&&◌, ◌||◌, some, List, [], ◌∷◌, ◌++◌, ◌≡◌, refl, sym, ap,
  ◌∙◌, arith, any, filter, take, drop, take-drop, length, ltb, Text,
}
use agroassure.Access.Rows.{filter-append}
use agroassure.Access.Codes.{
  Config, alphabet, in_alphabet, every, raw_code, format_invite_code, new_invite_code, carries,
  normalize_invite_code,
}

-- What toUpperCase has nothing to do for: the letters and digits of a code, and its dash.
unfoldable pub is_upper : ℕ → Bool
is_upper c = in_alphabet c || c == 45

-- The places that randomInt draws.
abbrev pub all_below : ℕ → List ℕ → Bool
all_below n [] = true
all_below n (m ∷ ms) = ltb m n && all_below n ms

picked :
    (l : Text) (n : ℕ)
    → n < length l
    → (c : ℕ) × (take 1 (drop n l) ≡ c ∷ []) × (any (λ d. d == c) l ≡ true)
picked [] n h = absurd (ground arith)
picked (c ∷ l) zero h = (c, first l, ground arith)
  where
    first : (l : Text) → c ∷ take 0 l ≡ c ∷ []
    first l = refl
picked (c ∷ l) (suc n) h = let (d, e, m) = picked l n (ground arith) in (d, e, ground arith)

member :
    (p : ℕ → Bool) (l : Text) (c : ℕ) → every p l ≡ true → any (λ d. d == c) l ≡ true → p c ≡ true
member p [] c h m = absurd (cc m)
member p (d ∷ l) c h m = ground (arith, member p l c)

in_alphabet-carries : (c : ℕ) → in_alphabet c ≡ true → carries c ≡ true
unfolding in_alphabet carries
in_alphabet-carries c h = member carries alphabet c refl h

in_alphabet-is_upper : (c : ℕ) → in_alphabet c ≡ true → is_upper c ≡ true
unfolding is_upper
in_alphabet-is_upper c h = rw h refl

raw_code-Drawn :
    (places : List ℕ)
    → all_below 31 places ≡ true
    → (every in_alphabet (raw_code places) ≡ true) × (length (raw_code places) ≡ length places)
unfolding raw_code in_alphabet
raw_code-Drawn [] h = (refl, refl)
raw_code-Drawn (n ∷ ns) h =
    let (c, e, m) = picked alphabet n (ground arith) in
    let (a, b) = raw_code-Drawn ns (ground arith) in
    (
      ap (every in_alphabet) (ap (λ x. x ++ raw_code ns) e) ∙ rw (m, a) refl,
      ap length (ap (λ x. x ++ raw_code ns) e) ∙ rw b refl,
    )

module _ (p q : ℕ → Bool) (stronger : (c : ℕ) → p c ≡ true → q c ≡ true) where
  kept : (t : Text) → every p t ≡ true → filter q t ≡ t
  kept [] h = refl
  kept (c ∷ t) h = ground (arith, kept t, stronger c)

  every-weaken : (t : Text) → every p t ≡ true → every q t ≡ true
  every-weaken [] h = refl
  every-weaken (c ∷ t) h = ground (arith, every-weaken t, stronger c)

every-append : (p : ℕ → Bool) (s t : Text) → every p (s ++ t) ≡ (every p s && every p t)
every-append p [] t = refl
every-append p (c ∷ s) t = ground (arith, every-append p s t)

format-Upper :
    (t : Text) → every in_alphabet t ≡ true → every is_upper (format_invite_code t) ≡ true
unfolding format_invite_code is_upper in_alphabet
format-Upper t h =
    every-append is_upper (take 4 t) (45 ∷ drop 4 t)
    ∙ sym (every-append is_upper (take 4 t) (drop 4 t))
    ∙ ap (every is_upper) (take-drop 4 t)
    ∙ every-weaken in_alphabet is_upper in_alphabet-is_upper t h

carried : (t : Text) → every in_alphabet t ≡ true → filter carries (format_invite_code t) ≡ t
unfolding format_invite_code carries
carried t h =
    filter-append carries (take 4 t) (45 ∷ drop 4 t)
    ∙ sym (filter-append carries (take 4 t) (drop 4 t))
    ∙ ap (filter carries) (take-drop 4 t)
    ∙ kept in_alphabet carries in_alphabet-carries t h

-- Eight draws make a code, in the way that it is shown, that reads back as the letters that were drawn;
-- toUpperCase is only supposed to leave capital letters, digits and dashes alone.
pub normalize-new_invite_code :
    (cfg : Config) (places : List ℕ)
    → ((t : Text) → every is_upper t ≡ true → cfg.to_upper t ≡ t)
    → length places ≡ 8
    → all_below 31 places ≡ true
    → normalize_invite_code cfg (new_invite_code places) ≡ some (raw_code places)
unfolding normalize_invite_code new_invite_code
normalize-new_invite_code cfg places keeps eight below =
    let (a, b) = raw_code-Drawn places below in
    rw
      (
        normalize_invite_code,
        keeps (format_invite_code (raw_code places)) (format-Upper (raw_code places) a),
        carried (raw_code places) a,
        b ∙ eight,
        a,
      )
      refl
