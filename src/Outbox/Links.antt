-- ===== src/Outbox/Links.antt =====
-- The rows of the outbox as one signed chain, and the clock that authoring resumes from them.
use agroassure.Prelude.{
  ℕ, suc, ◌+◌, ◌≤◌, ◌<◌, ◌^◌, false, Option, none, some, List, [], ◌∷◌, ◌++◌, ◌≡◌, refl, sym, ap,
  arith, any, Text, text_eq, pad_start, decimal,
}
use agroassure.Hlc.{HlcState, phys_width, hlc_init, encode}
use agroassure.Hlc.Clock.{IsBefore}
use agroassure.Hlc.Codec.{decode-encode}
use agroassure.Hashing.{Platform}
use agroassure.Events.{compute_event_hash}
use agroassure.FieldStore.{OutboxRow, FieldStore, max_seq, last_row, last_hlc, clashes}
use agroassure.Outbox.{Signer, resume_clock, to_device_event}

-- A row that continues the chain of `rows`, whose clock was `c` after n events and whose head is
-- `head`; `c'` is the clock of the row.
pub record Continues (p : Platform) (signer : Signer) (rows : List OutboxRow) (n : ℕ) (c : HlcState)
    (head : Option Text) (c' : HlcState) (r : OutboxRow) : Type 0 where
  pub stamped : r.hlc ≡ encode c'
  pub later : IsBefore c c'
  pub in_time : c'.physical < 10 ^ 15
  pub counted : c'.counter ≤ suc n
  pub node : c'.node_id ≡ signer.device_id
  pub linked : r.prev_hash ≡ head
  pub hashed : compute_event_hash p (to_device_event r).signable ≡ some r.event_hash
  pub signed : r.device_sig ≡ signer.sign r.event_hash
  pub next_in_aggregate : r.seq ≡ max_seq r.aggregate_type r.aggregate_id rows + 1
  pub fresh : any (clashes r) rows ≡ false

-- The rows, their number, the clock of the last one and the head of their chain.
pub data Chained (p : Platform) (signer : Signer)
    : List OutboxRow → ℕ → HlcState → Option Text → Type 0 where
  start : Chained p signer [] 0 (hlc_init signer.device_id) none
  more :
      {rows : List OutboxRow} {n : ℕ} {c : HlcState} {head : Option Text} {c' : HlcState}
      {r : OutboxRow}
      → Chained p signer rows n c head
      → Continues p signer rows n c head c' r
      → Chained p signer (rows ++ r ∷ []) (suc n) c' (some r.event_hash)

last_row-append : (rows : List OutboxRow) (r : OutboxRow) → last_row (rows ++ r ∷ []) ≡ some r
last_row-append [] r = refl
last_row-append (q ∷ []) r = refl
last_row-append (q ∷ t ∷ rows) r = last_row-append (t ∷ rows) r

-- What the store reads off the end of the table.
abbrev pub row_hash : Option OutboxRow → Option Text
row_hash o = elim o [ none ↦ none | some r ↦ some r.event_hash ]

module _ (p : Platform) (signer : Signer) where
  pub chain_head-Chained :
      {rows : List OutboxRow} {n : ℕ} {c : HlcState} {head : Option Text}
      → Chained p signer rows n c head
      → row_hash (last_row rows) ≡ head
  chain_head-Chained start = refl
  chain_head-Chained (more {rows} {r = r} ch cont) = ap row_hash (last_row-append rows r)

  pub clock_of :
      {rows : List OutboxRow} {n : ℕ} {c : HlcState} {head : Option Text}
      → Chained p signer rows n c head
      → (c.physical < 10 ^ 15) × (c.counter ≤ n) × (c.node_id ≡ signer.device_id)
  unfolding hlc_init
  clock_of start = (omega arith, omega arith, refl)
  clock_of (more ch cont) = (cont.in_time, cont.counted, cont.node)

  encode-not_empty : (c : HlcState) → text_eq (encode c) [] ≡ false
  unfolding encode text_eq
  encode-not_empty c = not_empty (pad_start phys_width (decimal c.physical)) _
    where
      not_empty : (x y : Text) → text_eq (x ++ 58 ∷ y) [] ≡ false
      not_empty [] y = refl
      not_empty (a ∷ x) y = refl

  -- The clock that authoring resumes is the one of the last row.
  pub resume_clock-Chained :
      {rows : List OutboxRow} {n : ℕ} {c : HlcState} {head : Option Text} (s : FieldStore)
      → Chained p signer rows n c head
      → s.outbox ≡ rows
      → n < 10 ^ 15
      → resume_clock p signer s ≡ some c
  unfolding resume_clock last_hlc
  resume_clock-Chained s start same short = rw (same, resume_clock)
  resume_clock-Chained s (more {rows} {c' = c'} {r = r} ch cont) same short =
      rw
        (
          resume_clock,
          same,
          last_row-append rows r,
          cont.stamped,
          encode-not_empty c',
          decode-encode p.other_number c' cont.in_time (omega arith),
        )
        (ap (λ (node : Text). some (record c' { node_id = node })) (sym cont.node))
