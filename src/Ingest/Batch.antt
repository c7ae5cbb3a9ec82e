-- ===== src/Ingest/Batch.antt =====
-- A pushed batch as a whole.
use mathlib.Core.List.{Permᴰ}
use mathlib.Core.List.Permᴰ
use mathlib.Core.Path.{subst, ap₂}
use mathlib.Core.List.{append-nil}
use agroassure.Prelude.{
  unsome, ◌≢◌, ℕ, true, Option, none, some, List, [], ◌∷◌, ◌++◌, map, ◌≡◌, refl, sym, ap, ◌∙◌, ◌≢◌,
  arith, All, Text, text_eq_refl, Option-cases, Bool-cases, inl, inr,
}
use agroassure.Hashing.{Platform, push, option_map}
use agroassure.Hlc.{HlcState, decode}
use agroassure.Sort.{sort}
use agroassure.Sort.Laws.{sort-permᴰ}
use agroassure.Events.{DeviceEvent}
use agroassure.Ingest.{
  EnrolledDevice, EventStore, IngestResult, Outcome, advance, finish, ok, err, get_device,
  get_chain_head, lookup, upsert, set_chain_head, stamped, compare_stamp, order_events, ingest,
}
use agroassure.Ingest.Steps.{ingest_unknown, ingest_inactive, ingest_unsorted, ingest_ordered}
use agroassure.Ingest.Evidence.{IsAuthentic, Linked, last_hash, ids, LoopPost, ingest_loop_lem}

pub lookup-upsert : (k v : Text) (l : List (Text × Text)) → lookup k (upsert k v l) ≡ some v
lookup-upsert k v [] = ground (arith, text_eq_refl k)
lookup-upsert k v ((j, w) ∷ l) = ground (arith, text_eq_refl k, lookup-upsert k v l)

last_hash-some : (h : Text) (new : List DeviceEvent) → last_hash (some h) new ≢ none
last_hash-some h [] e = cc
last_hash-some h (f ∷ new) e = last_hash-some f.event_hash new e

last_hash-none :
    (head : Option Text) (new : List DeviceEvent) → last_hash head new ≡ none → head ≡ none
last_hash-none head [] h = h
last_hash-none head (e ∷ new) h = absurd (last_hash-some e.event_hash new h)

pub appended-advance :
    (device_id : Text) (head : Option Text) (s' : EventStore)
    → (advance device_id head s').events ≡ s'.events
unfolding set_chain_head
appended-advance device_id none s' = refl
appended-advance device_id (some h) s' = refl

push-eq_some {ℓ} :
    {A : Type ℓ} (o : Option A) (p : Option (List A)) {l : List A}
    → push o p ≡ some l
    → (a : A) × (r : List A) × (o ≡ some a) × (p ≡ some r) × (a ∷ r ≡ l)
push-eq_some none p h = cc
push-eq_some (some a) none h = cc
push-eq_some (some a) (some r) h = (a, r, refl, refl, ground arith)

option_map-eq_some {ℓ κ} :
    {A : Type ℓ} {B : Type κ} (f : A → B) (o : Option A) {b : B}
    → option_map f o ≡ some b
    → (a : A) × (o ≡ some a) × (f a ≡ b)
option_map-eq_some f none h = cc
option_map-eq_some f (some a) h = (a, refl, ground arith)

abbrev pub events_of : List (HlcState × DeviceEvent) → List DeviceEvent
events_of = map (λ q. q.1)

stamped_events :
    (other : Text → Option ℕ) (es : List DeviceEvent) {l : List (HlcState × DeviceEvent)}
    → stamped other es ≡ some l
    → events_of l ≡ es
stamped_events other [] h = ap events_of (sym (unsome h))
stamped_events other (e ∷ es) h =
    let (a, r, first, rest, whole) =
      push-eq_some (option_map (λ s. (s, e)) (decode other e.hlc)) (stamped other es) h in
    let (t, decoded, pair) = option_map-eq_some (λ s. (s, e)) (decode other e.hlc) first in
    ap events_of (sym whole)
    ∙ ap₂ ◌∷◌ (ap (λ (q : HlcState × DeviceEvent). q.1) (sym pair)) (stamped_events other es rest)

pub order_events-permᴰ :
    (other : Text → Option ℕ) (es : List DeviceEvent) {ordered : List DeviceEvent}
    → order_events other es ≡ some ordered
    → Permᴰ ordered es
unfolding order_events
order_events-permᴰ other [] h = subst (λ l. Permᴰ l []) (unsome h) Permᴰ.nil
order_events-permᴰ other (e ∷ []) h = subst (λ l. Permᴰ l (e ∷ [])) (unsome h) (Permᴰ.refl (e ∷ []))
order_events-permᴰ other (e ∷ f ∷ es) h =
    let (pairs, found, whole) = option_map-eq_some _ (stamped other (e ∷ f ∷ es)) h in
    subst (λ l. Permᴰ l (e ∷ f ∷ es)) whole
      (subst (Permᴰ (events_of (sort compare_stamp pairs)))
        (stamped_events other (e ∷ f ∷ es) found)
        (Permᴰ.map (λ q. q.1) (sort-permᴰ compare_stamp pairs)))

-- A batch that was accepted: what was stored is authentic and continues the device's chain, whose
-- head moves to its end; the acknowledged ids are those of the batch, and none is rejected.
pub record Accepted (p : Platform) (device_id : Text) (events : List DeviceEvent) (s : EventStore)
    (r : IngestResult) (s' : EventStore) : Type 0 where
  pub device : EnrolledDevice
  pub new : List DeviceEvent
  pub enrolled : get_device s device_id ≡ some device
  pub device_active : device.active ≡ true
  pub appended : s'.events ≡ s.events ++ new
  pub authentic : All (IsAuthentic p device) new
  pub linked : Linked (get_chain_head s device_id) new
  pub head : get_chain_head s' device_id ≡ last_hash (get_chain_head s device_id) new
  pub acknowledged : Permᴰ r.acked (ids events)
  pub none_rejected : r.rejected ≡ []

-- A batch that was refused: no head has moved, and what was stored before the refusal is authentic
-- and continues the device's chain.
pub record Refused (p : Platform) (device_id : Text) (s s' : EventStore) : Type 0 where
  pub new : List DeviceEvent
  pub appended : s'.events ≡ s.events ++ new
  pub linked : Linked (get_chain_head s device_id) new
  pub authentic :
      (device : EnrolledDevice)
      → get_device s device_id ≡ some device
      → All (IsAuthentic p device) new
  pub heads_kept : s'.heads ≡ s.heads

module _ (p : Platform) (latest_cursor : EventStore → Text) (device_id : Text)
    (events : List DeviceEvent) (s : EventStore) where
  abbrev pub IngestPost : Outcome IngestResult × EventStore → Type 0
  IngestPost (ok r, s') = Accepted p device_id events s r s'
  IngestPost (err error, s') = Refused p device_id s s'

  untouched : Refused p device_id s s
  untouched = record {
    new = [];
    appended = sym (append-nil s.events);
    linked = tt;
    authentic = λ device found. tt;
    heads_kept = refl;
  }

  head_advance :
      (head : Option Text) (s' : EventStore)
      → s'.heads ≡ s.heads
      → (head ≡ none → get_chain_head s device_id ≡ none)
      → get_chain_head (advance device_id head s') device_id ≡ head
  unfolding get_chain_head set_chain_head
  head_advance none s' kept empty = rw kept (empty refl)
  head_advance (some h) s' kept empty = lookup-upsert device_id h s'.heads

  finish_post :
      (device : EnrolledDevice) (ordered : List DeviceEvent)
      → get_device s device_id ≡ some device
      → device.active ≡ true
      → order_events p.other_number events ≡ some ordered
      → (r : Outcome (List Text × Option Text) × EventStore)
      → LoopPost p device (get_chain_head s device_id) [] ordered s r
      → IngestPost (finish latest_cursor device_id r)
  finish_post device ordered found active sorted (err error, s') (new, leaves, answers) = record {
    new = new;
    appended = leaves.appended;
    linked = leaves.linked;
    authentic = λ other other_found.
        subst (λ d. All (IsAuthentic p d) new) (unsome (sym found ∙ other_found)) leaves.authentic;
    heads_kept = leaves.heads_kept;
  }
  finish_post device ordered found active sorted (ok (acked, head), s') (new, leaves, answers) =
      record {
        device = device;
        new = new;
        enrolled = found;
        device_active = active;
        appended = appended-advance device_id head s' ∙ leaves.appended;
        authentic = leaves.authentic;
        linked = leaves.linked;
        head =
            head_advance head s' leaves.heads_kept
              (λ empty. last_hash-none (get_chain_head s device_id) new (sym answers.1 ∙ empty))
            ∙ answers.1;
        acknowledged =
            subst (λ l. Permᴰ l (ids events)) (sym answers.0)
              (Permᴰ.map (λ (e : DeviceEvent). e.event_id)
                (order_events-permᴰ p.other_number events sorted));
        none_rejected = refl;
      }

-- Every push ends, accepted or refused, whatever the batch and its order: on success
-- each event of it is acknowledged and the head is that of the extended chain; on a refusal
-- no head moves. Either way the stored events are only added to, and every added event has the hash
-- of its own fields, a signature of the pushing device over it, and the hash of the one before.
pub ingest_lem :
    (p : Platform) (latest_cursor : EventStore → Text) (device_id : Text)
    (events : List DeviceEvent) (s : EventStore)
    → IngestPost p latest_cursor device_id events s (ingest p latest_cursor device_id events s)
ingest_lem p latest_cursor device_id events s = elim (Option-cases (get_device s device_id)) [
  | inl unknown ↦
      subst Post (sym (ingest_unknown p latest_cursor device_id events s unknown)) nothing
  | inr (device, found) ↦ elim (Bool-cases device.active) [
    | inr inactive ↦
        subst Post (sym (ingest_inactive p latest_cursor device_id events s found inactive)) nothing
    | inl active ↦ elim (Option-cases (order_events p.other_number events)) [
      | inl unsorted ↦
          subst Post
            (sym (ingest_unsorted p latest_cursor device_id events s found active unsorted)) nothing
      | inr (ordered, sorted) ↦
          subst Post (sym (ingest_ordered p latest_cursor device_id events s found active sorted)) (
            finish_post p latest_cursor device_id events s device ordered found active sorted _
              (ingest_loop_lem p device ordered (get_chain_head s device_id) [] s))
    ]
  ]
]
  where
    Post : Outcome IngestResult × EventStore → Type 0
    Post r = IngestPost p latest_cursor device_id events s r

    nothing : Refused p device_id s s
    nothing = untouched p latest_cursor device_id events s
