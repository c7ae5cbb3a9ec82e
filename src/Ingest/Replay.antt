-- ===== src/Ingest/Replay.antt =====
-- Pushing again: what a second push of a batch does, after an accepted and after a refused one.
use mathlib.Core.Path.{subst}
use mathlib.Core.List.{append_assoc, append-nil}
use agroassure.Prelude.{
  true, false, Option, none, some, List, [], ◌∷◌, ◌++◌, ◌≡◌, sym, ap, ◌∙◌, arith, All, Text,
  any-append, text_eq, text_eq_refl, inl, inr, Option-cases, Bool-cases,
}
use agroassure.Hashing.{Platform}
use agroassure.Events.{DeviceEvent}
use agroassure.Ingest.{
  EnrolledDevice, EventStore, IngestResult, Outcome, ok, err, get_device, event_exists,
  append_event, get_chain_head, order_events, set_chain_head, advance, finish, ingest_loop, ingest,
}
use agroassure.Ingest.Steps.{
  Round, round, loop_stored, loop_refused, loop_row_error, loop_append, ingest_unknown,
  ingest_inactive, ingest_unsorted, ingest_ordered,
}
use agroassure.Ingest.Batch.{lookup-upsert, appended-advance}
use agroassure.Ingest.Evidence.{ids, LoopPost, ingest_loop_lem, append_event_lem}

event_exists-append :
    (s s' : EventStore) (new : List DeviceEvent) (id : Text)
    → s'.events ≡ s.events ++ new
    → event_exists s id ≡ true
    → event_exists s' id ≡ true
unfolding event_exists
event_exists-append s s' new id e h =
    rw (e, any-append (λ (x : DeviceEvent). text_eq x.event_id id) s.events new, h)

pub event_exists-stored :
    (s s' : EventStore) (e : DeviceEvent)
    → event_exists s e.event_id ≡ false
    → append_event s e ≡ some s'
    → event_exists s' e.event_id ≡ true
unfolding event_exists
event_exists-stored s s' e fresh h =
    rw
      (
        (append_event_lem s s' e fresh h).0,
        any-append (λ (x : DeviceEvent). text_eq x.event_id e.event_id) s.events (e ∷ []),
        text_eq_refl e.event_id,
      )
      (ground arith)

abbrev Stored : EventStore → List DeviceEvent → Type 0
Stored s = All (λ e. event_exists s e.event_id ≡ true)

module _ (p : Platform) (device : EnrolledDevice) where
  abbrev StoresAll : List DeviceEvent → Outcome (List Text × Option Text) × EventStore → Type 0
  StoresAll es (err error, s') = Unit
  StoresAll es (ok r, s') = Stored s' es

  stores_more :
      (e : DeviceEvent) (es new : List DeviceEvent) (s : EventStore)
      (r : Outcome (List Text × Option Text) × EventStore)
      → event_exists s e.event_id ≡ true
      → r.1.events ≡ s.events ++ new
      → StoresAll es r
      → StoresAll (e ∷ es) r
  stores_more e es new s (err error, s') h a k = tt
  stores_more e es new s (ok r, s') h a k = (event_exists-append s s' new e.event_id a h, k)

  ingest_loop-StoresAll :
      (es : List DeviceEvent) (head : Option Text) (acked : List Text) (s : EventStore)
      → StoresAll es (ingest_loop p device es head acked s)
  ingest_loop-StoresAll [] head acked s = unfold ingest_loop in tt
  ingest_loop-StoresAll (e ∷ es) head acked s = elim (round p device e head s) [
    | Round.stored h ↦
        let (new, leaves, _) = ingest_loop_lem p device es head (acked ++ e.event_id ∷ []) s in
        subst (StoresAll (e ∷ es)) (sym (loop_stored p device e es head acked s h)) (
          stores_more e es new s _ h leaves.appended
            (ingest_loop-StoresAll es head (acked ++ e.event_id ∷ []) s))
    | Round.refused error h c ↦
        subst (StoresAll (e ∷ es)) (sym (loop_refused p device e es head acked s h c)) tt
    | Round.unwritten h c a ↦
        subst (StoresAll (e ∷ es)) (sym (loop_row_error p device e es head acked s h c a)) tt
    | Round.written s' h c a ↦
        let (new, leaves, _) =
          ingest_loop_lem p device es (some e.event_hash) (acked ++ e.event_id ∷ []) s' in
        subst (StoresAll (e ∷ es)) (sym (loop_append p device e es head acked s h c a)) (
          stores_more e es new s' _ (event_exists-stored s s' e h a) leaves.appended
            (ingest_loop-StoresAll es (some e.event_hash) (acked ++ e.event_id ∷ []) s'))
  ]

  -- Over events that are all stored the loop only acknowledges.
  loop_replay :
      (es : List DeviceEvent) (head : Option Text) (acked : List Text) (s : EventStore)
      → Stored s es
      → ingest_loop p device es head acked s ≡ (ok (acked ++ ids es, head), s)
  loop_replay [] head acked s h = unfold ingest_loop in rw append-nil
  loop_replay (e ∷ es) head acked s h =
      loop_stored p device e es head acked s h.0
      ∙ loop_replay es head (acked ++ e.event_id ∷ []) s h.1
      ∙ rw (append_assoc acked (e.event_id ∷ []) (ids es))

get_device-advance :
    (device_id : Text) (head : Option Text) (s s' : EventStore)
    → s'.devices ≡ s.devices
    → get_device (advance device_id head s') device_id ≡ get_device s device_id
unfolding get_device set_chain_head
get_device-advance device_id none s s' h = rw h
get_device-advance device_id (some head) s s' h = rw h

event_exists-advance :
    (device_id : Text) (head : Option Text) (s : EventStore) (es : List DeviceEvent)
    → Stored s es
    → Stored (advance device_id head s) es
event_exists-advance device_id none s es h = h
event_exists-advance device_id (some head) s [] h = tt
event_exists-advance device_id (some head) s (e ∷ es) h =
    (unfold event_exists set_chain_head in h.0, event_exists-advance device_id (some head) s es h.1)

head-advance_self :
    (device_id : Text) (s : EventStore)
    → get_chain_head (advance device_id (get_chain_head s device_id) s) device_id
      ≡ get_chain_head s device_id
head-advance_self device_id s = elim (Option-cases (get_chain_head s device_id)) [
  | inl e ↦ rw e e
  | inr (h, e) ↦ rw e (unfold get_chain_head set_chain_head in lookup-upsert device_id h s.heads)
]

module _ (p : Platform) (latest_cursor : EventStore → Text) (device_id : Text)
    (events : List DeviceEvent) where
  -- What pushing the batch to `s'` once more does, where `r` was the answer that led to `s'`.
  abbrev pub Replayed : IngestResult → EventStore → Type 0
  Replayed r s' =
      (r' : IngestResult) × (s'' : EventStore) × (ingest p latest_cursor device_id events s'
        ≡ (ok r', s''))
      × (r'.acked ≡ r.acked)
      × (s''.events ≡ s'.events)
      × (get_chain_head s'' device_id ≡ get_chain_head s' device_id)

  replay_ordered :
      (device : EnrolledDevice) (ordered : List DeviceEvent) (s : EventStore)
      → get_device s device_id ≡ some device
      → device.active ≡ true
      → order_events p.other_number events ≡ some ordered
      → Stored s ordered
      → (r : IngestResult) → r.acked ≡ ids ordered
      → Replayed r s
  replay_ordered device ordered s found active sorted stored r same =
      let s'' = advance device_id (get_chain_head s device_id) s in
      let result : IngestResult = record {
        acked = ids ordered;
        rejected = [];
        server_cursor = latest_cursor s'';
      } in
      (
        result,
        s'',
        ingest_ordered p latest_cursor device_id events s found active sorted
            ∙ ap (finish latest_cursor device_id)
                (loop_replay p device ordered (get_chain_head s device_id) [] s stored),
        sym same,
        appended-advance device_id (get_chain_head s device_id) s,
        head-advance_self device_id s,
      )

  abbrev AfterAccepted : Outcome IngestResult × EventStore → Type 0
  AfterAccepted (err error, s') = Unit
  AfterAccepted (ok r, s') = Replayed r s'

  finish_replayed :
      (device : EnrolledDevice) (ordered : List DeviceEvent) (s : EventStore)
      → get_device s device_id ≡ some device
      → device.active ≡ true
      → order_events p.other_number events ≡ some ordered
      → (o : Outcome (List Text × Option Text) × EventStore)
      → LoopPost p device (get_chain_head s device_id) [] ordered s o
      → StoresAll p device ordered o
      → AfterAccepted (finish latest_cursor device_id o)
  finish_replayed device ordered s found active sorted (err error, s') post stored = tt
  finish_replayed device ordered s found active sorted (ok (acked, head), s') (new, leaves, answers)
        stored =
      replay_ordered device ordered (advance device_id head s')
        (get_device-advance device_id head s s' leaves.devices_kept ∙ found) active sorted
        (event_exists-advance device_id head s' ordered stored)
        (record {
          acked = acked;
          rejected = [];
          server_cursor = latest_cursor (advance device_id head s');
        })
        answers.0

  after_accepted : (s : EventStore) → AfterAccepted (ingest p latest_cursor device_id events s)
  after_accepted s = elim (Option-cases (get_device s device_id)) [
    | inl unknown ↦
        subst AfterAccepted (sym (ingest_unknown p latest_cursor device_id events s unknown)) tt
    | inr (device, found) ↦ elim (Bool-cases device.active) [
      | inr inactive ↦
          subst AfterAccepted
            (sym (ingest_inactive p latest_cursor device_id events s found inactive)) tt
      | inl active ↦ elim (Option-cases (order_events p.other_number events)) [
        | inl unsorted ↦
            subst AfterAccepted
              (sym (ingest_unsorted p latest_cursor device_id events s found active unsorted)) tt
        | inr (ordered, sorted) ↦
            subst AfterAccepted
              (sym (ingest_ordered p latest_cursor device_id events s found active sorted))
              (finish_replayed device ordered s found active sorted _
                (ingest_loop_lem p device ordered (get_chain_head s device_id) [] s)
                (ingest_loop-StoresAll p device ordered (get_chain_head s device_id) [] s))
      ]
    ]
  ]

-- A batch that was accepted is accepted again when the device repeats it, as after a lost answer:
-- the same ids are acknowledged, no event is stored, and the head of the chain stays.
pub ingest-Replayed :
    (p : Platform) (latest_cursor : EventStore → Text) (device_id : Text)
    (events : List DeviceEvent) (s s' : EventStore) (r : IngestResult)
    → ingest p latest_cursor device_id events s ≡ (ok r, s')
    → Replayed p latest_cursor device_id events r s'
ingest-Replayed p latest_cursor device_id events s s' r h =
    subst (AfterAccepted p latest_cursor device_id events) h
      (after_accepted p latest_cursor device_id events s)
