-- ===== src/Ingest/Evidence.antt =====
-- What the gateway knows of every event that it stores, and what it answers.
use agroassure.Prelude.{
  true, false, Option, none, some, List, [], ◌∷◌, ◌++◌, map, ◌≡◌, refl, sym, ap, ◌∙◌, arith, All,
  Text, text_eq_iff, Option-cases, inl, inr,
}
use mathlib.Core.Path.{subst}
use agroassure.Ingest.Steps.{Round, round, loop_stored, loop_refused, loop_row_error, loop_append}
use mathlib.Core.List.{append-nil, append_assoc}
use agroassure.Hashing.{Platform}
use agroassure.Events.{DeviceEvent, compute_event_hash}
use agroassure.Ingest.{
  EnrolledDevice, EventStore, event_exists, append_event, Outcome, ok, err, check_event,
  ingest_loop, option_text_eq,
}

-- The hash is the one of its fields, and the device has signed it.
pub record IsAuthentic (p : Platform) (device : EnrolledDevice) (e : DeviceEvent) : Type 0 where
  pub hashed : compute_event_hash p e.signable ≡ some e.event_hash
  pub signed : p.verify_signature e.event_hash e.device_sig device.public_key ≡ true

-- Each event names the hash of the one before it, and the first one names `head`.
abbrev pub Linked : Option Text → List DeviceEvent → Type 0
Linked head [] = Unit
Linked head (e ∷ es) = (e.prev_hash ≡ head) × Linked (some e.event_hash) es

-- The head of a chain that goes on from `head` with these events.
abbrev pub last_hash : Option Text → List DeviceEvent → Option Text
last_hash head [] = head
last_hash head (e ∷ es) = last_hash (some e.event_hash) es

pub option_text_eq_iff : (s t : Option Text) → option_text_eq s t ≡ true → s ≡ t
option_text_eq_iff none none h = refl
option_text_eq_iff none (some t) h = cc
option_text_eq_iff (some s) none h = cc
option_text_eq_iff (some s) (some t) h = ap some ((text_eq_iff s t).0 h)

pub check_event_sound :
    (p : Platform) (device : EnrolledDevice) (head : Option Text) (e : DeviceEvent)
    → check_event p device head e ≡ none
    → IsAuthentic p device e × (e.prev_hash ≡ head)
unfolding check_event
check_event_sound p device head e h = elim (Option-cases (compute_event_hash p e.signable)) [
  | inl refused ↦ absurd (ground arith)
  | inr (recomputed, found) ↦
      let same = text_eq_iff recomputed e.event_hash in
      let linked = option_text_eq_iff e.prev_hash head in
      (record { hashed = ground (arith, same.0); signed = ground arith }, ground (arith, linked))
]

pub append_event_lem :
    (s s' : EventStore) (e : DeviceEvent)
    → event_exists s e.event_id ≡ false
    → append_event s e ≡ some s'
    → (s'.events ≡ s.events ++ e ∷ [])
      × (s'.heads ≡ s.heads)
      × (s'.devices ≡ s.devices)
      × (s'.users ≡ s.users)
unfolding append_event
append_event_lem s s' e fresh h = ground arith

-- What a run of the loop from `head`, `acked` and `s` over the events `es` leaves: `new` are the
-- events that it stored.
pub record LoopLeaves (p : Platform) (device : EnrolledDevice) (head : Option Text) (s : EventStore)
    (new : List DeviceEvent) (s' : EventStore) : Type 0 where
  pub appended : s'.events ≡ s.events ++ new
  pub authentic : All (IsAuthentic p device) new
  pub linked : Linked head new
  pub heads_kept : s'.heads ≡ s.heads
  pub devices_kept : s'.devices ≡ s.devices
  pub users_kept : s'.users ≡ s.users

abbrev pub ids : List DeviceEvent → List Text
ids = map (λ e. e.event_id)

-- The loop's answer: on success every event is acknowledged, and the head is that of the chain.
abbrev pub Answers :
    Option Text
    → List Text
    → List DeviceEvent
    → List DeviceEvent
    → Outcome (List Text × Option Text)
    → Type 0
Answers head acked es new (err error) = Unit
Answers head acked es new (ok (acked', head')) =
    (acked' ≡ acked ++ ids es) × (head' ≡ last_hash head new)

module _ (p : Platform) (device : EnrolledDevice) where
  LoopLeaves-nothing : (head : Option Text) (s : EventStore) → LoopLeaves p device head s [] s
  LoopLeaves-nothing head s = record {
    appended = sym (append-nil s.events);
    authentic = tt;
    linked = tt;
    heads_kept = refl;
    devices_kept = refl;
    users_kept = refl;
  }

  LoopLeaves-cons :
      {head : Option Text} {s s' s'' : EventStore} {new : List DeviceEvent} (e : DeviceEvent)
      → event_exists s e.event_id ≡ false
      → check_event p device head e ≡ none
      → append_event s e ≡ some s'
      → LoopLeaves p device (some e.event_hash) s' new s''
      → LoopLeaves p device head s (e ∷ new) s''
  LoopLeaves-cons {head} {s} {s'} {new = new} e fresh checked stored rest =
      let (authentic, names_head) = check_event_sound p device head e checked in
      let (events, heads, devices, users) = append_event_lem s s' e fresh stored in
      record {
        appended = rest.appended ∙ rw events (append_assoc s.events (e ∷ []) new);
        authentic = (authentic, rest.authentic);
        linked = (names_head, rest.linked);
        heads_kept = rest.heads_kept ∙ heads;
        devices_kept = rest.devices_kept ∙ devices;
        users_kept = rest.users_kept ∙ users;
      }

  abbrev pub LoopPost :
      Option Text
      → List Text
      → List DeviceEvent
      → EventStore
      → Outcome (List Text × Option Text) × EventStore
      → Type 0
  LoopPost head acked es s r =
      (new : List DeviceEvent) × LoopLeaves p device head s new r.1 × Answers head acked es new r.0

  Answers-stored :
      (o : Outcome (List Text × Option Text)) (head : Option Text) (acked : List Text)
      (e : DeviceEvent) (es new : List DeviceEvent)
      → Answers head (acked ++ e.event_id ∷ []) es new o
      → Answers head acked (e ∷ es) new o
  Answers-stored (err error) head acked e es new h = tt
  Answers-stored (ok (acked', head')) head acked e es new h =
      (h.0 ∙ append_assoc acked (e.event_id ∷ []) (ids es), h.1)

  Answers-written :
      (o : Outcome (List Text × Option Text)) (head : Option Text) (acked : List Text)
      (e : DeviceEvent) (es new : List DeviceEvent)
      → Answers (some e.event_hash) (acked ++ e.event_id ∷ []) es new o
      → Answers head acked (e ∷ es) (e ∷ new) o
  Answers-written (err error) head acked e es new h = tt
  Answers-written (ok (acked', head')) head acked e es new h =
      (h.0 ∙ append_assoc acked (e.event_id ∷ []) (ids es), h.1)

  -- A run of the loop, whether it succeeds or not, only appends to the events; what it appends is
  -- authentic and continues the chain from the head; on success it acknowledges every event of the
  -- batch, in order, and ends at the head of the chain.
  pub ingest_loop_lem :
      (es : List DeviceEvent) (head : Option Text) (acked : List Text) (s : EventStore)
      → LoopPost head acked es s (ingest_loop p device es head acked s)
  ingest_loop_lem [] head acked s =
      unfold ingest_loop in ([], LoopLeaves-nothing head s, (sym (append-nil acked), refl))
  ingest_loop_lem (e ∷ es) head acked s = elim (round p device e head s) [
    | Round.stored h ↦
        let (new, leaves, answers) = ingest_loop_lem es head (acked ++ e.event_id ∷ []) s in
        subst (LoopPost head acked (e ∷ es) s) (sym (loop_stored p device e es head acked s h))
          (new, leaves, Answers-stored _ head acked e es new answers)
    | Round.refused error h c ↦
        subst (LoopPost head acked (e ∷ es) s) (sym (loop_refused p device e es head acked s h c))
          ([], LoopLeaves-nothing head s, tt)
    | Round.unwritten h c a ↦
        subst (LoopPost head acked (e ∷ es) s)
          (sym (loop_row_error p device e es head acked s h c a))
          ([], LoopLeaves-nothing head s, tt)
    | Round.written s' h c a ↦
        let (new, leaves, answers) =
          ingest_loop_lem es (some e.event_hash) (acked ++ e.event_id ∷ []) s' in
        subst (LoopPost head acked (e ∷ es) s) (sym (loop_append p device e es head acked s h c a))
          (e ∷ new, LoopLeaves-cons e h c a leaves, Answers-written _ head acked e es new answers)
  ]
