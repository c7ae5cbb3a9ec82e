-- ===== src/Ingest.antt =====
-- services/sync-gateway/src/sync/ingest.service.ts over pg-event-store.ts: what the gateway does
-- with a pushed batch. The tables are explicit state, so that what a refused batch leaves behind is
-- seen.
pub mod Steps
pub mod Evidence
pub mod Batch
pub mod Replay
pub mod Stranded
use Prim.Native.Nat.{Ordering}
use agroassure.Prelude.{
  ℕ, Bool, true, false, not, ◌&&◌, ◌||◌, Option, none, some, List, [], ◌∷◌, ◌++◌, map, ◌==◌,
  if◌then◌else◌, any, find, Text, text_eq,
}
use agroassure.Hashing.{is_undefined, Platform, push, option_map}
use agroassure.Hlc.{HlcState, decode, compare_state}
use agroassure.Sort.{sort}
use agroassure.Events.{DeviceEvent, compute_event_hash}

pub record EnrolledDevice : Type 0 where
  pub id : Text
  pub active : Bool
  pub public_key : Text

-- The tables that ingest reads and writes: device, app_user (its ids), event_store in insertion
-- order, and device_chain_head.
pub record EventStore : Type 0 where
  pub devices : List EnrolledDevice
  pub users : List Text
  pub events : List DeviceEvent
  pub heads : List (Text × Text)

unfoldable pub get_device : EventStore → Text → Option EnrolledDevice
get_device s device_id = find (λ d. text_eq d.id device_id) s.devices

unfoldable pub event_exists : EventStore → Text → Bool
event_exists s event_id = any (λ (e : DeviceEvent). text_eq e.event_id event_id) s.events

abbrev pub lookup : Text → List (Text × Text) → Option Text
lookup k [] = none
lookup k ((j, v) ∷ rest) = if text_eq j k then some v else lookup k rest

unfoldable pub get_chain_head : EventStore → Text → Option Text
get_chain_head s device_id = lookup device_id s.heads

-- The row's place in its aggregate, which is unique in event_store.
abbrev pub same_place : DeviceEvent → DeviceEvent → Bool
same_place a b =
    text_eq a.aggregate_type b.aggregate_type
    && text_eq a.aggregate_id b.aggregate_id
    && a.seq == b.seq

abbrev pub known_user : List Text → Option Text → Bool
known_user users none = true
known_user users (some u) = any (text_eq u) users

abbrev known_device : List EnrolledDevice → Option Text → Bool
known_device devices none = true
known_device devices (some d) = any (λ (device : EnrolledDevice). text_eq device.id d) devices

-- A constraint of event_store (0003_event_store.sql) refuses the row. JSON.stringify gives no text for
-- an undefined payload, and the column takes no NULL.
unfoldable pub row_refused : EventStore → DeviceEvent → Bool
row_refused s e =
    is_undefined e.payload
    || any (same_place e) s.events
    || (not (known_user s.users e.actor_user_id) || not (known_device s.devices e.device_id))

-- INSERT ... ON CONFLICT (event_id) DO NOTHING; `none` where the database raises an error.
unfoldable pub append_event : EventStore → DeviceEvent → Option EventStore
append_event s e =
    if event_exists s e.event_id
    then some s
    else if row_refused s e
    then none
    else some (record s { events = s.events ++ e ∷ [] })

abbrev pub upsert : Text → Text → List (Text × Text) → List (Text × Text)
upsert k v [] = (k, v) ∷ []
upsert k v ((j, w) ∷ rest) = if text_eq j k then (k, v) ∷ rest else (j, w) ∷ upsert k v rest

unfoldable pub set_chain_head : EventStore → Text → Text → EventStore
set_chain_head s device_id hash = record s { heads = upsert device_id hash s.heads }

-- What ingest throws: the two ForbiddenExceptions, the three ConflictExceptions with the id of the
-- event, and the errors that it lets through from decode, canonicalize and the database.
pub data IngestError : Type 0 where
  unknown_device inactive_device bad_stamp : IngestError
  hash sig chain not_canonical row_error : Text → IngestError

pub data Outcome {ℓ} (A : Type ℓ) : Type ℓ where
  ok : A → Outcome A
  err : IngestError → Outcome A

pub record IngestResult : Type 0 where
  pub acked : List Text
  pub rejected : List Text
  pub server_cursor : Text

abbrev pub stamped : (Text → Option ℕ) → List DeviceEvent → Option (List (HlcState × DeviceEvent))
stamped other [] = some []
stamped other (e ∷ es) = push (option_map (λ s. (s, e)) (decode other e.hlc)) (stamped other es)

abbrev pub compare_stamp : HlcState × DeviceEvent → HlcState × DeviceEvent → Ordering
compare_stamp a b = compare_state a.0 b.0

-- [...events].sort(hlcCompare): the comparator sees every element of an array of two or more, and
-- throws where a stamp does not decode.
unfoldable pub order_events : (Text → Option ℕ) → List DeviceEvent → Option (List DeviceEvent)
order_events other [] = some []
order_events other (e ∷ []) = some (e ∷ [])
order_events other (e ∷ f ∷ es) =
    option_map (λ pairs. map (λ (p : HlcState × DeviceEvent). p.1) (sort compare_stamp pairs))
      (stamped other (e ∷ f ∷ es))

abbrev pub option_text_eq : Option Text → Option Text → Bool
option_text_eq none none = true
option_text_eq (some s) (some t) = text_eq s t
option_text_eq _ _ = false

-- The three checks of an event that is not stored yet, in the order of the code.
unfoldable pub check_event :
    Platform → EnrolledDevice → Option Text → DeviceEvent → Option IngestError
check_event p device head e = elim (compute_event_hash p e.signable) [
  | none ↦ some (not_canonical e.event_id)
  | some recomputed ↦
      if not (text_eq recomputed e.event_hash)
      then some (hash e.event_id)
      else if not (p.verify_signature e.event_hash e.device_sig device.public_key)
      then some (sig e.event_id)
      else if not (option_text_eq e.prev_hash head)
      then some (chain e.event_id)
      else none
]

-- The loop over the ordered events: the acknowledged ids and the head of the chain so far.
unfoldable pub ingest_loop :
    Platform
    → EnrolledDevice
    → List DeviceEvent
    → Option Text
    → List Text
    → EventStore
    → Outcome (List Text × Option Text) × EventStore
ingest_loop p device [] head acked s = (ok (acked, head), s)
ingest_loop p device (e ∷ es) head acked s = elim (event_exists s e.event_id) [
  | true ↦ ingest_loop p device es head (acked ++ e.event_id ∷ []) s
  | false ↦ elim (check_event p device head e) [
    | some error ↦ (err error, s)
    | none ↦ elim (append_event s e) [
      | none ↦ (err (row_error e.event_id), s)
      | some s' ↦ ingest_loop p device es (some e.event_hash) (acked ++ e.event_id ∷ []) s'
    ]
  ]
]

abbrev advance : Text → Option Text → EventStore → EventStore
advance device_id none s = s
advance device_id (some head) s = set_chain_head s device_id head

abbrev finish :
    (EventStore → Text)
    → Text
    → Outcome (List Text × Option Text) × EventStore
    → Outcome IngestResult × EventStore
finish latest_cursor device_id (err error, s) = (err error, s)
finish latest_cursor device_id (ok (acked, head), s) =
    let s' = advance device_id head s in
    (ok (record { acked = acked; rejected = []; server_cursor = latest_cursor s' }), s')

-- `latest_cursor` is the answer of latestCursor, which reads the recording times of the rows.
unfoldable pub ingest :
    Platform
    → (EventStore → Text)
    → Text
    → List DeviceEvent
    → EventStore
    → Outcome IngestResult × EventStore
ingest p latest_cursor device_id events s = elim (get_device s device_id) [
  | none ↦ (err unknown_device, s)
  | some device ↦ elim device.active [
    | false ↦ (err inactive_device, s)
    | true ↦ elim (order_events p.other_number events) [
      | none ↦ (err bad_stamp, s)
      | some ordered ↦
          finish latest_cursor device_id
            (ingest_loop p device ordered (get_chain_head s device_id) [] s)
    ]
  ]
]
