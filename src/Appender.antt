-- ===== src/Appender.antt =====
-- services/sync-gateway/src/events/event-appender.service.ts: the events that the server authors, in
-- the event store of Ingest. The time of recording is left out, as there.
pub mod Places
pub mod Appended
use agroassure.Prelude.{
  ℕ, ◌+◌, max, Bool, true, false, ◌&&◌, ◌||◌, Option, none, some, List, [], ◌∷◌, ◌++◌,
  if◌then◌else◌, Text, codes, text_eq,
}
use agroassure.Json.{Json}
use agroassure.Hashing.{Platform}
use agroassure.Hlc.{HlcState, hlc_init, hlc_next, encode}
use agroassure.Events.{EventSignable, DeviceEvent, compute_event_hash}
use agroassure.Ingest.{EventStore, event_exists, row_refused}

-- A request, with the id that uuidv7 gives and the time of the clock.
pub record AppendRequest : Type 0 where
  pub aggregate_type : Text
  pub aggregate_id : Text
  pub event_type : Text
  pub payload : Json
  pub actor_user_id : Option Text
  pub event_id : Text
  pub now : ℕ

-- The clock is the appender's own: a transaction that is rolled back does not turn it back.
pub record Server : Type 0 where
  pub clock : HlcState
  pub store : EventStore

unfoldable pub first_clock : HlcState
first_clock = hlc_init (codes "server")

abbrev pub in_aggregate : Text → Text → DeviceEvent → Bool
in_aggregate aggregate_type aggregate_id e =
    text_eq aggregate_type e.aggregate_type && text_eq aggregate_id e.aggregate_id

-- coalesce(max(seq), 0) of an aggregate
unfoldable pub max_place : Text → Text → List DeviceEvent → ℕ
max_place aggregate_type aggregate_id [] = 0
max_place aggregate_type aggregate_id (e ∷ es) =
    let rest = max_place aggregate_type aggregate_id es in
    if in_aggregate aggregate_type aggregate_id e then max e.seq rest else rest

unfoldable pub server_signable : AppendRequest → ℕ → Text → EventSignable
server_signable r seq stamp = record {
  event_id = r.event_id;
  aggregate_type = r.aggregate_type;
  aggregate_id = r.aggregate_id;
  seq = seq;
  event_type = r.event_type;
  payload = r.payload;
  hlc = stamp;
  prev_hash = none;
  device_id = none;
  actor_user_id = r.actor_user_id;
}

-- The row has no signature, for which the empty text stands.
abbrev pub server_event : EventSignable → Text → DeviceEvent
server_event e hash = record { signable = e; event_hash = hash; device_sig = [] }

-- INSERT INTO event_store: `none` where the database raises an error.
unfoldable pub insert_event : EventStore → DeviceEvent → Option EventStore
insert_event s e =
    if event_exists s e.event_id || row_refused s e
    then none
    else some (record s { events = s.events ++ e ∷ [] })

abbrev pub next_signable : AppendRequest → HlcState → EventStore → EventSignable
next_signable r clock s =
    server_signable r (max_place r.aggregate_type r.aggregate_id s.events + 1) (encode clock)

-- With `none` where the hash or the database raises an error; `clock` has moved already.
unfoldable pub append_in : Platform → AppendRequest → HlcState → EventStore → Option EventStore
append_in p r clock s = elim (compute_event_hash p (next_signable r clock s)) [
  | none ↦ none
  | some hash ↦ insert_event s (server_event (next_signable r clock s) hash)
]

-- The clock after the requests up to the first that fails, and the rows if none does.
unfoldable pub append_rows :
    Platform → List AppendRequest → HlcState → EventStore → HlcState × Option EventStore
append_rows p [] clock s = (clock, some s)
append_rows p (r ∷ rs) clock s =
    let sent = hlc_next clock r.now in
    elim (append_in p r sent s) [ none ↦ (sent, none) | some t ↦ append_rows p rs sent t ]

-- The end of the transaction: with whether it was committed.
abbrev pub ended : Server → HlcState × Option EventStore → Bool × Server
ended server (clock, none) = (false, record server { clock = clock })
ended server (clock, some s) = (true, record { clock = clock; store = s })

-- appendAll, and append for one request, up to bringing the projections up to date. The ids that they
-- answer are those of the requests.
unfoldable pub append_all : Platform → List AppendRequest → Server → Bool × Server
append_all p rs server = ended server (append_rows p rs server.clock server.store)
