-- ===== src/Tests/Gateway.antt =====
-- The gateway on a device with two events.
use agroassure.Prelude.{
  ℕ, true, Option, none, some, [], ◌∷◌, ◌++◌, ◌≡◌, refl, Text, codes, text_eq, to_number, decimal,
}
use agroassure.Json.{null, undefined, object, end, field}
use agroassure.Hlc.{encode, decode, split_colon, join_colon, compare_state, text_compare}
use agroassure.Sort.{sort}
use agroassure.Hashing.{Platform, canonicalize, quote, join_comma, braced}
use agroassure.Events.{EventSignable, DeviceEvent, signable_part, compute_event_hash}
use agroassure.Ingest.{
  EnrolledDevice, EventStore, IngestResult, ok, err, hash, chain, get_device, event_exists,
  append_event, row_refused, get_chain_head, set_chain_head, order_events, check_event, ingest_loop,
  ingest,
}
use agroassure.Ingest.Batch.{IngestPost, ingest_lem}
use agroassure.Ingest.Replay.{Replayed, ingest-Replayed}
use agroassure.Ingest.Stranded.{stranded}

-- The text itself for its hash, and key and hash for a signature.
abbrev platform : Platform
platform = record {
  sha256_hex = λ t. t;
  verify_signature = λ hash sig key. text_eq sig (key ++ hash);
  other_number = λ t. none;
}

abbrev key : Text
key = codes "K"

abbrev device : EnrolledDevice
device = record { id = codes "dev"; active = true; public_key = key }

abbrev store : EventStore
store = record { devices = device ∷ []; users = codes "ann" ∷ []; events = []; heads = [] }

abbrev draft : Text → ℕ → Text → Option Text → EventSignable
draft id seq stamp prev = record {
  event_id = id;
  aggregate_type = codes "inspection";
  aggregate_id = codes "i";
  seq = seq;
  event_type = codes "T";
  payload = null;
  hlc = stamp;
  prev_hash = prev;
  device_id = some (codes "dev");
  actor_user_id = some (codes "ann");
}

abbrev or_empty : Option Text → Text
or_empty none = []
or_empty (some t) = t

-- Hashed and signed as the device does it.
sealed : EventSignable → DeviceEvent
sealed e =
    let h = or_empty (compute_event_hash platform e) in
    record { signable = e; event_hash = h; device_sig = key ++ h }

abbrev first : DeviceEvent
first = sealed (draft (codes "1") 1 (codes "000000000000001:00000:dev") none)

abbrev second : DeviceEvent
second = sealed (draft (codes "2") 2 (codes "000000000000001:00001:dev") (some first.event_hash))

-- The second event, changed after it was hashed.
abbrev forged : DeviceEvent
forged = record second { event_hash = codes "00" }

abbrev cursor : EventStore → Text
cursor s = codes "now"

everything : Unit {0}
unfolding sealed compute_event_hash signable_part canonicalize quote join_comma braced sort text_eq
    encode decode split_colon join_colon to_number decimal compare_state text_compare get_device
    event_exists append_event row_refused get_chain_head set_chain_head order_events check_event
    ingest_loop ingest
everything = tt

abbrev after_first : EventStore
after_first = record store { events = first ∷ [] }

abbrev after_both : EventStore
after_both = record store {
  events = first ∷ second ∷ [];
  heads = (codes "dev", second.event_hash) ∷ [];
}

abbrev both_acked : IngestResult
both_acked = record {
  acked = codes "1" ∷ codes "2" ∷ [];
  rejected = [];
  server_cursor = codes "now";
}

-- The batch arrives in the wrong order and is sorted.
shuffled :
    ingest platform cursor (codes "dev") (second ∷ first ∷ []) store ≡ (ok both_acked, after_both)
unfolding everything
shuffled = refl

ingest_lem_example :
    IngestPost platform cursor
      (codes "dev")
      (second ∷ first ∷ [])
      store
      (ingest platform cursor (codes "dev") (second ∷ first ∷ []) store)
ingest_lem_example = ingest_lem platform cursor (codes "dev") (second ∷ first ∷ []) store

ingest-Replayed_example :
    Replayed platform cursor (codes "dev") (second ∷ first ∷ []) both_acked after_both
ingest-Replayed_example =
    ingest-Replayed platform cursor (codes "dev") (second ∷ first ∷ []) store after_both both_acked
      shuffled

stranded_example :
    (ingest platform cursor (codes "dev") (first ∷ forged ∷ []) store
      ≡ (err (hash (codes "2")), after_first))
    × (ingest platform cursor (codes "dev") (first ∷ second ∷ []) after_first
        ≡ (err (chain (codes "2")), after_first))
unfolding everything
stranded_example =
    stranded platform cursor (codes "dev") device store after_first first forged second
      (hash (codes "2")) refl refl refl refl refl refl refl refl refl refl refl (λ e. cc)

-- An event with a payload that JSON changes.
abbrev remarked : EventSignable
remarked = record (draft (codes "3") 3 (codes "s") none) {
  payload = object (field (codes "b") null (field (codes "a") undefined end));
}

remarked_hash :
    compute_event_hash platform remarked ≡ some (or_empty (compute_event_hash platform remarked))
unfolding compute_event_hash signable_part canonicalize quote join_comma braced sort text_compare
    decimal
remarked_hash = refl
