-- ===== src/Tests/Sync.antt =====
-- A device with one pending event drains into an empty gateway.
use agroassure.Prelude.{
  ℕ, ◌<◌, Bool, true, none, some, List, [], ◌∷◌, ◌++◌, Text, codes, text_eq, arith,
}
use agroassure.Json.{null}
use agroassure.Hashing.{Platform}
use agroassure.Ingest.{EventStore, IngestError}
use agroassure.FieldStore.{OutboxRow, pending, EvidenceRow, FieldStore, pending_count}
use agroassure.FieldSync.{answered, thrown, Answer, Pulled}
use agroassure.FieldSync.Drain.{Drained}
use agroassure.FieldSync.Gateway.{gateway, drain-gateway}

abbrev platform : Platform
platform = record {
  sha256_hex = λ t. t;
  verify_signature = λ hash sig key. text_eq sig (key ++ hash);
  other_number = λ t. none;
}

abbrev row : OutboxRow
row = record {
  event_id = codes "1";
  aggregate_type = codes "inspection";
  aggregate_id = codes "i";
  seq = 1;
  event_type = codes "T";
  payload_json = null;
  hlc = codes "000000000000001:00000:dev";
  prev_hash = none;
  event_hash = codes "h";
  device_sig = codes "Kh";
  actor_user_id = some (codes "ann");
  device_id = codes "dev";
  sync_state = pending;
  created_at = 1;
}

abbrev store : FieldStore
store = record {
  outbox = row ∷ [];
  evidence = [];
  prior_findings = [];
  pull_cursors = [];
  facilities = [];
  versions = [];
  inspections = [];
  responses = [];
  jurisdiction_code = none;
}

abbrev server : EventStore
server = record { devices = []; users = []; events = []; heads = [] }

abbrev cursor : EventStore → Text
cursor s = codes "now"

abbrev message : IngestError → Text
message error = codes "refused"

abbrev upload : EventStore → EvidenceRow → List ℕ → Answer Bool × EventStore
upload s e bytes = (answered true, s)

abbrev pull : EventStore → Text → Answer Pulled × EventStore
pull s since = (thrown (codes "offline"), s)

abbrev read_file : EventStore → Text → Answer (List ℕ) × EventStore
read_file s uri = (answered [], s)

one_pending : pending_count store < 2
unfolding pending_count
one_pending = omega arith

drain-gateway_example :
    Drained (gateway platform cursor message upload pull read_file) (codes "dev") 2 server store
drain-gateway_example =
    drain-gateway platform cursor message upload pull read_file (codes "dev") 2 server store
      one_pending
