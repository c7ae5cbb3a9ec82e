-- ===== src/Tests/Server.antt =====
-- The server records two decisions on one finding.
use agroassure.Prelude.{ℕ, none, some, List, [], ◌∷◌, Text, codes, text_eq}
use agroassure.Json.{null}
use agroassure.Hashing.{Platform}
use agroassure.Appender.{AppendRequest, Server}

abbrev plain_platform : Platform
plain_platform = record {
  sha256_hex = λ t. t;
  verify_signature = λ hash sig key. text_eq sig key;
  other_number = λ t. none;
}

abbrev decision : Text → ℕ → AppendRequest
decision id now = record {
  aggregate_type = codes "finding";
  aggregate_id = codes "f";
  event_type = codes "FindingClosureRejected";
  payload = null;
  actor_user_id = some (codes "ann");
  event_id = id;
  now = now;
}

abbrev idle : Server
idle = record {
  clock = record { physical = 0; counter = 0; node_id = codes "server" };
  store = record { devices = []; users = codes "ann" ∷ []; events = []; heads = [] };
}

abbrev decisions : List AppendRequest
decisions = decision (codes "a") 5 ∷ decision (codes "b") 5 ∷ []
