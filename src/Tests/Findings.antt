-- ===== src/Tests/Findings.antt =====
-- A sweep over a finding that is past its grace and one that is not due.
use agroassure.Prelude.{
  ◌≡◌, refl, ◌*◌, ◌+◌, ◌<◌, ℕ, zero, suc, true, false, some, none, List, [], ◌∷◌, ◌++◌, map, length,
  replicate, arith, codes, text_eq,
}
use agroassure.Hashing.{Platform}
use agroassure.Events.{DeviceEvent}
use agroassure.Ingest.{event_exists}
use agroassure.Appender.Appended.{Added}
use agroassure.Types.{major, open_status}
use agroassure.FindingState.{day_ms}
use agroassure.Projection.{FindingRow, Tables}
use agroassure.Escalation.{Action, SweepResult, due_findings, sweep}
use agroassure.Escalation.Serving.{Gateway, Draw, sweep_gateway, requests, notices}
use agroassure.Escalation.Serving.Carried.{Fresh}
use agroassure.Escalation.Serving.Swept.{sweep_gateway_lem}
use agroassure.Escalation.Settled.{outcome}

abbrev late : FindingRow
late = record {
  id = codes "d1";
  reference = codes "CA-1";
  inspection_id = codes "i";
  checkpoint_response_id = none;
  checkpoint_ref = codes "1.1";
  summary = codes "torn";
  severity = major;
  owner_user_id = none;
  owner_label = none;
  due_date = 10;
  status = open_status;
  escalated_to = none;
  escalated_at = none;
  closure_submitted_at = none;
  closed_at = none;
  closed_by_user_id = none;
  created_at = 0;
}

abbrev early : FindingRow
early = record late { id = codes "d2"; due_date = 30 }

abbrev tables : Tables
tables = record {
  facilities = [];
  inspections = [];
  responses = [];
  exhibits = [];
  findings = late ∷ early ∷ [];
  decisions = [];
  certificates = [];
  assignments = [];
}

abbrev at_noon : ℕ
at_noon = 20 * day_ms

abbrev plain : Platform
plain = record {
  sha256_hex = λ t. t;
  verify_signature = λ hash sig key. text_eq sig key;
  other_number = λ t. none;
}

abbrev gateway : Gateway
gateway = record {
  server = record {
    clock = record { physical = 0; counter = 0; node_id = codes "server" };
    store = record { devices = []; users = []; events = []; heads = [] };
  };
  tables = tables;
  notifications = [];
}

abbrev draws : ℕ → Draw
draws n = (replicate n 65, 7)

longer : (i k : ℕ) → i < k → text_eq (replicate i 65) (replicate k 65) ≡ false
unfolding text_eq
longer i zero h = absurd (omega (arith, h))
longer zero (suc k) h = refl
longer (suc i) (suc k) h = longer i k (omega arith)

new_ids : Fresh draws 0 gateway.server.store
unfolding event_exists
new_ids = record { unused = λ i h. refl; apart = λ i k h. longer i k }

abbrev found : List Action × SweepResult
found = sweep at_noon (due_findings (λ i. some (codes "ann")) at_noon tables)

sweep_gateway_lem_example :
    (g : Gateway) × (es : List DeviceEvent) × (sweep_gateway plain
        (λ t. [])
        (λ i. some (codes "ann"))
        draws
        at_noon
        gateway
      ≡ (true, g))
    × (g.tables.findings ≡ map (outcome (λ i. some (codes "ann")) at_noon) (late ∷ early ∷ []))
    × (g.server.store ≡ record (gateway.server.store) { events = [] ++ es })
    × Added plain gateway.server.clock [] (requests (λ t. []) draws 0 found.0) es g.server.clock
    × (length es ≡ found.1.marked_overdue + found.1.escalated)
    × (g.notifications ≡ [] ++ notices found.0)
    × ((sweep at_noon (due_findings (λ i. some (codes "ann")) at_noon g.tables)).0 ≡ [])
unfolding text_eq
sweep_gateway_lem_example =
    sweep_gateway_lem plain (λ t. []) (λ i. some (codes "ann")) draws at_noon gateway
      (refl, (refl, tt)) new_ids
