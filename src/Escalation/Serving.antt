-- ===== src/Escalation/Serving.antt =====
-- services/sync-gateway/src/workers/escalation.service.ts: the sweep at the gateway, with the appends
-- that it makes and the one that throws.
pub mod Carried
pub mod Counted
pub mod Swept
use agroassure.Prelude.{
  ℕ, suc, zero, ◌+◌, ◌<◌, ◌≤◌, Bool, true, false, ◌&&◌, ◌||◌, Option, none, some, List, [], ◌∷◌,
  ◌++◌, ◌≡◌, refl, sym, ap, ◌∙◌, arith, any, any-append, map, length, if◌then◌else◌, Text, codes,
  text_eq,
}
use mathlib.Core.List.{append-nil, append_assoc}
use agroassure.Json.{Json, text, object, field, end}
use agroassure.Hashing.{Platform, canonicalize}
use agroassure.Hlc.{HlcState, hlc_next}
use mathlib.Core.Path.{subst}
use agroassure.Events.{EventSignable, DeviceEvent, signable_part, compute_event_hash}
use agroassure.Ingest.{EventStore, event_exists, known_user}
use agroassure.Appender.{AppendRequest, Server, server_signable, append_all}
use agroassure.Appender.Appended.{HasHash, Added, RowOf, append_all_lem}
use agroassure.Projection.{Tables}
use agroassure.Escalation.{
  DueFinding, Action, append_overdue, append_escalated, notify, act, act_all, due_findings, sweep,
}

-- A row of the table notification.
pub record Notification : Type 0 where
  pub user_id : Text
  pub finding_id : Text
  pub reference : Text
  pub summary : Text
  pub reason : Text

abbrev pub notice : Text → DueFinding → Text → Notification
notice user_id f reason = record {
  user_id = user_id;
  finding_id = f.id;
  reference = f.reference;
  summary = f.summary;
  reason = reason;
}

pub record Gateway : Type 0 where
  pub server : Server
  pub tables : Tables
  pub notifications : List Notification

-- What an append is given: the id of the event, and the time of the clock.
abbrev pub Draw : Type 0
Draw = Text × ℕ

abbrev pub finding_event : Text → Text → Json → Draw → AppendRequest
finding_event event_type id payload draw = record {
  aggregate_type = codes "finding";
  aggregate_id = id;
  event_type = event_type;
  payload = payload;
  actor_user_id = none;
  event_id = draw.0;
  now = draw.1;
}

-- `iso` is toISOString.
abbrev pub overdue_request : (ℕ → Text) → Text → ℕ → Draw → AppendRequest
overdue_request iso id at_time =
    finding_event (codes "FindingBecameOverdue") id
      (object (field (codes "at") (text (iso at_time)) end))

abbrev pub escalated_request : (ℕ → Text) → Text → ℕ → Text → Text → Draw → AppendRequest
escalated_request iso id at_time to reason = finding_event (codes "FindingEscalated") id (
    object (
      field (codes "at") (text (iso at_time))
        (field (codes "to") (text to) (field (codes "reason") (text reason) end))))

-- The end of an append: the projections follow where the transaction was committed.
abbrev pub followed : Action → Gateway → Bool × Server → Bool × Gateway
followed a g (done, server) =
    (done, record g { server = server; tables = if done then act a g.tables else g.tables })

-- `false` where the action throws.
unfoldable pub perform : Platform → (ℕ → Text) → Action → Draw → Gateway → Bool × Gateway
perform p iso (append_overdue id at_time) draw g =
    followed (append_overdue id at_time) g
      (append_all p (overdue_request iso id at_time draw ∷ []) g.server)
perform p iso (append_escalated id at_time to reason) draw g =
    followed (append_escalated id at_time to reason) g
      (append_all p (escalated_request iso id at_time to reason draw ∷ []) g.server)
perform p iso (notify user_id f reason) draw g =
    (true, record g { notifications = g.notifications ++ notice user_id f reason ∷ [] })

-- The loop up to the first action that throws; the n-th action is given the n-th draw.
unfoldable pub perform_all :
    Platform → (ℕ → Text) → (ℕ → Draw) → ℕ → List Action → Gateway → Bool × Gateway
perform_all p iso draws n [] g = (true, g)
perform_all p iso draws n (a ∷ actions) g =
    let (done, g') = perform p iso a (draws n) g in
    if done then perform_all p iso draws (suc n) actions g' else (false, g')

-- The sweep of the gateway's own findings.
unfoldable pub sweep_gateway :
    Platform → (ℕ → Text) → (Text → Option Text) → (ℕ → Draw) → ℕ → Gateway → Bool × Gateway
sweep_gateway p iso supervisor_of draws now g =
    perform_all p iso draws 0 (sweep now (due_findings supervisor_of now g.tables)).0 g

-- The appends among the actions.
abbrev pub requests : (ℕ → Text) → (ℕ → Draw) → ℕ → List Action → List AppendRequest
requests iso draws n [] = []
requests iso draws n (append_overdue id at_time ∷ actions) =
    overdue_request iso id at_time (draws n) ∷ requests iso draws (suc n) actions
requests iso draws n (append_escalated id at_time to reason ∷ actions) =
    escalated_request iso id at_time to reason (draws n) ∷ requests iso draws (suc n) actions
requests iso draws n (notify user_id f reason ∷ actions) = requests iso draws (suc n) actions

-- The notifications among the actions.
abbrev pub notices : List Action → List Notification
notices [] = []
notices (append_overdue id at_time ∷ actions) = notices actions
notices (append_escalated id at_time to reason ∷ actions) = notices actions
notices (notify user_id f reason ∷ actions) = notice user_id f reason ∷ notices actions
