-- ===== src/Projection/Apply.antt =====
-- projector.service.ts: apply, applyPending, lag and rebuild.
use Prim.Native.Nat.{Ordering, compare}
use agroassure.Prelude.{
  ℕ, zero, suc, ◌+◌, Bool, true, false, Option, none, some, List, [], ◌∷◌, filter, take, length,
  ltb, Text,
}
use agroassure.Hlc.{text_compare}
use agroassure.Projection.{References, Tables}
use agroassure.Projection.Payloads.{StoredEvent, Content}
use agroassure.Projection.Facilities.{facility_registered, facility_updated}
use agroassure.Projection.FindingRows.{
  finding_raised, finding_became_overdue, finding_escalated, finding_closure_submitted,
  finding_closure_rejected, finding_closed,
}
use agroassure.Projection.Inspections.{inspection_started, inspection_submitted}
use agroassure.Projection.Answers.{Cast, response_recorded}
use agroassure.Projection.Exhibits.{evidence_captured}
use agroassure.Projection.Certificates.{
  decision_recorded, certificate_authorised, certificate_revoked,
}

-- What the projector works with: the cast of PostgreSQL and the tables that it only reads.
pub record Setting : Type 0 where
  pub to_int : Text → Cast
  pub refs : References

-- `none` where the database raises an error; `now` is its clock.
unfoldable pub apply : Setting → ℕ → StoredEvent → Tables → Option Tables
apply x now e t = elim e.content [
  | Content.facility_registered p ↦ facility_registered x.refs e.aggregate_id e.recorded_at p t
  | Content.facility_updated p ↦ facility_updated e.aggregate_id p t
  | Content.inspection_started p ↦
      inspection_started x.refs e.aggregate_id e.actor_user_id e.device_id p t
  | Content.response_recorded p ↦
      response_recorded x.to_int x.refs e.event_id e.aggregate_id e.hlc p t
  | Content.evidence_captured p ↦ evidence_captured e.aggregate_id p t
  | Content.inspection_submitted p ↦ some (inspection_submitted x.refs e.aggregate_id p t)
  | Content.finding_raised p ↦ finding_raised x.refs e.aggregate_id e.recorded_at now p t
  | Content.finding_became_overdue ↦ some (finding_became_overdue e.aggregate_id t)
  | Content.finding_escalated p ↦ some (finding_escalated e.aggregate_id p t)
  | Content.finding_closure_submitted p ↦ some (finding_closure_submitted e.aggregate_id p t)
  | Content.finding_closure_rejected ↦ some (finding_closure_rejected e.aggregate_id t)
  | Content.finding_closed p ↦ finding_closed x.refs e.aggregate_id p t
  | Content.decision_recorded p ↦ decision_recorded x.refs p t
  | Content.certificate_authorised p ↦ certificate_authorised x.refs e.aggregate_id p t
  | Content.certificate_revoked ↦ some (certificate_revoked e.aggregate_id t)
  | Content.other_content ↦ some t
]

-- The cursor: the place of the last event that was applied.
abbrev pub Place : Type 0
Place = ℕ × Text

abbrev pub place_of : StoredEvent → Place
place_of e = (e.recorded_at, e.event_id)

unfoldable pub compare_place : Place → Place → Ordering
compare_place a b = elim (compare a.0 b.0) [
  | Ordering.lt ↦ Ordering.lt
  | Ordering.gt ↦ Ordering.gt
  | Ordering.eq ↦ text_compare a.1 b.1
]

abbrev is_less : Ordering → Bool
is_less o = elim o [ Ordering.lt ↦ true | _ ↦ false ]

-- (e.recorded_at, e.event_id) > (c.at, c.id), with -infinity where there is no cursor yet.
abbrev pub is_after : Option Place → StoredEvent → Bool
is_after none e = true
is_after (some c) e = is_less (compare_place c (place_of e))

-- The tables, the cursor, and the event store with its rows in the order of their places.
pub record Database : Type 0 where
  pub tables : Tables
  pub cursor : Option Place
  pub events : List StoredEvent

unfoldable pub lag : Database → ℕ
lag db = length (filter (is_after db.cursor) db.events)

unfoldable pub next_batch : ℕ → Database → List StoredEvent
next_batch limit db = take limit (filter (is_after db.cursor) db.events)

-- The end of a run: the count of events that were applied, or the event at which the database raised
-- an error, whose transaction is rolled back.
pub data Run : Type 0 where
  applied : ℕ → Database → Run
  stopped : StoredEvent → Database → Run

unfoldable pub apply_one : Setting → ℕ → StoredEvent → Database → Option Database
apply_one x now e db = elim (apply x now e db.tables) [
  | none ↦ none
  | some t ↦ some (record db { tables = t; cursor = some (place_of e) })
]

unfoldable pub apply_batch : Setting → ℕ → List StoredEvent → ℕ → Database → Run
apply_batch x now [] n db = applied n db
apply_batch x now (e ∷ es) n db = elim (apply_one x now e db) [
  | none ↦ stopped e db
  | some db' ↦ apply_batch x now es (n + 1) db'
]

-- `none` where the fuel ends before the loop.
unfoldable pub apply_pending : Setting → ℕ → ℕ → ℕ → ℕ → Database → Option Run
apply_pending x now batch_size zero n db = none
apply_pending x now batch_size (suc fuel) n db = elim (next_batch batch_size db) [
  | [] ↦ some (applied n db)
  | e ∷ es ↦ elim (apply_batch x now (e ∷ es) n db) [
    | stopped e' db' ↦ some (stopped e' db')
    | applied n' db' ↦ elim (ltb (length (e ∷ es)) batch_size) [
      | true ↦ some (applied n' db')
      | false ↦ apply_pending x now batch_size fuel n' db'
    ]
  ]
]

-- The rows that a rebuild deletes; the assignments stay.
unfoldable pub emptied : Database → Database
emptied db = record db {
  tables = record {
    facilities = [];
    inspections = [];
    responses = [];
    exhibits = [];
    findings = [];
    decisions = [];
    certificates = [];
    assignments = db.tables.assignments;
  };
  cursor = none;
}

unfoldable pub rebuild : Setting → ℕ → ℕ → ℕ → Database → Option Run
rebuild x now batch_size fuel db = apply_pending x now batch_size fuel 0 (emptied db)
