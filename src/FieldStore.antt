-- ===== src/FieldStore.antt =====
-- packages/field-core/src/sqlite.ts: the device's tables, each a list of its rows in the order of their
-- rowid, and the operations on the outbox, the evidence to upload and the cursors.
pub mod Visits
pub mod Bundle
pub mod Refresh
use agroassure.Prelude.{
  ℕ, ◌+◌, max, Bool, true, false, ◌&&◌, ◌||◌, Option, none, some, List, [], ◌∷◌, ◌++◌, map, filter,
  take, length, any, ◌==◌, if◌then◌else◌, Text, text_eq,
}
use agroassure.Json.{Json}
use agroassure.Types.{CheckpointResponse, RatingBand, FindingSeverity}

pub data SyncState : Type 0 where
  pending acked : SyncState

-- outbox_event. `payload_json` is the value that the JSON text of the column stands for.
pub record OutboxRow : Type 0 where
  pub event_id : Text
  pub aggregate_type : Text
  pub aggregate_id : Text
  pub seq : ℕ
  pub event_type : Text
  pub payload_json : Json
  pub hlc : Text
  pub prev_hash : Option Text
  pub event_hash : Text
  pub device_sig : Text
  pub actor_user_id : Option Text
  pub device_id : Text
  pub sync_state : SyncState
  pub created_at : ℕ

-- local_evidence; `uploaded` is its upload_state. Coordinates are texts here and below, since nothing
-- is computed with them.
pub record EvidenceRow : Type 0 where
  pub evidence_id : Text
  pub inspection_id : Text
  pub checkpoint_ref : Text
  pub sha256 : Text
  pub local_uri : Text
  pub mime : Text
  pub captured_at : Text
  pub lat : Text
  pub lng : Text
  pub accuracy_m : Option Text
  pub uploaded : Bool

-- prior_finding
pub record PriorFinding : Type 0 where
  pub id : Text
  pub facility_id : Text
  pub reference : Text
  pub summary : Text
  pub severity : Text
  pub status : Text
  pub due_date : Option Text

-- assigned_facility
pub record AssignedFacility : Type 0 where
  pub id : Text
  pub licence_number : Text
  pub facility_type : Text
  pub name : Text
  pub lga : Option Text
  pub reg_lat : Option Text
  pub reg_lng : Option Text
  pub reg_accuracy_m : Option Text
  pub assignment_reason : Option Text
  pub assignment_kind : Option Text
  pub due_by : Option Text

pub record Checkpoint : Type 0 where
  pub ordinal : ℕ
  pub prompt_en : Text
  pub weight : ℕ
  pub severity_on_fail : FindingSeverity
  pub allows_na : Bool

pub record Section : Type 0 where
  pub ordinal : ℕ
  pub checkpoints : List Checkpoint

-- instrument_version_local, with the structure that its JSON stands for and the bands in hundredths
-- of a percent.
pub record LocalVersion : Type 0 where
  pub id : Text
  pub instrument_id : Text
  pub facility_type : Text
  pub version_label : Text
  pub satisfactory_min : ℕ
  pub needs_improvement_min : ℕ
  pub structure_hash : Text
  pub sections : List Section

-- local_inspection
pub record LocalInspection : Type 0 where
  pub id : Text
  pub reference : Text
  pub facility_id : Text
  pub instrument_version_id : Text
  pub structure_hash : Text
  pub checkin_lat : Text
  pub checkin_lng : Text
  pub checkin_accuracy_m : Option Text
  pub checkin_distance_m : ℕ
  pub checkin_flagged : Bool
  pub is_submitted : Bool
  pub rating : Option (ℕ × RatingBand)
  pub inspector_signed_at : Option Text
  pub facility_signed_at : Option Text
  pub facility_rep_name : Option Text
  pub submitted_at : Option Text

-- local_response
pub record LocalResponse : Type 0 where
  pub id : Text
  pub inspection_id : Text
  pub checkpoint_ref : Text
  pub response : CheckpointResponse
  pub remark : Option Text
  pub weight : ℕ
  pub recorded_hlc : Text

pub record FieldStore : Type 0 where
  pub outbox : List OutboxRow
  pub evidence : List EvidenceRow
  pub prior_findings : List PriorFinding
  pub pull_cursors : List (Text × Text)
  pub facilities : List AssignedFacility
  pub versions : List LocalVersion
  pub inspections : List LocalInspection
  pub responses : List LocalResponse
  pub jurisdiction_code : Option Text

abbrev pub is_pending : OutboxRow → Bool
is_pending r = elim r.sync_state [ pending ↦ true | acked ↦ false ]

abbrev pub in_aggregate : Text → Text → OutboxRow → Bool
in_aggregate aggregate_type aggregate_id r =
    text_eq r.aggregate_type aggregate_type && text_eq r.aggregate_id aggregate_id

-- coalesce(max(seq), 0) over the rows of the aggregate
unfoldable pub max_seq : Text → Text → List OutboxRow → ℕ
max_seq aggregate_type aggregate_id [] = 0
max_seq aggregate_type aggregate_id (r ∷ rows) =
    let rest = max_seq aggregate_type aggregate_id rows in
    if in_aggregate aggregate_type aggregate_id r then max r.seq rest else rest

unfoldable pub next_seq : Text → Text → FieldStore → ℕ
next_seq aggregate_type aggregate_id s = max_seq aggregate_type aggregate_id s.outbox + 1

-- ORDER BY rowid DESC LIMIT 1
abbrev pub last_row : List OutboxRow → Option OutboxRow
last_row [] = none
last_row (r ∷ []) = some r
last_row (r ∷ q ∷ rows) = last_row (q ∷ rows)

unfoldable pub chain_head : FieldStore → Option Text
chain_head s = elim (last_row s.outbox) [ none ↦ none | some r ↦ some r.event_hash ]

unfoldable pub last_hlc : FieldStore → Option Text
last_hlc s = elim (last_row s.outbox) [ none ↦ none | some r ↦ some r.hlc ]

-- PRIMARY KEY (event_id) and UNIQUE (aggregate_type, aggregate_id, seq)
abbrev pub clashes : OutboxRow → OutboxRow → Bool
clashes a b =
    text_eq a.event_id b.event_id
    || (in_aggregate a.aggregate_type a.aggregate_id b && a.seq == b.seq)

-- `none` where SQLite raises a constraint error.
unfoldable pub append_outbox : OutboxRow → FieldStore → Option FieldStore
append_outbox row s =
    if any (clashes row) s.outbox then none else some (record s { outbox = s.outbox ++ row ∷ [] })

unfoldable pub pending_events : ℕ → FieldStore → List OutboxRow
pending_events limit s = take limit (filter is_pending s.outbox)

abbrev pub ack_row : Text → OutboxRow → OutboxRow
ack_row id r = if text_eq r.event_id id then record r { sync_state = acked } else r

unfoldable pub mark_acked : List Text → FieldStore → FieldStore
mark_acked [] s = s
mark_acked (id ∷ ids) s = mark_acked ids (record s { outbox = map (ack_row id) s.outbox })

unfoldable pub pending_count : FieldStore → ℕ
pending_count s = length (filter is_pending s.outbox)

abbrev not_uploaded : EvidenceRow → Bool
not_uploaded e = elim e.uploaded [ true ↦ false | false ↦ true ]

unfoldable pub pending_evidence : ℕ → FieldStore → List EvidenceRow
pending_evidence limit s = take limit (filter not_uploaded s.evidence)

unfoldable pub mark_evidence_uploaded : Text → FieldStore → FieldStore
mark_evidence_uploaded id s = record s {
  evidence =
      map
        (λ (e : EvidenceRow). if text_eq e.evidence_id id then record e { uploaded = true } else e)
        s.evidence;
}

unfoldable pub update_prior_finding_status : Text → Text → FieldStore → FieldStore
update_prior_finding_status finding_id status s = record s {
  prior_findings =
      map
        (λ (f : PriorFinding). if text_eq f.id finding_id then record f { status = status } else f)
        s.prior_findings;
}

abbrev lookup_cursor : Text → List (Text × Text) → Text
lookup_cursor name [] = []
lookup_cursor name ((n, c) ∷ rest) = if text_eq n name then c else lookup_cursor name rest

unfoldable pub cursor : Text → FieldStore → Text
cursor name s = lookup_cursor name s.pull_cursors

abbrev replace_cursor : Text → Text → List (Text × Text) → List (Text × Text)
replace_cursor name c [] = (name, c) ∷ []
replace_cursor name c ((n, d) ∷ rest) =
    if text_eq n name then (name, c) ∷ rest else (n, d) ∷ replace_cursor name c rest

unfoldable pub set_cursor : Text → Text → FieldStore → FieldStore
set_cursor name c s = record s { pull_cursors = replace_cursor name c s.pull_cursors }
