-- ===== src/FieldSync.antt =====
-- packages/field-core/src/sync.ts: draining the outbox and the evidence, and pulling.
pub mod Acks
pub mod Drained
pub mod Drain
pub mod Gateway
use agroassure.Prelude.{
  ℕ, zero, suc, ◌+◌, Bool, true, false, ◌&&◌, Option, none, some, List, [], ◌∷◌, map, length, ltb,
  if◌then◌else◌, Text, codes, text_eq,
}
use agroassure.Json.{Json}
use agroassure.Events.{DeviceEvent}
use agroassure.FieldStore.{
  EvidenceRow, FieldStore, pending_events, mark_acked, cursor, set_cursor, pending_evidence,
  mark_evidence_uploaded, update_prior_finding_status,
}
use agroassure.Outbox.{to_device_event}

pub record PushAck : Type 0 where
  pub acked : List Text
  pub rejected : List Text
  pub server_cursor : Text

pub record PulledEvent : Type 0 where
  pub event_id : Text
  pub aggregate_type : Text
  pub aggregate_id : Text
  pub event_type : Text
  pub payload : Json

pub record Pulled : Type 0 where
  pub events : List PulledEvent
  pub next_cursor : Text

-- What a call answers, or the message of what it throws.
pub data Answer (A : Type 0) : Type 0 where
  answered : A → Answer A
  thrown : Text → Answer A

-- The transport and the file system, over a world that each call may change. An upload answers
-- whether the object is locked.
pub record DrainDeps (W : Type 0) : Type 0 where
  pub push_events : W → Text → List DeviceEvent → Answer PushAck × W
  pub upload_evidence : W → EvidenceRow → List ℕ → Answer Bool × W
  pub pull : W → Text → Answer Pulled × W
  pub read_file : W → Text → Answer (List ℕ) × W

pub record DrainResult : Type 0 where
  pub events_pushed : ℕ
  pub evidence_uploaded : ℕ
  pub events_pulled : ℕ
  pub blocked : Option Text

abbrev pub pull_cursor : Text
pull_cursor = codes "server"

abbrev pub push_batch : ℕ
push_batch = 100

abbrev pub nothing_acked : Text
nothing_acked = codes "the server acknowledged nothing in this batch"

-- What the loop does with an acknowledgement: `||` passes over an empty text.
unfoldable pub after_ack : PushAck → FieldStore → FieldStore
after_ack ack s =
    let marked = mark_acked ack.acked s in
    set_cursor pull_cursor
      (if text_eq ack.server_cursor [] then cursor pull_cursor marked else ack.server_cursor) marked

-- Where the loop over the batches ends.
pub record Pushed (W : Type 0) : Type 0 where
  pub world : W
  pub store : FieldStore
  pub events_pushed : ℕ
  pub blocked : Option Text

-- `none` where the fuel ends before the loop.
unfoldable pub push_loop :
    {W : Type 0} → DrainDeps W → Text → ℕ → W → FieldStore → ℕ → Option (Pushed W)
push_loop deps device_id zero w s pushed = none
push_loop deps device_id (suc fuel) w s pushed = elim (pending_events push_batch s) [
  | [] ↦ some (record { world = w; store = s; events_pushed = pushed; blocked = none })
  | r ∷ rs ↦
      let (answer, w') = deps.push_events w device_id (map to_device_event (r ∷ rs)) in
      elim answer [
        | thrown message ↦
            some (record { world = w'; store = s; events_pushed = pushed; blocked = some message })
        | answered ack ↦
            let s' = after_ack ack s in
            let pushed' = pushed + length ack.acked in
            elim ack.acked [
              | [] ↦ some (record {
                world = w';
                store = s';
                events_pushed = pushed';
                blocked = some nothing_acked;
              })
              | id ∷ ids ↦ elim (ltb (length (r ∷ rs)) push_batch) [
                | true ↦
                    some
                      (record { world = w'; store = s'; events_pushed = pushed'; blocked = none })
                | false ↦ push_loop deps device_id fuel w' s' pushed'
              ]
            ]
      ]
]

-- One file: read, upload, and mark it once the server has locked it. What is thrown leaves it.
unfoldable pub upload_one :
    {W : Type 0} → DrainDeps W → EvidenceRow → W × FieldStore × ℕ → W × FieldStore × ℕ
upload_one deps e (w, s, n) =
    let (read, w') = deps.read_file w e.local_uri in
    elim read [
      | thrown message ↦ (w', s, n)
      | answered bytes ↦
          let (stored, w'') = deps.upload_evidence w' e bytes in
          elim stored [
            | thrown message ↦ (w'', s, n)
            | answered false ↦ (w'', s, n)
            | answered true ↦ (w'', mark_evidence_uploaded e.evidence_id s, n + 1)
          ]
    ]

unfoldable pub upload_all :
    {W : Type 0} → DrainDeps W → List EvidenceRow → W × FieldStore × ℕ → W × FieldStore × ℕ
upload_all deps [] state = state
upload_all deps (e ∷ es) state = upload_all deps es (upload_one deps e state)

unfoldable pub apply_server_event : PulledEvent → FieldStore → FieldStore
apply_server_event event s =
    if text_eq event.aggregate_type (codes "finding")
    then (if text_eq event.event_type (codes "FindingBecameOverdue")
        then update_prior_finding_status event.aggregate_id (codes "overdue") s
        else if text_eq event.event_type (codes "FindingEscalated")
        then update_prior_finding_status event.aggregate_id (codes "escalated") s
        else if text_eq event.event_type (codes "FindingClosureSubmitted")
        then update_prior_finding_status event.aggregate_id (codes "awaiting_verification") s
        else if text_eq event.event_type (codes "FindingClosed")
        then update_prior_finding_status event.aggregate_id (codes "closed") s
        else s)
    else s

unfoldable pub apply_pulled : List PulledEvent → FieldStore → FieldStore
apply_pulled [] s = s
apply_pulled (e ∷ es) s = apply_pulled es (apply_server_event e s)

-- The pull, with the figures of what went before it.
unfoldable pub pull_events :
    {W : Type 0} → DrainDeps W → ℕ → ℕ → W → FieldStore → DrainResult × FieldStore × W
pull_events deps pushed uploaded w s =
    let result : ℕ → DrainResult = λ n. record {
      events_pushed = pushed;
      evidence_uploaded = uploaded;
      events_pulled = n;
      blocked = none;
    } in
    let (answer, w') = deps.pull w (cursor pull_cursor s) in
    elim answer [
      | thrown message ↦ (result 0, s, w')
      | answered pulled ↦
          let s' = apply_pulled pulled.events s in
          (
            result (length pulled.events),
            (if text_eq pulled.next_cursor []
                then s'
                else set_cursor pull_cursor pulled.next_cursor s'),
            w',
          )
    ]

-- The end of drain: the evidence, at most 20 files, and then the pull.
unfoldable pub finish_drain : {W : Type 0} → DrainDeps W → Pushed W → DrainResult × FieldStore × W
finish_drain deps out =
    let (w, s, uploaded) =
      upload_all deps (pending_evidence 20 out.store) (out.world, out.store, 0) in
    pull_events deps out.events_pushed uploaded w s

unfoldable pub drain :
    {W : Type 0} → DrainDeps W → Text → ℕ → W → FieldStore → Option (DrainResult × FieldStore × W)
drain deps device_id fuel w s = elim (push_loop deps device_id fuel w s 0) [
  | none ↦ none
  | some out ↦ elim out.blocked [
    | some message ↦ some (
      record {
        events_pushed = out.events_pushed;
        evidence_uploaded = 0;
        events_pulled = 0;
        blocked = some message;
      },
      out.store,
      out.world,
    )
    | none ↦ some (finish_drain deps out)
  ]
]
