-- ===== src/FieldSync/Gateway.antt =====
-- The device drains into the gateway: sync.ts against ingest.service.ts, with what lies between them
-- (the HTTP of transport.ts and sync.controller.ts) as the message that a refusal arrives with.
use mathlib.Core.Path.{subst}
use agroassure.Prelude.{
  ℕ, ◌<◌, Bool, true, List, [], ◌∷◌, ◌≡◌, ◌∙◌, arith, any, All, Text, text_eq, text_eq_refl,
}
use agroassure.Hashing.{Platform}
use agroassure.Events.{DeviceEvent}
use agroassure.FieldStore.{EvidenceRow, FieldStore, pending_count}
use agroassure.Sort.Laws.{any-permᴰ}
use agroassure.Ingest.{EventStore, IngestError, IngestResult, Outcome, ok, err, ingest}
use agroassure.Ingest.Evidence.{ids}
use agroassure.Ingest.Batch.{IngestPost, ingest_lem}
use agroassure.FieldSync.{PushAck, Pulled, Answer, answered, thrown, DrainDeps}
use agroassure.FieldSync.Acks.{holds}
use agroassure.FieldSync.Drained.{AcksPushed}
use agroassure.FieldSync.Drain.{Drained, drain-Drained}

-- Every event's id is among the ids.
holds-ids :
    (events : List DeviceEvent) (known : List Text)
    → ((id : Text) → any (text_eq id) (ids events) ≡ true → holds known id ≡ true)
    → All (λ e. holds known e.event_id ≡ true) events
holds-ids [] known h = tt
holds-ids (e ∷ events) known h = (
  h e.event_id (let same = text_eq_refl e.event_id in ground arith),
  holds-ids events known (λ id found. h id (ground arith)),
)

module _ (p : Platform) (latest_cursor : EventStore → Text) (message : IngestError → Text) where
  -- What the device hears of a push.
  abbrev pub push_answer : Outcome IngestResult × EventStore → Answer PushAck × EventStore
  push_answer (err error, s) = (thrown (message error), s)
  push_answer (ok r, s) = (
    answered (record { acked = r.acked; rejected = r.rejected; server_cursor = r.server_cursor }),
    s,
  )

  push_answer-holds :
      (device_id : Text) (events : List DeviceEvent) (s : EventStore)
      (r : Outcome IngestResult × EventStore) (ack : PushAck)
      → IngestPost p latest_cursor device_id events s r
      → (push_answer r).0 ≡ answered ack
      → All (λ e. holds ack.acked e.event_id ≡ true) events
  push_answer-holds device_id events s (err error, s') ack post e = absurd cc
  push_answer-holds device_id events s (ok r, s') ack post e =
      holds-ids events ack.acked (λ id found.
        let same : r.acked ≡ ack.acked = cc in
        subst (λ known. holds known id ≡ true) same
          (any-permᴰ (text_eq id) post.acknowledged ∙ found))

  -- The gateway behind the transport, whatever the rest of it does.
  abbrev pub gateway :
      (EventStore → EvidenceRow → List ℕ → Answer Bool × EventStore)
      → (EventStore → Text → Answer Pulled × EventStore)
      → (EventStore → Text → Answer (List ℕ) × EventStore)
      → DrainDeps EventStore
  gateway upload_evidence pull read_file = record {
    push_events = λ s device_id events. push_answer (ingest p latest_cursor device_id events s);
    upload_evidence = upload_evidence;
    pull = pull;
    read_file = read_file;
  }

  pub gateway-AcksPushed :
      (upload_evidence : EventStore → EvidenceRow → List ℕ → Answer Bool × EventStore)
      (pull : EventStore → Text → Answer Pulled × EventStore)
      (read_file : EventStore → Text → Answer (List ℕ) × EventStore) (device_id : Text)
      → AcksPushed (gateway upload_evidence pull read_file) device_id
  gateway-AcksPushed upload_evidence pull read_file device_id s events ack e =
      push_answer-holds device_id events s (ingest p latest_cursor device_id events s) ack
        (ingest_lem p latest_cursor device_id events s) e

-- Against the gateway's own ingest the drain ends, with more fuel than there are pending events: it
-- leaves no event pending, or is blocked by the message of a push that ingest refused. No row of the
-- outbox is lost, reordered or changed but for its state, whatever the uploads and the pull do.
pub drain-gateway :
    (p : Platform) (latest_cursor : EventStore → Text) (message : IngestError → Text)
    (upload_evidence : EventStore → EvidenceRow → List ℕ → Answer Bool × EventStore)
    (pull : EventStore → Text → Answer Pulled × EventStore)
    (read_file : EventStore → Text → Answer (List ℕ) × EventStore) (device_id : Text) (fuel : ℕ)
    (s : EventStore) (store : FieldStore)
    → pending_count store < fuel
    → Drained
        (gateway p latest_cursor message upload_evidence pull read_file)
        device_id
        fuel
        s
        store
drain-gateway p latest_cursor message upload_evidence pull read_file device_id fuel s store enough =
    drain-Drained (gateway p latest_cursor message upload_evidence pull read_file) device_id fuel s
      store (gateway-AcksPushed p latest_cursor message upload_evidence pull read_file device_id)
      enough
