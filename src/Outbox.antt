-- ===== src/Outbox.antt =====
-- packages/field-core/src/outbox.ts: authoring an event onto the device's chain.
pub mod Links
pub mod Chain
use agroassure.Prelude.{ℕ, true, false, Option, none, some, List, [], if◌then◌else◌, Text, text_eq}
use agroassure.Json.{Json}
use agroassure.Json.Copy.{json_copy}
use agroassure.Hlc.{HlcState, hlc_init, hlc_next, encode, decode}
use agroassure.Hashing.{Platform, is_undefined}
use agroassure.Events.{EventSignable, DeviceEvent, compute_event_hash}
use agroassure.FieldStore.{
  OutboxRow, pending, FieldStore, next_seq, chain_head, last_hlc, append_outbox,
}

-- The device's key stays behind `sign`.
pub record Signer : Type 0 where
  pub device_id : Text
  pub sign : Text → Text

-- What one call is given: the four arguments of author, and what the clock and the random numbers
-- answer in it: the stamp's time, the new event id, and the time of the row.
pub record Request : Type 0 where
  pub aggregate_type : Text
  pub aggregate_id : Text
  pub event_type : Text
  pub payload : Json
  pub now : ℕ
  pub event_id : Text
  pub created_at : ℕ

-- What author throws: the last stamp does not decode, the payload has no canonical text, or the row
-- breaks a constraint of the table.
pub data AuthorError : Type 0 where
  bad_clock not_canonical constraint : AuthorError

pub data Authored : Type 0 where
  authored : DeviceEvent → FieldStore → Authored
  failed : AuthorError → Authored

-- The clock goes on from the last event, or starts.
unfoldable pub resume_clock : Platform → Signer → FieldStore → Option HlcState
resume_clock p signer s = elim (last_hlc s) [
  | none ↦ some (hlc_init signer.device_id)
  | some last ↦
      if text_eq last []
      then some (hlc_init signer.device_id)
      else elim (decode p.other_number last) [
        | none ↦ none
        | some h ↦ some (record h { node_id = signer.device_id })
      ]
]

unfoldable pub signable_of : Signer → Text → Request → ℕ → Option Text → Text → EventSignable
signable_of signer actor_user_id q seq prev_hash stamp = record {
  event_id = q.event_id;
  aggregate_type = q.aggregate_type;
  aggregate_id = q.aggregate_id;
  seq = seq;
  event_type = q.event_type;
  payload = q.payload;
  hlc = stamp;
  prev_hash = prev_hash;
  device_id = some signer.device_id;
  actor_user_id = some actor_user_id;
}

unfoldable pub row_of : DeviceEvent → Text → ℕ → OutboxRow
row_of e device_id created_at = record {
  event_id = e.event_id;
  aggregate_type = e.aggregate_type;
  aggregate_id = e.aggregate_id;
  seq = e.seq;
  event_type = e.event_type;
  payload_json = json_copy e.payload;
  hlc = e.hlc;
  prev_hash = e.prev_hash;
  event_hash = e.event_hash;
  device_sig = e.device_sig;
  actor_user_id = e.actor_user_id;
  device_id = device_id;
  sync_state = pending;
  created_at = created_at;
}

-- The end of author: hash, sign and append. JSON.stringify gives no text for an undefined payload,
-- which the column does not take.
unfoldable pub commit : Platform → Signer → ℕ → EventSignable → FieldStore → Authored
commit p signer created_at signable s = elim (compute_event_hash p signable) [
  | none ↦ failed not_canonical
  | some event_hash ↦
      let event : DeviceEvent = record {
        signable = signable;
        event_hash = event_hash;
        device_sig = signer.sign event_hash;
      } in
      elim (is_undefined signable.payload) [
        | true ↦ failed constraint
        | false ↦ elim (append_outbox (row_of event signer.device_id created_at) s) [
          | none ↦ failed constraint
          | some s' ↦ authored event s'
        ]
      ]
]

unfoldable pub author : Platform → Signer → Text → Request → FieldStore → Authored
author p signer actor_user_id q s = elim (resume_clock p signer s) [
  | none ↦ failed bad_clock
  | some clock ↦
      commit p signer q.created_at
        (signable_of signer actor_user_id q (next_seq q.aggregate_type q.aggregate_id s)
          (chain_head s) (encode (hlc_next clock q.now)))
        s
]

unfoldable pub to_device_event : OutboxRow → DeviceEvent
to_device_event row = record {
  signable = record {
    event_id = row.event_id;
    aggregate_type = row.aggregate_type;
    aggregate_id = row.aggregate_id;
    seq = row.seq;
    event_type = row.event_type;
    payload = row.payload_json;
    hlc = row.hlc;
    prev_hash = row.prev_hash;
    device_id = some row.device_id;
    actor_user_id = row.actor_user_id;
  };
  event_hash = row.event_hash;
  device_sig = row.device_sig;
}
