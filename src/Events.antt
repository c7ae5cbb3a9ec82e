-- ===== src/Events.antt =====
-- packages/domain/src/events.ts and hashing.ts: an event, the part of it that is hashed and signed,
-- and its hash.
pub mod Copy
use agroassure.Prelude.{ℕ, Bool, Option, none, some, Text, codes, text_eq, decimal}
use agroassure.Json.{Json, null, number, text, object, end, field}
use agroassure.Hashing.{Platform, canonicalize, option_map}

pub record EventSignable : Type 0 where
  pub event_id : Text
  pub aggregate_type : Text
  pub aggregate_id : Text
  pub seq : ℕ
  pub event_type : Text
  pub payload : Json
  pub hlc : Text
  pub prev_hash : Option Text
  pub device_id : Option Text
  pub actor_user_id : Option Text

pub record DeviceEvent : Type 0 where
  pub signable : EventSignable
  pub open signable use *
  pub event_hash : Text
  pub device_sig : Text

abbrev nullable : Option Text → Json
nullable none = null
nullable (some t) = text t

unfoldable pub signable_part : EventSignable → Json
signable_part e = object (
    field (codes "eventId") (text e.event_id) (
      field (codes "aggregateType") (text e.aggregate_type) (
        field (codes "aggregateId") (text e.aggregate_id) (
          field (codes "seq") (number (decimal e.seq)) (
            field (codes "eventType") (text e.event_type) (
              field (codes "payload") e.payload (
                field (codes "hlc") (text e.hlc) (
                  field (codes "prevHash") (nullable e.prev_hash) (
                    field (codes "deviceId") (nullable e.device_id)
                      (field (codes "actorUserId") (nullable e.actor_user_id) end))))))))))

-- `none` where canonicalize throws.
unfoldable pub compute_event_hash : Platform → EventSignable → Option Text
compute_event_hash p e = option_map p.sha256_hex (canonicalize (signable_part e))

-- `none` where computing the hash throws.
unfoldable pub event_hash_matches : Platform → DeviceEvent → Option Bool
event_hash_matches p e =
    option_map (λ recomputed. text_eq recomputed e.event_hash) (compute_event_hash p e.signable)
