-- ===== src/Types.antt =====
-- packages/domain/src/types.ts: the shared vocabulary, as enumerations.
use agroassure.Prelude.{Bool, true, false}

pub data CheckpointResponse : Type 0 where
  yes_response no_response na : CheckpointResponse

pub data RatingBand : Type 0 where
  satisfactory needs_improvement critical_issues : RatingBand

pub data FindingSeverity : Type 0 where
  critical major minor : FindingSeverity

pub data FindingStatus : Type 0 where
  open_status overdue awaiting_verification escalated closed : FindingStatus

pub data CertificateStatus : Type 0 where
  valid revoked superseded : CertificateStatus

-- The `===` tests on the enumerations that the code makes.
abbrev pub is_na : CheckpointResponse → Bool
is_na na = true
is_na _ = false

abbrev pub is_yes : CheckpointResponse → Bool
is_yes yes_response = true
is_yes _ = false

abbrev pub is_critical : FindingSeverity → Bool
is_critical critical = true
is_critical _ = false

abbrev pub is_major : FindingSeverity → Bool
is_major major = true
is_major _ = false

abbrev pub status_eq : FindingStatus → FindingStatus → Bool
status_eq open_status open_status = true
status_eq overdue overdue = true
status_eq awaiting_verification awaiting_verification = true
status_eq escalated escalated = true
status_eq closed closed = true
status_eq _ _ = false
