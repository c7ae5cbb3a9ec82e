-- ===== src/Lib.antt =====
-- AgroAssure: food-safety inspections recorded offline on a device and synchronised to a gateway.
--
-- An inspector's device authors events into an outbox (packages/field-core): each is hashed over its
-- canonical JSON, signed, stamped by a hybrid logical clock and linked to the one before by its hash.
-- The outbox is pushed in batches to the gateway (services/sync-gateway), which sorts a batch by
-- stamp, verifies hash, signature and link, and appends. What both share (packages/domain) is the
-- clock, the canonical form, the score of an inspection and the life of a finding.
--
-- The files, and the code that each is about:
--   Types         packages/domain/src/types.ts: the enumerations, and tests on them.
--   Scoring       packages/domain/src/scoring.ts: scoreInspection as score_inspection, its loop as
--                 tally, its band as band_of. Weights are natural numbers and a rating is a number
--                 of hundredths of a percent, as Math.round of 10000 * yes / answered gives it.
--   Risk          packages/domain/src/risk.ts: facilityRisk, and buildRiskSignals by its four parts.
--                 Points and weights are natural numbers.
--   FindingState  packages/domain/src/finding-state.ts. Times are milliseconds.
--   Hlc           packages/domain/src/hlc.ts: hlcSend as hlc_send over hlc_next, hlcReceive as
--                 hlc_receive over hlc_merge, and the stamp's codec.
--   Sort          Array.prototype.sort, a stable sort by a comparator.
--   Json          JavaScript values as far as JSON meets them; Json.Copy is JSON.parse after
--                 JSON.stringify.
--   Hashing       packages/domain/src/hashing.ts: canonicalize; Hashing.Base64 is its base64.
--   Events        packages/domain/src/events.ts, and signablePart and computeEventHash.
--   Ingest        services/sync-gateway/src/sync: ingest.service.ts over pg-event-store.ts. The tables
--                 are lists; a push is one run of ingest, which ends with a result or an error and
--                 the store that it leaves behind, so that what a refused batch leaves shows.
--   Appender      services/sync-gateway/src/events/event-appender.service.ts: the server's own events,
--                 appended to the store of Ingest in one transaction.
--   Projection    services/sync-gateway/src/projections/projector.service.ts: one function per handler
--                 (Facilities, Inspections, Answers, Exhibits, Assignments, FindingRows, Certificates)
--                 over the tables of db/migrations/0004_projections.sql, `none` where a constraint
--                 raises an error; Apply has the loop over the pending events and the rebuild. The
--                 event store is kept in the order of (recorded_at, event_id), in which it is read.
--                 Statuses, Places, Batches, Pending, LateCommit, LateSync and Replay hold
--                 the proofs.
--   FieldStore    packages/field-core/src/sqlite.ts: the tables as lists of rows; Visits has the
--                 inspections, answers and exhibits, Bundle what a bootstrap bundle fills
--                 (packages/domain/src/bootstrap.ts) and applyBootstrap of sync.ts, Refresh its proof.
--   FieldInspection
--                 packages/field-core/src/inspection.ts, and evaluateCheckin of geo.ts. Checklist has
--                 what a visit reads (rating, provisionalFindings, unanswered), Actions what it writes
--                 (start, recordResponse, captureEvidence, submit), as functions of the store that
--                 return the store also where they throw. Frames, Submission, Authoring, Completion,
--                 Recording and Refresh hold the proofs.
--   Outbox        packages/field-core/src/outbox.ts: EventAuthor.author and toDeviceEvent.
--   FieldSync     packages/field-core/src/sync.ts: drain, over a world that its transport and its file
--                 reader may change at every call; FieldSync.Gateway puts Ingest behind the transport.
--   Escalation    services/sync-gateway/src/workers/escalation.service.ts: the actions of one sweep, in
--                 order; act carries one out on the tables of Projection, as the event's handler does.
--                 Serving has the sweep at the gateway, whose appends are those of Appender.
--   Access        services/sync-gateway/src/common (rbac.ts, user-directory.ts as Access.Directory), and
--                 the tables of people, phones, invitations and requests to join, as a record of
--                 lists; a call answers with a result, and a refusal leaves the tables as they were.
--                 People and Phones have console/admin.service.ts, Codes invitations/invite-code.ts,
--                 Invitations (with Spending for activate) invitations/invitations.service.ts, and
--                 Registrations (with Asking, Verifying, Decisions) registration.service.ts, whose
--                 verify and resend are split where they have loaded the row. Rules and Rows are
--                 lemmas, the other children proofs.
--   Csv           apps/console/lib/csv.ts: parseCsvRecords with the variables of its loop as a record,
--                 parseSheet, toCsv and toDownloadCsv; RoundTrip, Delimiter and Download are proofs.
--   Prelude       shared names, lists over the native numbers, texts and decimals.
--   Tests         the theorems at concrete inputs, and runs of the definitions.
--
-- A text is the list of its UTF-16 code units. A number outside the range that a definition needs is
-- excluded by a hypothesis: stamps are about times and counters below 10^15. SHA-256, Ed25519 and the
-- decimal forms of Number() that are not plain digits are parameters, in the record Platform;
-- toUpperCase, trim, the dates of JavaScript and the distance of two points are others, in Runtime;
-- toLowerCase, SQL's lower, HMAC, the tokens of sessions and the settings of the server are in Config.
-- The clock and the random numbers are given with each call. Three definitions run on fuel: the
-- printing of a decimal, with the number plus one, and the loops over the batches of a drain and of
-- the projector, for which one more than the number of pending events is enough.
--
-- Not modelled: the user interfaces; sign-in, and the verification of tokens, which rests on
-- packages; what is sent by email and SMS; certificates; the console's other services, which are mostly
-- SQL; the layout of identifiers; and what is input and output, such as the storage of files.
pub mod Access
pub mod Appender
pub mod Csv
pub mod Escalation
pub mod Events
pub mod FieldInspection
pub mod FieldStore
pub mod FieldSync
pub mod FindingState
pub mod Hashing
pub mod Hlc
pub mod Ingest
pub mod Json
pub mod Outbox
pub mod Prelude
pub mod Projection
pub mod Risk
pub mod Scoring
pub mod Sort
pub mod Tests
pub mod Types
