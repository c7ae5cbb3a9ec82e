-- ===== src/FieldSync/Drain.antt =====
-- The whole drain: the batches, then the evidence and the pull, which leave the outbox alone.
use mathlib.Core.Path.{subst}
use agroassure.Prelude.{
  ℕ, ◌<◌, Option, none, some, List, [], ◌∷◌, map, ◌≡◌, refl, sym, ap, ◌∙◌, arith, Text, length,
  filter,
}
use agroassure.FieldStore.{
  EvidenceRow, FieldStore, is_pending, pending_count, set_cursor, pending_evidence,
  mark_evidence_uploaded, update_prior_finding_status,
}
use agroassure.FieldSync.{
  DrainDeps, DrainResult, Pushed, push_loop, upload_one, upload_all, PulledEvent,
  apply_server_event, apply_pulled, pull_events, finish_drain, drain,
}
use agroassure.FieldSync.Acks.{settled}
use agroassure.FieldSync.Drained.{AcksPushed, Settles, Emptied, push_loop-Emptied}

apply_server_event-outbox :
    (e : PulledEvent) (s : FieldStore) → (apply_server_event e s).outbox ≡ s.outbox
unfolding apply_server_event update_prior_finding_status
apply_server_event-outbox e s = ground arith

apply_pulled-outbox :
    (es : List PulledEvent) (s : FieldStore) → (apply_pulled es s).outbox ≡ s.outbox
unfolding apply_pulled
apply_pulled-outbox [] s = refl
apply_pulled-outbox (e ∷ es) s =
    apply_pulled-outbox es (apply_server_event e s) ∙ apply_server_event-outbox e s

module _ {W : Type 0} (deps : DrainDeps W) where
  upload_one-outbox :
      (e : EvidenceRow) (w : W) (s : FieldStore) (n : ℕ)
      → (upload_one deps e (w, s, n)).1.outbox ≡ s.outbox
  unfolding upload_one mark_evidence_uploaded
  upload_one-outbox e w s n = ground arith

  upload_all-outbox :
      (es : List EvidenceRow) (state : W × FieldStore × ℕ)
      → (upload_all deps es state).1.outbox ≡ state.1.outbox
  unfolding upload_all
  upload_all-outbox [] state = refl
  upload_all-outbox (e ∷ es) state =
      upload_all-outbox es (upload_one deps e state) ∙ upload_one-outbox e state.0 state.1 state.2

  pull_events-outbox :
      (pushed uploaded : ℕ) (w : W) (s : FieldStore)
      → ((pull_events deps pushed uploaded w s).1.outbox ≡ s.outbox)
        × ((pull_events deps pushed uploaded w s).0.blocked ≡ none)
  unfolding pull_events set_cursor
  pull_events-outbox pushed uploaded w s = grind (arith, apply_pulled-outbox)

  finish_drain-outbox :
      (out : Pushed W)
      → ((finish_drain deps out).1.outbox ≡ out.store.outbox)
        × ((finish_drain deps out).0.blocked ≡ none)
  unfolding finish_drain
  finish_drain-outbox out =
      let state = upload_all deps (pending_evidence 20 out.store) (out.world, out.store, 0) in
      let pulled = pull_events-outbox out.events_pushed state.2 state.0 state.1 in
      (pulled.0 ∙ upload_all-outbox _ (out.world, out.store, 0), pulled.1)

-- What a drain with this fuel leaves: it ends; a message that blocks it was thrown by the transport,
-- else no event is pending; and of the outbox only the states of rows have changed.
pub record Drained {W : Type 0} (deps : DrainDeps W) (device_id : Text) (fuel : ℕ) (w : W)
    (s : FieldStore) : Type 0 where
  pub result : DrainResult
  pub store : FieldStore
  pub world : W
  pub ends : drain deps device_id fuel w s ≡ some (result, store, world)
  pub settles : Settles deps device_id result.blocked store
  pub rows_kept : map settled store.outbox ≡ map settled s.outbox

pending_count-outbox :
    (s s' : FieldStore) → s'.outbox ≡ s.outbox → pending_count s' ≡ pending_count s
unfolding pending_count
pending_count-outbox s s' same = ap (λ rows. length (filter is_pending rows)) same

drained :
    {W : Type 0} (deps : DrainDeps W) (device_id : Text) (fuel : ℕ) (w : W) (s : FieldStore)
    (out : Pushed W)
    → push_loop deps device_id fuel w s 0 ≡ some out
    → Emptied deps device_id s out
    → (blocked : Option Text) → out.blocked ≡ blocked
    → Drained deps device_id fuel w s
unfolding drain finish_drain
drained deps device_id fuel w s out found emptied (some message) e = record {
  result = record {
    events_pushed = out.events_pushed;
    evidence_uploaded = 0;
    events_pulled = 0;
    blocked = some message;
  };
  store = out.store;
  world = out.world;
  ends = rw (drain, found, e);
  settles = subst (λ b. Settles deps device_id b out.store) e emptied.settles;
  rows_kept = emptied.rows_kept;
}
drained deps device_id fuel w s out found emptied none e =
    let left = finish_drain-outbox deps out in
    let nothing_left : pending_count out.store ≡ 0 =
      subst (λ b. Settles deps device_id b out.store) e emptied.settles in
    record {
      result = (finish_drain deps out).0;
      store = (finish_drain deps out).1;
      world = (finish_drain deps out).2;
      ends = rw (drain, found, e);
      settles =
          subst (λ b. Settles deps device_id b (finish_drain deps out).1) (sym left.1)
            (pending_count-outbox out.store _ left.0 ∙ nothing_left);
      rows_kept = ap (map settled) left.0 ∙ emptied.rows_kept;
    }

-- With more fuel than pending events, and a server that acknowledges what it accepts, the drain
-- ends. A message that blocks it was thrown by the transport; if there is none, no event is left
-- pending. No row of the outbox is lost, reordered or changed but for its state.
pub drain-Drained :
    {W : Type 0} (deps : DrainDeps W) (device_id : Text) (fuel : ℕ) (w : W) (s : FieldStore)
    → AcksPushed deps device_id
    → pending_count s < fuel
    → Drained deps device_id fuel w s
drain-Drained deps device_id fuel w s acks enough =
    let (out, found, emptied) = push_loop-Emptied deps device_id acks fuel w s 0 enough in
    drained deps device_id fuel w s out found emptied out.blocked refl
