-- ===== src/FieldSync/Drained.antt =====
-- The drain ends, and leaves no event pending unless the transport failed.
use mathlib.Core.Path.{subst}
use agroassure.Prelude.{
  ℕ, zero, suc, ◌+◌, ◌<◌, min, true, false, Option, none, some, List, [], ◌∷◌, map, ◌≡◌, refl, sym,
  ap, ◌∙◌, arith, length, length-take, All, Text, ltb, Bool-cases, inl, inr, filter,
}
use agroassure.Events.{DeviceEvent}
use agroassure.FieldStore.{OutboxRow, is_pending, FieldStore, pending_events, pending_count}
use agroassure.Outbox.{to_device_event}
use agroassure.FieldSync.{
  PushAck, Answer, answered, thrown, DrainDeps, push_batch, after_ack, Pushed, push_loop,
}
use agroassure.FieldSync.Acks.{holds, settled, settled-after_ack, pending_count-after_ack}

-- A server that acknowledges each event that it accepts, as the gateway does.
abbrev pub AcksPushed : {W : Type 0} → DrainDeps W → Text → Type 0
AcksPushed {W} deps device_id =
    (w : W) (events : List DeviceEvent) (ack : PushAck)
    → (deps.push_events w device_id events).0 ≡ answered ack
    → All (λ e. holds ack.acked e.event_id ≡ true) events

-- The transport threw this message at some push.
abbrev pub Threw : {W : Type 0} → DrainDeps W → Text → Text → Type 0
Threw {W} deps device_id message =
    (w : W) × (events : List DeviceEvent) × ((deps.push_events w device_id events).0
      ≡ thrown message)

-- A blocked drain has the transport's message; else nothing is pending.
abbrev pub Settles : {W : Type 0} → DrainDeps W → Text → Option Text → FieldStore → Type 0
Settles deps device_id none s = pending_count s ≡ 0
Settles deps device_id (some message) s = Threw deps device_id message

pub record Emptied {W : Type 0} (deps : DrainDeps W) (device_id : Text) (s : FieldStore)
    (out : Pushed W) : Type 0 where
  pub settles : Settles deps device_id out.blocked out.store
  pub rows_kept : map settled out.store.outbox ≡ map settled s.outbox

module _ {W : Type 0} (deps : DrainDeps W) (device_id : Text)
    (acks : AcksPushed deps device_id) where
  acks_rows :
      (ids : List Text) (rows : List OutboxRow)
      → All (λ e. holds ids e.event_id ≡ true) (map to_device_event rows)
      → All (λ r. holds ids r.event_id ≡ true) rows
  unfolding to_device_event
  acks_rows ids [] h = tt
  acks_rows ids (r ∷ rows) h = (h.0, acks_rows ids rows h.1)

  pending_count-pending_events :
      (s : FieldStore) → length (pending_events push_batch s) ≡ min push_batch (pending_count s)
  unfolding pending_events pending_count
  pending_count-pending_events s = length-take push_batch (filter is_pending s.outbox)

  abbrev pub Post : FieldStore → Option (Pushed W) → Type 0
  Post s r = (out : Pushed W) × (r ≡ some out) × Emptied deps device_id s out

  covered :
      (w : W) (s : FieldStore) (rows : List OutboxRow) (ack : PushAck)
      → pending_events push_batch s ≡ rows
      → (deps.push_events w device_id (map to_device_event rows)).0 ≡ answered ack
      → All (λ r. holds ack.acked r.event_id ≡ true) (pending_events push_batch s)
  covered w s rows ack same answer =
      subst (All (λ r. holds ack.acked r.event_id ≡ true)) (sym same)
        (acks_rows ack.acked rows (acks w (map to_device_event rows) ack answer))

  -- The rounds of the loop: nothing left, a throw, the last batch, and a full one.
  module _ (fuel : ℕ) (w : W) (s : FieldStore) (n : ℕ) where
    loop_empty :
        pending_events push_batch s ≡ []
        → push_loop deps device_id (suc fuel) w s n
          ≡ some (record { world = w; store = s; events_pushed = n; blocked = none })
    unfolding push_loop
    loop_empty e = rw (push_loop, e)

    module _ (r : OutboxRow) (rs : List OutboxRow)
        (same : pending_events push_batch s ≡ r ∷ rs) where
      next_world : W
      next_world = (deps.push_events w device_id (map to_device_event (r ∷ rs))).1

      loop_thrown :
          (message : Text)
          → (deps.push_events w device_id (map to_device_event (r ∷ rs))).0 ≡ thrown message
          → push_loop deps device_id (suc fuel) w s n
            ≡ some (record {
              world = next_world;
              store = s;
              events_pushed = n;
              blocked = some message;
            })
      unfolding push_loop next_world
      loop_thrown message e = rw (push_loop, same, e)

      abbrev ack_of : Text → List Text → List Text → Text → PushAck
      ack_of id ids rejected server_cursor = record {
        acked = id ∷ ids;
        rejected = rejected;
        server_cursor = server_cursor;
      }

      module _ (id : Text) (ids rejected : List Text) (server_cursor : Text)
          (answer : (deps.push_events w device_id (map to_device_event (r ∷ rs))).0
            ≡ answered (ack_of id ids rejected server_cursor)) where
        loop_last :
            ltb (length (r ∷ rs)) push_batch ≡ true
            → push_loop deps device_id (suc fuel) w s n
              ≡ some (record {
                world = next_world;
                store = after_ack (ack_of id ids rejected server_cursor) s;
                events_pushed = n + length (id ∷ ids);
                blocked = none;
              })
        unfolding push_loop next_world
        loop_last short = rw (push_loop, same, answer, short)

        loop_more :
            ltb (length (r ∷ rs)) push_batch ≡ false
            → push_loop deps device_id (suc fuel) w s n
              ≡ push_loop deps device_id fuel next_world
                  (after_ack (ack_of id ids rejected server_cursor) s)
                  (n + length (id ∷ ids))
        unfolding push_loop next_world
        loop_more full = rw (push_loop, same, answer, full)

  Post-more :
      (s s' : FieldStore) (r : Option (Pushed W))
      → map settled s'.outbox ≡ map settled s.outbox
      → Post s' r
      → Post s r
  Post-more s s' r kept (out, found, emptied) =
      (out, found, record { settles = emptied.settles; rows_kept = emptied.rows_kept ∙ kept })

  module _ (fuel : ℕ)
      (later : (w : W) (s : FieldStore) (n : ℕ)
        → pending_count s < fuel
        → Post s (push_loop deps device_id fuel w s n)) where
    acked_round :
        (w : W) (s : FieldStore) (n : ℕ) (r : OutboxRow) (rs : List OutboxRow)
        (acked rejected : List Text) (server_cursor : Text)
        → pending_events push_batch s ≡ r ∷ rs
        → (deps.push_events w device_id (map to_device_event (r ∷ rs))).0
          ≡ answered (record { acked = acked; rejected = rejected; server_cursor = server_cursor })
        → pending_count s < suc fuel
        → Post s (push_loop deps device_id (suc fuel) w s n)
    acked_round w s n r rs [] rejected server_cursor same answer h =
        absurd (let wrong = (acks w (map to_device_event (r ∷ rs)) _ answer).0 in cc)
    acked_round w s n r rs (id ∷ ids) rejected server_cursor same answer h =
        let ack = ack_of fuel w s n r rs same id ids rejected server_cursor in
        let fewer =
          pending_count-after_ack ack push_batch s (covered w s (r ∷ rs) ack same answer) in
        let size = ap length same in
        let counted = pending_count-pending_events s in
        elim (Bool-cases (ltb (length (r ∷ rs)) push_batch)) [
          | inl short ↦ (
            _,
            loop_last fuel w s n r rs same id ids rejected server_cursor answer short,
            record {
              settles = (let small = short in ground (arith, fewer, size, counted));
              rows_kept = settled-after_ack ack s;
            },
          )
          | inr full ↦
              subst (Post s)
                (sym (loop_more fuel w s n r rs same id ids rejected server_cursor answer full))
                (Post-more s (after_ack ack s) _ (settled-after_ack ack s) (
                  later _ (after_ack ack s) _
                    (let large = full in ground (arith, h, fewer, size, counted))))
        ]

    round :
        (w : W) (s : FieldStore) (n : ℕ) (rows : List OutboxRow) (answer : Answer PushAck)
        → pending_events push_batch s ≡ rows
        → (deps.push_events w device_id (map to_device_event rows)).0 ≡ answer
        → pending_count s < suc fuel
        → Post s (push_loop deps device_id (suc fuel) w s n)
    round w s n [] answer same e h =
        let size = ap length same in
        let counted = pending_count-pending_events s in
        (
          _,
          loop_empty fuel w s n same,
          record { settles = omega (arith, size, counted); rows_kept = refl },
        )
    round w s n (r ∷ rs) (thrown message) same e h = (
      _,
      loop_thrown fuel w s n r rs same message e,
      record { settles = (w, map to_device_event (r ∷ rs), e); rows_kept = refl },
    )
    round w s n (r ∷ rs) (answered ack) same e h =
        acked_round w s n r rs ack.acked ack.rejected ack.server_cursor same e h

  pub push_loop-Emptied :
      (fuel : ℕ) (w : W) (s : FieldStore) (n : ℕ)
      → pending_count s < fuel
      → Post s (push_loop deps device_id fuel w s n)
  push_loop-Emptied zero w s n h = absurd (omega (arith, h))
  push_loop-Emptied (suc fuel) w s n h =
      round fuel (push_loop-Emptied fuel) w s n (pending_events push_batch s) _ refl refl h
