-- ===== src/Appender/Appended.antt =====
-- What the server's appender adds to the event store.
use mathlib.Core.List.{append-nil, append_assoc}
use agroassure.Prelude.{
  ℕ, ◌+◌, Bool, true, false, ◌||◌, Option, none, some, List, [], ◌∷◌, ◌++◌, ◌≡◌, refl, sym, ap, ◌∙◌,
  arith, any, any-append, or_left, or_right, Text, text_eq, text_eq_refl,
}
use agroassure.Hashing.{is_undefined, Platform}
use agroassure.Hlc.{HlcState, hlc_next, encode}
use agroassure.Hlc.Clock.{IsBefore, hlc_next-IsBefore}
use agroassure.Events.{EventSignable, DeviceEvent, compute_event_hash, event_hash_matches}
use agroassure.Ingest.{EventStore, event_exists, row_refused, same_place, known_user}
use agroassure.Appender.{
  AppendRequest, Server, max_place, server_signable, server_event, insert_event, next_signable,
  append_in, append_rows, ended, append_all,
}
use agroassure.Appender.Places.{free_above}

-- What a request needs: a person on file, a payload that canonicalize takes and that is not
-- undefined, and a new id.
abbrev pub HasHash : Platform → AppendRequest → Type 0
HasHash p r =
    (seq : ℕ) (stamp : Text)
    → (hash : Text) × (compute_event_hash p (server_signable r seq stamp) ≡ some hash)

abbrev pub is_id : Text → AppendRequest → Bool
is_id id r = text_eq id r.event_id

abbrev pub Ready : Platform → EventStore → List AppendRequest → Type 0
Ready p s [] = Unit
Ready p s (r ∷ rs) =
    (known_user s.users r.actor_user_id ≡ true)
    × HasHash p r
    × (is_undefined r.payload ≡ false)
    × (event_exists s r.event_id ≡ false)
    × (any (is_id r.event_id) rs ≡ false)
    × Ready p s rs

-- A row that is added to those in `old`: it is its request with the clock's next stamp, has a matching
-- hash, no part in the chain of a device, and a place that no row before it has.
abbrev pub RowOf : Platform → HlcState → List DeviceEvent → AppendRequest → DeviceEvent → Type 0
RowOf p clock old r e =
    (e.signable ≡ server_signable r e.seq (encode (hlc_next clock r.now)))
    × IsBefore clock (hlc_next clock r.now)
    × (event_hash_matches p e ≡ some true)
    × ((e.prev_hash ≡ none) × (e.device_id ≡ none))
    × (any (same_place e) old ≡ false)

-- The rows that are added, one after another.
abbrev pub Added :
    Platform
    → HlcState
    → List DeviceEvent
    → List AppendRequest
    → List DeviceEvent
    → HlcState
    → Type 0
Added p clock old [] [] end = end ≡ clock
Added p clock old [] (e ∷ es) end = ⊥
Added p clock old (r ∷ rs) [] end = ⊥
Added p clock old (r ∷ rs) (e ∷ es) end =
    RowOf p clock old r e × Added p (hlc_next clock r.now) (old ++ e ∷ []) rs es end

or_false : (a b : Bool) → a ≡ false → b ≡ false → (a || b) ≡ false
or_false a b h k = ground arith

-- A row with a new place and a new id is not refused.
inserted :
    (s : EventStore) (e : DeviceEvent)
    → is_undefined e.payload ≡ false
    → event_exists s e.event_id ≡ false
    → any (same_place e) s.events ≡ false
    → known_user s.users e.actor_user_id ≡ true
    → e.device_id ≡ none
    → insert_event s e ≡ some (record s { events = s.events ++ e ∷ [] })
unfolding insert_event row_refused
inserted s e given new free known nobody =
    rw (insert_event, new, row_refused, given, free, known, nobody) refl

-- The store stays ready for the other requests.
Ready-after :
    (p : Platform) (s : EventStore) (e : DeviceEvent) (rs : List AppendRequest)
    → any (is_id e.event_id) rs ≡ false
    → Ready p s rs
    → Ready p (record s { events = s.events ++ e ∷ [] }) rs
unfolding event_exists
Ready-after p s e [] h r = tt
Ready-after p s e (q ∷ rs) h (known, hashed, given, new, other, r) = (
  known,
  hashed,
  given,
  any-append (λ (f : DeviceEvent). text_eq f.event_id q.event_id) s.events (e ∷ [])
      ∙ or_false _ _ new (or_false _ false (or_left _ _ h) refl),
  other,
  Ready-after p s e rs (or_right _ _ h) r,
)

free_next :
    (r : AppendRequest) (clock : HlcState) (s : EventStore) (hash : Text)
    → any (same_place (server_event (next_signable r clock s) hash)) s.events ≡ false
unfolding server_signable
free_next r clock s hash =
    free_above (server_event (next_signable r clock s) hash) s.events (ground arith)

hash_matches :
    (p : Platform) (e : EventSignable) (hash : Text)
    → compute_event_hash p e ≡ some hash
    → event_hash_matches p (server_event e hash) ≡ some true
unfolding event_hash_matches
hash_matches p e hash h = rw (event_hash_matches, h, text_eq_refl hash) refl

rows_lem :
    (p : Platform) (rs : List AppendRequest) (clock : HlcState) (s : EventStore)
    → Ready p s rs
    → (es : List DeviceEvent) × (end : HlcState) × (append_rows p rs clock s
        ≡ (end, some (record s { events = s.events ++ es })))
      × Added p clock s.events rs es end
unfolding append_rows append_in server_signable
rows_lem p [] clock s r =
    ([], clock, ap (λ l. (clock, some (record s { events = l }))) (sym (append-nil s.events)), refl)
rows_lem p (r ∷ rs) clock s (known, hashed, given, new, other, ready) =
    let sent = hlc_next clock r.now in
    let (hash, h) = hashed (max_place r.aggregate_type r.aggregate_id s.events + 1) (encode sent) in
    let e = server_event (next_signable r sent s) hash in
    let (es, end, ran, added) =
      rows_lem p rs sent (record s { events = s.events ++ e ∷ [] })
        (Ready-after p s e rs other ready) in
    (
      e ∷ es,
      end,
      rw (append_rows, append_in, h, inserted s e given new (free_next r sent s hash) known refl)
          (ran
            ∙ ap (λ l. (end, some (record s { events = l }))) (append_assoc s.events (e ∷ []) es)),
      (
        (
          refl,
          (hlc_next-IsBefore clock r.now).0,
          hash_matches p (next_signable r sent s) hash h,
          (refl, refl),
          free_next r sent s hash,
        ),
        added,
      ),
    )

pub append_all_lem :
    (p : Platform) (rs : List AppendRequest) (server : Server)
    → Ready p server.store rs
    → (es : List DeviceEvent) × (end : HlcState) × (append_all p rs server ≡ (
      true,
      record { clock = end; store = record (server.store) { events = server.store.events ++ es } },
    ))
      × Added p server.clock server.store.events rs es end
unfolding append_all
append_all_lem p rs server ready =
    let (es, end, ran, added) = rows_lem p rs server.clock server.store ready in
    (es, end, ap (ended server) ran, added)

-- Where a request fails, the transaction leaves the store as it was.
pub append_all_atomic :
    (p : Platform) (rs : List AppendRequest) (server : Server)
    → (append_all p rs server).0 ≡ false
    → (append_all p rs server).1.store ≡ server.store
unfolding append_all
append_all_atomic p rs server h = kept (append_rows p rs server.clock server.store) h
  where
    kept :
        (o : HlcState × Option EventStore)
        → (ended server o).0 ≡ false
        → (ended server o).1.store ≡ server.store
    kept (c, none) h = refl
    kept (c, some s) h = absurd (cc h)
