-- ===== src/Escalation/Serving/Carried.antt =====
-- What a sweep leaves at the gateway, with ids of their own for its events.
use agroassure.Prelude.{
  ℕ, suc, ◌<◌, ◌≤◌, Bool, true, false, ◌||◌, none, List, [], ◌∷◌, ◌++◌, ◌≡◌, refl, sym, ap, ◌∙◌,
  arith, any-append, Text, text_eq,
}
use mathlib.Core.List.{append-nil, append_assoc}
use agroassure.Hashing.{Platform, canonicalize, is_undefined}
use agroassure.Hlc.{HlcState, hlc_next}
use mathlib.Core.Path.{subst}
use agroassure.Events.{EventSignable, DeviceEvent, signable_part, compute_event_hash}
use agroassure.Ingest.{EventStore, event_exists, known_user}
use agroassure.Appender.{AppendRequest, Server, server_signable, append_all}
use agroassure.Appender.Appended.{HasHash, Added, RowOf, append_all_lem}
use agroassure.Projection.{Tables}
use agroassure.Escalation.{Action, append_overdue, append_escalated, notify, act, act_all}
use agroassure.Escalation.Serving.{
  Notification, notice, Gateway, Draw, overdue_request, escalated_request, followed, perform,
  perform_all, requests, notices,
}

-- The draws from the n-th on are ids of their own.
pub record Fresh (draws : ℕ → Draw) (n : ℕ) (s : EventStore) : Type 0 where
  pub unused : (i : ℕ) → n ≤ i → event_exists s (draws i).0 ≡ false
  pub apart : (i k : ℕ) → n ≤ i → i < k → text_eq (draws i).0 (draws k).0 ≡ false

module _ (p : Platform) (iso : ℕ → Text) (draws : ℕ → Draw) where
  overdue_hashed :
      (id : Text) (at_time : ℕ) (draw : Draw) → HasHash p (overdue_request iso id at_time draw)
  unfolding compute_event_hash signable_part canonicalize server_signable
  overdue_hashed id at_time draw seq stamp = (_, refl)

  escalated_hashed :
      (id : Text) (at_time : ℕ) (to reason : Text) (draw : Draw)
      → HasHash p (escalated_request iso id at_time to reason draw)
  unfolding compute_event_hash signable_part canonicalize server_signable
  escalated_hashed id at_time to reason draw seq stamp = (_, refl)

  one_append :
      (r : AppendRequest) (server : Server)
      → HasHash p r
      → is_undefined r.payload ≡ false
      → known_user server.store.users r.actor_user_id ≡ true
      → event_exists server.store r.event_id ≡ false
      → (e : DeviceEvent) × (append_all p (r ∷ []) server ≡ (
        true,
        record {
          clock = hlc_next server.clock r.now;
          store = record (server.store) { events = server.store.events ++ e ∷ [] };
        },
      ))
        × RowOf p server.clock server.store.events r e
  one_append r server hashed given known new =
      let (es, last, ran, added) =
        append_all_lem p (r ∷ []) server (known, hashed, given, new, refl, tt) in
      only es last ran added
    where
      after : HlcState → List DeviceEvent → Bool × Server
      after c es = (
        true,
        record { clock = c; store = record (server.store) { events = server.store.events ++ es } },
      )

      only :
          (es : List DeviceEvent) (last : HlcState)
          → append_all p (r ∷ []) server ≡ after last es
          → Added p server.clock server.store.events (r ∷ []) es last
          → (e : DeviceEvent) × (append_all p (r ∷ []) server
              ≡ after (hlc_next server.clock r.now) (e ∷ []))
            × RowOf p server.clock server.store.events r e
      only [] last ran added = absurd added
      only (e ∷ []) last ran (row, same) = (e, ran ∙ ap (λ c. after c (e ∷ [])) same, row)
      only (e ∷ f ∷ es) last ran (row, none_left) = absurd none_left

  Fresh-next :
      (n : ℕ) (s : EventStore) (e : DeviceEvent)
      → e.event_id ≡ (draws n).0
      → Fresh draws n s
      → Fresh draws (suc n) (record s { events = s.events ++ e ∷ [] })
  unfolding event_exists
  Fresh-next n s e named f = record {
    unused = λ i h.
        any-append (λ (g : DeviceEvent). text_eq g.event_id (draws i).0) s.events (e ∷ [])
        ∙ neither _ _ (f.unused i (omega arith))
            (ap (λ t. text_eq t (draws i).0) named ∙ f.apart n i (omega arith) (omega arith));
    apart = λ i k h g. f.apart i k (omega arith) g;
  }
    where
      neither : (a b : Bool) → a ≡ false → b ≡ false → (a || (b || false)) ≡ false
      neither a b h k = ground arith

  -- What the actions leave where none of them throws.
  abbrev pub ended_with :
      Gateway → HlcState → List DeviceEvent → Tables → List Notification → Bool × Gateway
  ended_with g clock events t notes = (
    true,
    record {
      server = record { clock = clock; store = record (g.server.store) { events = events } };
      tables = t;
      notifications = notes;
    },
  )

  abbrev pub CarriedOut : ℕ → List Action → Gateway → Type 0
  CarriedOut n actions g =
      (es : List DeviceEvent) × (last : HlcState) × (perform_all p iso draws n actions g
        ≡ ended_with g last (g.server.store.events ++ es) (act_all actions g.tables)
            (g.notifications ++ notices actions))
      × Added p g.server.clock g.server.store.events (requests iso draws n actions) es last

  Fresh-later : (n : ℕ) (s : EventStore) → Fresh draws n s → Fresh draws (suc n) s
  Fresh-later n s f = record {
    unused = λ i h. f.unused i (omega arith);
    apart = λ i k h g. f.apart i k (omega arith) g;
  }

  -- An append, and the actions after it.
  append_first :
      (n : ℕ) (a : Action) (r : AppendRequest) (actions : List Action) (g : Gateway)
      → HasHash p r
      → is_undefined r.payload ≡ false
      → r.actor_user_id ≡ none
      → r.event_id ≡ (draws n).0
      → perform p iso a (draws n) g ≡ followed a g (append_all p (r ∷ []) g.server)
      → r ∷ requests iso draws (suc n) actions ≡ requests iso draws n (a ∷ actions)
      → notices actions ≡ notices (a ∷ actions)
      → Fresh draws n g.server.store
      → ((g' : Gateway) → Fresh draws (suc n) g'.server.store → CarriedOut (suc n) actions g')
      → CarriedOut n (a ∷ actions) g
  unfolding perform_all act_all server_signable
  append_first n a r actions g hashed given nobody named ran same same' f later =
      let (e, wrote, row) =
        one_append r g.server hashed given (ap (known_user g.server.store.users) nobody)
          (ap (event_exists g.server.store) named ∙ f.unused n (omega arith)) in
      let (es, last, ran', added) =
        later
          (record {
            server = record {
              clock = hlc_next g.server.clock r.now;
              store = record (g.server.store) { events = g.server.store.events ++ e ∷ [] };
            };
            tables = act a g.tables;
            notifications = g.notifications;
          })
          (Fresh-next n g.server.store e (ap (λ (x : EventSignable). x.event_id) row.0 ∙ named)
            f) in
      (
        e ∷ es,
        last,
        rw (ran, wrote)
            (ran'
              ∙ ap
                  (λ l.
                    ended_with g last l (act_all actions (act a g.tables))
                      (g.notifications ++ notices actions))
                  (append_assoc g.server.store.events (e ∷ []) es)
              ∙ ap
                  (λ ns.
                    ended_with g last (g.server.store.events ++ e ∷ es)
                      (act_all actions (act a g.tables)) (g.notifications ++ ns))
                  same'),
        subst (λ rs. Added p g.server.clock g.server.store.events rs (e ∷ es) last) same
            (row, added),
      )

  pub carried_out :
      (n : ℕ) (actions : List Action) (g : Gateway)
      → Fresh draws n g.server.store
      → CarriedOut n actions g
  unfolding perform_all act_all perform act
  carried_out n [] g f = (
    [],
    g.server.clock,
    ap (λ l. ended_with g g.server.clock l g.tables g.notifications)
          (sym (append-nil g.server.store.events))
        ∙ ap (λ ns. ended_with g g.server.clock (g.server.store.events ++ []) g.tables ns)
            (sym (append-nil g.notifications)),
    refl,
  )
  carried_out n (append_overdue id at_time ∷ actions) g f =
      append_first n (append_overdue id at_time) (overdue_request iso id at_time (draws n)) actions
        g (overdue_hashed id at_time (draws n)) refl refl refl refl refl refl f
        (carried_out (suc n) actions)
  carried_out n (append_escalated id at_time to reason ∷ actions) g f =
      append_first n (append_escalated id at_time to reason)
        (escalated_request iso id at_time to reason (draws n)) actions g
        (escalated_hashed id at_time to reason (draws n)) refl refl refl refl refl refl f
        (carried_out (suc n) actions)
  carried_out n (notify user_id d reason ∷ actions) g f =
      let (es, last, ran, added) =
        carried_out (suc n) actions
          (record g { notifications = g.notifications ++ notice user_id d reason ∷ [] })
          (Fresh-later n g.server.store f) in
      (
        es,
        last,
        ran
            ∙ ap (ended_with g last (g.server.store.events ++ es) (act_all actions g.tables))
                (append_assoc g.notifications (notice user_id d reason ∷ []) (notices actions)),
        added,
      )
