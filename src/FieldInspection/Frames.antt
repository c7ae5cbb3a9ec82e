-- ===== src/FieldInspection/Frames.antt =====
-- What an authoring run leaves alone in the store: everything but the outbox, which only grows.
use mathlib.Core.Path.{ap₂, subst}
use mathlib.Core.List.{append_assoc, append-nil, map-append}
use agroassure.Prelude.{
  ℕ, suc, Option, none, some, List, [], ◌∷◌, ◌++◌, map, length, replicate, ◌≡◌, refl, sym, ap, ◌∙◌,
  arith, Text, codes, Option-cases, Bool-cases, inl, inr,
}
use agroassure.Json.{Json}
use agroassure.Hashing.{is_undefined, Platform}
use agroassure.FindingState.{due_date_for, default_sla}
use agroassure.Events.{DeviceEvent, EventSignable, compute_event_hash}
use agroassure.Outbox.{
  Signer, Request, Authored, AuthorError, bad_clock, authored, failed, commit, author, row_of,
  signable_of, resume_clock,
}
use agroassure.FieldStore.{OutboxRow, LocalInspection, FieldStore, append_outbox}
use agroassure.FieldInspection.{
  Kit, Tick, ProvisionalFinding, not_authored, Result, ok, raised, Visit,
}
use agroassure.FieldInspection.Actions.{authored_as, raise_findings}
use agroassure.FieldInspection.Payloads.{finding_json}

-- s' is s with rows of these event types at the end of its outbox.
pub record Adds (s : FieldStore) (types : List Text) (s' : FieldStore) : Type 0 where
  pub rows : List OutboxRow
  pub same_else : s' ≡ record s { outbox = s.outbox ++ rows }
  pub typed : map (λ (r : OutboxRow). r.event_type) rows ≡ types

pub Adds-refl : (s : FieldStore) → Adds s [] s
Adds-refl s = record {
  rows = [];
  same_else = ap (λ (l : List OutboxRow). record s { outbox = l }) (sym (append-nil s.outbox));
  typed = refl;
}

pub Adds-trans :
    {s t u : FieldStore} {before after : List Text}
    → Adds s before t
    → Adds t after u
    → Adds s (before ++ after) u
Adds-trans {s} {t} {u} a b = record {
  rows = a.rows ++ b.rows;
  same_else =
      b.same_else
      ∙ (ap (λ (x : FieldStore). record x { outbox = x.outbox ++ b.rows }) a.same_else
          ∙ ap (λ (l : List OutboxRow). record s { outbox = l })
              (append_assoc s.outbox a.rows b.rows));
  typed = map-append (λ (r : OutboxRow). r.event_type) a.rows b.rows ∙ ap₂ ◌++◌ a.typed b.typed;
}

append_outbox-frame :
    (row : OutboxRow) (s s' : FieldStore)
    → append_outbox row s ≡ some s'
    → s' ≡ record s { outbox = s.outbox ++ row ∷ [] }
unfolding append_outbox
append_outbox-frame row s s' h = ground arith

commit-Adds :
    (p : Platform) (signer : Signer) (at : ℕ) (signable : EventSignable) (s s' : FieldStore)
    (e : DeviceEvent)
    → commit p signer at signable s ≡ authored e s'
    → Adds s (signable.event_type ∷ []) s'
unfolding commit row_of
commit-Adds p signer at signable s s' e h = elim (Option-cases (compute_event_hash p signable)) [
  | inl none_hash ↦ ground (arith, none_hash)
  | inr (event_hash, hashed) ↦
      let event : DeviceEvent = record {
        signable = signable;
        event_hash = event_hash;
        device_sig = signer.sign event_hash;
      } in
      let row = row_of event signer.device_id at in
      elim (Bool-cases (is_undefined signable.payload)) [
        | inl u ↦ ground (arith, hashed, u)
        | inr u ↦ elim (Option-cases (append_outbox row s)) [
          | inl refused ↦ ground (arith, hashed, u, refused)
          | inr (t, appended) ↦ record {
            rows = row ∷ [];
            same_else = append_outbox-frame row s s' (appended ∙ ap some (ground arith));
            typed = refl;
          }
        ]
      ]
]

failed-ne :
    {a : Authored} {why : AuthorError} {e : DeviceEvent} {s : FieldStore}
    → a ≡ authored e s
    → a ≡ failed why
    → ⊥
failed-ne h k = cc

author-Adds :
    (p : Platform) (signer : Signer) (actor_user_id : Text) (q : Request) (s s' : FieldStore)
    (e : DeviceEvent)
    → author p signer actor_user_id q s ≡ authored e s'
    → Adds s (q.event_type ∷ []) s'
unfolding signable_of author
author-Adds p signer actor_user_id q s s' e h = elim (Option-cases (resume_clock p signer s)) [
  | inl none_clock ↦ absurd (failed-ne {why = bad_clock} h (rw (author, none_clock)))
  | inr (clock, resumed) ↦ commit-Adds p signer q.created_at _ s s' e (rw (author, resumed) at h)
]

-- What a visit asks author for.
abbrev pub asked_of : Text → Text → Text → Json → Tick → Request
asked_of aggregate_type aggregate_id event_type payload tick = record {
  aggregate_type = aggregate_type;
  aggregate_id = aggregate_id;
  event_type = event_type;
  payload = payload;
  now = tick.now;
  event_id = tick.event_id;
  created_at = tick.created_at;
}

-- An outcome that added one row, or the error that author gave for the request, which leaves the store
-- as it was.
abbrev pub Authors : Kit → Request → FieldStore → Result DeviceEvent × FieldStore → Type 0
Authors kit q s (ok e, t) = Adds s (q.event_type ∷ []) t
Authors kit q s (raised e, t) =
    (t ≡ s)
    × (why : AuthorError) × (e ≡ not_authored why)
    × (author kit.platform kit.signer kit.actor_user_id q s ≡ failed why)

pub authored_as-Authors :
    (kit : Kit) (aggregate_type aggregate_id event_type : Text) (payload : Json) (tick : Tick)
    (s : FieldStore)
    → Authors kit
        (asked_of aggregate_type aggregate_id event_type payload tick)
        s
        (authored_as kit aggregate_type aggregate_id event_type payload tick s)
unfolding authored_as
authored_as-Authors kit aggregate_type aggregate_id event_type payload tick s =
    by_outcome (author kit.platform kit.signer kit.actor_user_id request s) refl
  where
    request : Request
    request = asked_of aggregate_type aggregate_id event_type payload tick

    by_outcome :
        (r : Authored)
        → author kit.platform kit.signer kit.actor_user_id request s ≡ r
        → Authors kit request s
            (elim r [ authored e s' ↦ (ok e, s') | failed why ↦ (raised (not_authored why), s) ])
    by_outcome (authored e s') h =
        author-Adds kit.platform kit.signer kit.actor_user_id request s s' e h
    by_outcome (failed why) h = (refl, why, refl, h)

-- An outcome that added rows of these event types, where it is no error.
abbrev pub Added {ℓ} : {A : Type ℓ} → FieldStore → List Text → Result A × FieldStore → Type 0
Added s types (ok a, s') = Adds s types s'
Added s types (raised e, s') = (ts : List Text) × Adds s ts s'

Added-of_Authors :
    (kit : Kit) (q : Request) (s : FieldStore) (x : Result DeviceEvent × FieldStore)
    → Authors kit q s x
    → Added s (q.event_type ∷ []) x
Added-of_Authors kit q s (ok e, t) h = h
Added-of_Authors kit q s (raised e, t) h = ([], subst (Adds s []) (sym h.0) (Adds-refl s))

pub authored_as-Added :
    (kit : Kit) (aggregate_type aggregate_id event_type : Text) (payload : Json) (tick : Tick)
    (s : FieldStore)
    → Added s
        (event_type ∷ [])
        (authored_as kit aggregate_type aggregate_id event_type payload tick s)
authored_as-Added kit aggregate_type aggregate_id event_type payload tick s =
    Added-of_Authors kit (asked_of aggregate_type aggregate_id event_type payload tick) s _
      (authored_as-Authors kit aggregate_type aggregate_id event_type payload tick s)

-- A further step after one that added rows.
module _ {ℓ κ} {A : Type ℓ} {B : Type κ} (f : A → Visit B) (s : FieldStore)
    (before after : List Text) where
  Added-then :
      (t : FieldStore) (r : Result B × FieldStore)
      → Adds s before t
      → Added t after r
      → Added s (before ++ after) r
  Added-then t (ok b, u) h k = Adds-trans h k
  Added-then t (raised e, u) h (ts, k) = (before ++ ts, Adds-trans h k)

  pub Added-bind :
      (x : Result A × FieldStore)
      → Added {A = A} s before x
      → ((a : A) (t : FieldStore) → Added t after (f a t))
      → Added {A = B} s
          (before ++ after)
          (let (r, t) = x in elim r [ ok a ↦ f a t | raised e ↦ (raised e, t) ])
  Added-bind (ok a, t) h k = Added-then t (f a t) h (k a t)
  Added-bind (raised e, t) h k = h

abbrev pub raised_types : ℕ → List Text
raised_types n = replicate n (codes "FindingRaised")

pub raise_findings-Added :
    (kit : Kit) (i : LocalInspection) (raised_on : Option ℕ) (ticks : ℕ → Tick) (index : ℕ)
    (findings : List ProvisionalFinding) (s : FieldStore)
    → Added s
        (raised_types (length findings))
        (raise_findings kit i raised_on ticks index findings s)
unfolding raise_findings
raise_findings-Added kit i raised_on ticks index [] s = Adds-refl s
raise_findings-Added kit i none ticks index (f ∷ fs) s = ([], Adds-refl s)
raise_findings-Added kit i (some raised_on) ticks index (f ∷ fs) s =
    Added-bind _ s (codes "FindingRaised" ∷ []) (raised_types (length fs)) _
      (authored_as-Added kit (codes "finding") (ticks index).fresh_id (codes "FindingRaised")
        (finding_json i.id i.reference index f
          (kit.runtime.iso_date (due_date_for f.severity raised_on default_sla)))
        (ticks index) s)
      (λ e t. raise_findings-Added kit i (some raised_on) ticks (suc index) fs t)
