-- ===== src/FieldInspection/Authoring.antt =====
-- When the device authors the events of a submission, and none of them fails.
use mathlib.Core.Path.{subst}
use agroassure.Prelude.{
  ℕ, suc, ◌+◌, ◌≤◌, ◌<◌, ◌^◌, Bool, false, ◌||◌, Option, none, some, List, [], ◌∷◌, ◌++◌, length,
  ◌≡◌, refl, sym, ap, ◌∙◌, arith, any-append, Text, text_eq, codes, inl, inr,
}
use agroassure.FindingState.{due_date_for, default_sla}
use agroassure.Json.{Json}
use agroassure.Hashing.{canonicalize, is_undefined}
use agroassure.Hlc.{HlcState, hlc_next, encode}
use agroassure.Scoring.{RatingResult}
use agroassure.Events.{DeviceEvent, signable_part, compute_event_hash}
use agroassure.Outbox.{
  Request, Authored, authored, failed, bad_clock, not_canonical, constraint, signable_of, author,
}
use agroassure.Outbox.Links.{Chained}
use agroassure.Outbox.Chain.{AuthorPost, holds_event, author_lem}
use agroassure.FieldStore.{OutboxRow, LocalInspection, FieldStore, next_seq}
use agroassure.FieldInspection.{
  Kit, Tick, SubmitInput, ProvisionalFinding, Result, ok, raised, Visit, not_authored,
}
use agroassure.FieldInspection.Payloads.{finding_json, submitted_json}
use agroassure.FieldInspection.Frames.{asked_of}
use agroassure.FieldInspection.Actions.{authored_as, raise_findings}

-- The draws of the device: each event gets an id of its own, before the year 33658.
pub record Draws (ticks : ℕ → Tick) : Type 0 where
  pub apart : (i j : ℕ) → i < j → text_eq (ticks j).event_id (ticks i).event_id ≡ false
  pub in_time : (i : ℕ) → (ticks i).now < 10 ^ 15

-- The outbox is one signed chain with room for m events, and the ids from the k-th on are new in it.
pub record HasRoom (kit : Kit) (ticks : ℕ → Tick) (k m : ℕ) (s : FieldStore) : Type 0 where
  pub size : ℕ
  pub clock : HlcState
  pub head : Option Text
  pub chain : Chained kit.platform kit.signer s.outbox size clock head
  pub short : size + m ≤ 10 ^ 15
  pub unused : (i : ℕ) → k ≤ i → holds_event (ticks i).event_id s.outbox ≡ false

-- A step that goes through, with what follows it.
pub bind-ok :
    {A B : Type 0} (f : A → Visit B) (Q : Result B × FieldStore → Type 0)
    (x : Result A × FieldStore) (a : A) (t : FieldStore)
    → x ≡ (ok a, t)
    → Q (f a t)
    → Q (let (r, t) = x in elim r [ ok a ↦ f a t | raised e ↦ (raised e, t) ])
bind-ok f Q x a t same q =
    subst (λ y. Q (let (r, t) = y in elim r [ ok a ↦ f a t | raised e ↦ (raised e, t) ])) (sym same)
      q

module _ (kit : Kit) (ticks : ℕ → Tick) (draws : Draws ticks) where
  abbrev asked : Text → Text → Text → Json → ℕ → Request
  asked aggregate_type aggregate_id event_type payload k =
      asked_of aggregate_type aggregate_id event_type payload (ticks k)

  -- Whatever place, link and stamp the event gets, it has a hash.
  abbrev IsHashed : Request → Type 0
  IsHashed q =
      (seq : ℕ) (link : Option Text) (stamp : Text)
      → (h : Text) × (compute_event_hash kit.platform
            (signable_of kit.signer kit.actor_user_id q seq link stamp)
          ≡ some h)

  neither : (a b : Bool) → a ≡ false → b ≡ false → (a || (b || false)) ≡ false
  neither a b h k = ground arith

  HasRoom-next :
      (k m : ℕ) (s t : FieldStore) (row : OutboxRow) (c : HlcState) (size : ℕ) (link : Option Text)
      → Chained kit.platform kit.signer (s.outbox ++ row ∷ []) (suc size) c link
      → suc size + m ≤ 10 ^ 15
      → ((i : ℕ) → k ≤ i → holds_event (ticks i).event_id s.outbox ≡ false)
      → row.event_id ≡ (ticks k).event_id
      → t.outbox ≡ s.outbox ++ row ∷ []
      → HasRoom kit ticks (suc k) m t
  HasRoom-next k m s t row c size link chain short unused named grew = record {
    size = suc size;
    clock = c;
    head = link;
    chain = subst (λ l. Chained kit.platform kit.signer l (suc size) c link) (sym grew) chain;
    short = short;
    unused = λ i h.
        ap (holds_event (ticks i).event_id) grew
        ∙ any-append (λ (r : OutboxRow). text_eq (ticks i).event_id r.event_id) s.outbox (row ∷ [])
        ∙ neither _ _ (unused i (omega arith))
            (ap (text_eq (ticks i).event_id) named ∙ draws.apart k i (omega arith));
  }

  -- What is asked for is authored.
  authored_as-goes :
      (aggregate_type aggregate_id event_type : Text) (payload : Json) (k m : ℕ) (s : FieldStore)
      → HasRoom kit ticks k (suc m) s
      → is_undefined payload ≡ false
      → IsHashed (asked aggregate_type aggregate_id event_type payload k)
      → (e : DeviceEvent) × (t : FieldStore) × (authored_as kit aggregate_type aggregate_id
            event_type payload
            (ticks k)
            s
          ≡ (ok e, t))
        × HasRoom kit ticks (suc k) m t
  unfolding authored_as
  authored_as-goes aggregate_type aggregate_id event_type payload k m s room given hashed =
      by_outcome (author kit.platform kit.signer kit.actor_user_id q s) (
        author_lem kit.platform kit.signer kit.actor_user_id q s room.size room.clock room.head
          room.chain (let h = room.short in omega arith) (draws.in_time k))
    where
      q : Request
      q = asked aggregate_type aggregate_id event_type payload k

      after : Authored → Result DeviceEvent × FieldStore
      after r = elim r [ authored e s' ↦ (ok e, s') | failed why ↦ (raised (not_authored why), s) ]

      by_outcome :
          (r : Authored)
          → AuthorPost kit.platform kit.signer kit.actor_user_id q s s.outbox room.size room.clock
              room.head r
          → (e : DeviceEvent) × (t : FieldStore) × (after r ≡ (ok e, t))
            × HasRoom kit ticks (suc k) m t
      by_outcome (authored e t) g = (
        e,
        t,
        refl,
        HasRoom-next k m s t g.row _ room.size _ g.chained (let h = room.short in omega arith)
            room.unused (g.event.0 ∙ g.asked.0) g.appended,
      )
      by_outcome (failed bad_clock) h = absurd h
      by_outcome (failed not_canonical) h =
          let (hash, same) =
            hashed (next_seq q.aggregate_type q.aggregate_id s) room.head
              (encode (hlc_next room.clock q.now)) in
          absurd (cc (h, same))
      by_outcome (failed constraint) (inl h) = absurd (cc (h, given))
      by_outcome (failed constraint) (inr h) =
          let new = room.unused k (omega arith) in absurd (cc (h, new))

  finding-IsHashed :
      (id reference due : Text) (index k : ℕ) (f : ProvisionalFinding) (aggregate_id : Text)
      → IsHashed (
          asked
            (codes "finding")
            aggregate_id
            (codes "FindingRaised")
            (finding_json id reference index f due)
            k)
  unfolding compute_event_hash signable_part canonicalize signable_of
  finding-IsHashed id reference due index k f aggregate_id seq none stamp = (_, refl)
  finding-IsHashed id reference due index k f aggregate_id seq (some head) stamp = (_, refl)

  submitted-IsHashed :
      (id : Text) (r : RatingResult) (count k : ℕ) (input : SubmitInput)
      → IsHashed (
          asked
            (codes "inspection")
            id
            (codes "InspectionSubmitted")
            (submitted_json r count input)
            k)
  unfolding compute_event_hash signable_part canonicalize signable_of
  submitted-IsHashed id r count k input seq none stamp = (_, refl)
  submitted-IsHashed id r count k input seq (some head) stamp = (_, refl)

  -- Every finding is raised, and one event more has room.
  pub raise_findings-goes :
      (i : LocalInspection) (raised_on k j : ℕ) (findings : List ProvisionalFinding)
      (s : FieldStore)
      → HasRoom kit ticks k (suc (length findings)) s
      → j ≡ k + length findings
      → (t : FieldStore) × (raise_findings kit i (some raised_on) ticks k findings s ≡ (ok tt, t))
        × HasRoom kit ticks j 1 t
  unfolding raise_findings
  raise_findings-goes i raised_on k j [] s room last =
      (s, refl, subst (λ n. HasRoom kit ticks n 1 s) (omega (arith, last)) room)
  raise_findings-goes i raised_on k j (f ∷ findings) s room last =
      let (e, t, ran, room') =
        authored_as-goes (codes "finding") (ticks k).fresh_id (codes "FindingRaised")
          (finding_json i.id i.reference k f
            (kit.runtime.iso_date (due_date_for f.severity raised_on default_sla)))
          k (suc (length findings)) s room refl
          (finding-IsHashed i.id i.reference
            (kit.runtime.iso_date (due_date_for f.severity raised_on default_sla)) k k f
            (ticks k).fresh_id) in
      let (u, done, room'') =
        raise_findings-goes i raised_on (suc k) j findings t room' (omega (arith, last)) in
      (
        u,
        bind-ok (λ _. raise_findings kit i (some raised_on) ticks (suc k) findings)
            (λ x. x ≡ (ok tt, u)) _ e t ran done,
        room'',
      )

  pub author_submission-goes :
      (id : Text) (r : RatingResult) (count k : ℕ) (input : SubmitInput) (s : FieldStore)
      → HasRoom kit ticks k 1 s
      → (e : DeviceEvent) × (t : FieldStore) × (authored_as kit
            (codes "inspection")
            id
            (codes "InspectionSubmitted")
            (submitted_json r count input)
            (ticks k)
            s
          ≡ (ok e, t))
  author_submission-goes id r count k input s room =
      let (e, t, ran, room') =
        authored_as-goes (codes "inspection") id (codes "InspectionSubmitted")
          (submitted_json r count input) k 0 s room refl (submitted-IsHashed id r count k input) in
      (e, t, ran)
