-- ===== src/Outbox/Chain.antt =====
-- Authoring keeps the outbox one signed chain with a clock that only moves forward.
use mathlib.Core.Path.{subst}
use agroassure.Prelude.{
  ℕ, suc, ◌+◌, ◌<◌, ◌^◌, Bool, true, false, Option, none, some, List, [], ◌∷◌, ◌++◌, ◌≡◌, refl, sym,
  ap, ◌∙◌, arith, any, Text, text_eq, Option-cases, Bool-cases, inl, inr, ◌⊎◌,
}
use agroassure.Hlc.{HlcState, hlc_next, encode}
use agroassure.Hlc.Clock.{hlc_next-IsBefore, hlc_next_bounds}
use agroassure.Hashing.{Platform, is_undefined}
use agroassure.Events.Copy.{compute_event_hash-json_copy}
use agroassure.Json.Copy.{json_copy}
use agroassure.Events.{EventSignable, DeviceEvent, compute_event_hash}
use agroassure.FieldStore.{
  OutboxRow, pending, FieldStore, max_seq, next_seq, last_row, chain_head, clashes, append_outbox,
}
use agroassure.Outbox.{
  Signer, Request, authored, failed, bad_clock, not_canonical, constraint, Authored, resume_clock,
  signable_of, row_of, commit, author, to_device_event,
}
use agroassure.Outbox.Links.{
  Continues, Chained, more, row_hash, chain_head-Chained, clock_of, resume_clock-Chained,
}

abbrev pub holds_event : Text → List OutboxRow → Bool
holds_event event_id rows = any (λ r. text_eq event_id r.event_id) rows

-- A place after the last one of its aggregate is free.
clashes-max_seq :
    (row : OutboxRow) (rows : List OutboxRow)
    → max_seq row.aggregate_type row.aggregate_id rows < row.seq
    → any (clashes row) rows ≡ holds_event row.event_id rows
unfolding max_seq
clashes-max_seq row [] h = refl
clashes-max_seq row (r ∷ rows) h = let rest = clashes-max_seq row rows in ground arith

-- What author returns, seen as a relation to the store before it: on success the outbox has one row
-- more, which continues its chain and stands for the event that is returned.
pub record Grown (p : Platform) (signer : Signer) (actor_user_id : Text) (q : Request)
    (s : FieldStore) (rows : List OutboxRow) (n : ℕ) (c : HlcState) (head : Option Text)
    (e : DeviceEvent) (s' : FieldStore) : Type 0 where
  pub row : OutboxRow
  pub appended : s'.outbox ≡ s.outbox ++ row ∷ []
  pub chained : Chained p signer (rows ++ row ∷ []) (suc n) (hlc_next c q.now) (some e.event_hash)
  pub event : (row.event_id ≡ e.event_id) × (row.event_hash ≡ e.event_hash)
  pub queued : row.sync_state ≡ pending
  pub asked : (e.event_id ≡ q.event_id) × (e.event_type ≡ q.event_type) × (e.payload ≡ q.payload)
  pub asked_of : (e.aggregate_type ≡ q.aggregate_type) × (e.aggregate_id ≡ q.aggregate_id)
  pub asked_by : (e.actor_user_id ≡ some actor_user_id) × (e.device_id ≡ some signer.device_id)
  pub placed : e.seq ≡ max_seq q.aggregate_type q.aggregate_id s.outbox + 1
  pub stamped : e.hlc ≡ encode (hlc_next c q.now)
  pub stored :
      to_device_event row
      ≡ record e { signable = record (e.signable) { payload = json_copy e.payload } }
  pub dated : row.created_at ≡ q.created_at
  pub links : e.prev_hash ≡ head
  pub hashes : compute_event_hash p e.signable ≡ some e.event_hash
  pub signs : e.device_sig ≡ signer.sign e.event_hash

module _ (p : Platform) (signer : Signer) (actor_user_id : Text) (q : Request) where
  -- The event that authoring signs: it takes the next place of its aggregate and names the head.
  abbrev next_signable : FieldStore → HlcState → Option Text → EventSignable
  next_signable s c head =
      signable_of signer actor_user_id q (next_seq q.aggregate_type q.aggregate_id s) head
        (encode (hlc_next c q.now))

  abbrev pub AuthorPost :
      FieldStore → List OutboxRow → ℕ → HlcState → Option Text → Authored → Type 0
  AuthorPost s rows n c head (failed bad_clock) = ⊥
  AuthorPost s rows n c head (failed not_canonical) =
      compute_event_hash p (next_signable s c head) ≡ none
  AuthorPost s rows n c head (failed constraint) =
      (is_undefined q.payload ≡ true) ⊎ (holds_event q.event_id s.outbox ≡ true)
  AuthorPost s rows n c head (authored e s') = Grown p signer actor_user_id q s rows n c head e s'

  -- The three ways that commit fails, and the one that it succeeds.
  module _ (signable : EventSignable) (s : FieldStore) where
    abbrev event_of : Text → DeviceEvent
    event_of h = record { signable = signable; event_hash = h; device_sig = signer.sign h }

    commit_unhashed :
        compute_event_hash p signable ≡ none
        → commit p signer q.created_at signable s ≡ failed not_canonical
    unfolding commit
    commit_unhashed e = rw (commit, e)

    commit_unwritable :
        {h : Text}
        → compute_event_hash p signable ≡ some h
        → is_undefined signable.payload ≡ true
        → commit p signer q.created_at signable s ≡ failed constraint
    unfolding commit
    commit_unwritable e u = rw (commit, e, u)

    commit_clash :
        {h : Text}
        → compute_event_hash p signable ≡ some h
        → is_undefined signable.payload ≡ false
        → append_outbox (row_of (event_of h) signer.device_id q.created_at) s ≡ none
        → commit p signer q.created_at signable s ≡ failed constraint
    unfolding commit
    commit_clash e u a = rw (commit, e, u, a)

    commit_authored :
        {h : Text} {s' : FieldStore}
        → compute_event_hash p signable ≡ some h
        → is_undefined signable.payload ≡ false
        → append_outbox (row_of (event_of h) signer.device_id q.created_at) s ≡ some s'
        → commit p signer q.created_at signable s ≡ authored (event_of h) s'
    unfolding commit
    commit_authored e u a = rw (commit, e, u, a)

  append_outbox_refused :
      (row : OutboxRow) (s : FieldStore)
      → append_outbox row s ≡ none
      → max_seq row.aggregate_type row.aggregate_id s.outbox < row.seq
      → holds_event row.event_id s.outbox ≡ true
  unfolding append_outbox
  append_outbox_refused row s h free = ground (arith, clashes-max_seq row s.outbox free)

  append_outbox_lem :
      (row : OutboxRow) (s s' : FieldStore)
      → append_outbox row s ≡ some s'
      → (s'.outbox ≡ s.outbox ++ row ∷ []) × (any (clashes row) s.outbox ≡ false)
  unfolding append_outbox
  append_outbox_lem row s s' h = ground arith

  row-Continues :
      {rows : List OutboxRow} {n : ℕ} {c : HlcState} {head : Option Text} (s s' : FieldStore)
      (h : Text)
      → Chained p signer rows n c head
      → s.outbox ≡ rows
      → q.now < 10 ^ 15
      → let signable =
          signable_of signer actor_user_id q
            (next_seq q.aggregate_type q.aggregate_id s)
            head
            (encode (hlc_next c q.now)) in
        compute_event_hash p signable ≡ some h
        → is_undefined q.payload ≡ false
        → any (clashes (row_of (event_of signable s h) signer.device_id q.created_at)) s.outbox
          ≡ false
        → Continues p signer rows n c head
            (hlc_next c q.now)
            (row_of (event_of signable s h) signer.device_id q.created_at)
  unfolding row_of signable_of to_device_event next_seq
  row-Continues {c = c} {head = head} s s' h ch same now hashed defined fresh = record {
    stamped = refl;
    later = (hlc_next-IsBefore c q.now).0;
    in_time = omega (arith, hlc_next_bounds c q.now, clock_of p signer ch);
    counted = omega (arith, hlc_next_bounds c q.now, clock_of p signer ch);
    node = (hlc_next-IsBefore c q.now).2 ∙ (clock_of p signer ch).2;
    linked = refl;
    hashed =
        compute_event_hash-json_copy p
          (signable_of signer actor_user_id q (next_seq q.aggregate_type q.aggregate_id s) head
            (encode (hlc_next c q.now)))
          h defined hashed;
    signed = refl;
    next_in_aggregate =
        ap (λ (l : List OutboxRow). max_seq q.aggregate_type q.aggregate_id l + 1) same;
    fresh =
        subst
          (λ l.
            any
              (clashes (
                row_of
                  (event_of
                    (signable_of signer actor_user_id q (next_seq q.aggregate_type q.aggregate_id s)
                      head (encode (hlc_next c q.now)))
                    s h)
                  signer.device_id q.created_at))
              l
            ≡ false)
          same fresh;
  }

  grown :
      {rows : List OutboxRow} {n : ℕ} {c : HlcState} {head : Option Text} (s s' : FieldStore)
      (h : Text)
      → Chained p signer rows n c head
      → s.outbox ≡ rows
      → q.now < 10 ^ 15
      → compute_event_hash p (next_signable s c head) ≡ some h
      → is_undefined (next_signable s c head).payload ≡ false
      → append_outbox
          (row_of (event_of (next_signable s c head) s h) signer.device_id q.created_at)
          s
        ≡ some s'
      → Grown p signer actor_user_id q s rows n c head (event_of (next_signable s c head) s h) s'
  unfolding row_of signable_of next_seq to_device_event
  grown {c = c} {head = head} s s' h ch same now e u a =
      let row = row_of (event_of (next_signable s c head) s h) signer.device_id q.created_at in
      let (appended, fresh) = append_outbox_lem row s s' a in
      record {
        row = row;
        appended = appended;
        chained = more ch (row-Continues s s' h ch same now e u fresh);
        event = (refl, refl);
        queued = refl;
        asked = (refl, refl, refl);
        asked_of = (refl, refl);
        asked_by = (refl, refl);
        placed = refl;
        stamped = refl;
        stored = refl;
        dated = refl;
        links = refl;
        hashes = e;
        signs = refl;
      }

  clash :
      (s : FieldStore) (c : HlcState) (head : Option Text) (h : Text)
      → append_outbox
          (row_of (event_of (next_signable s c head) s h) signer.device_id q.created_at)
          s
        ≡ none
      → holds_event q.event_id s.outbox ≡ true
  unfolding row_of signable_of next_seq
  clash s c head h a =
      append_outbox_refused
        (row_of (event_of (next_signable s c head) s h) signer.device_id q.created_at) s a
        (omega arith)

  commit_post :
      {rows : List OutboxRow} {n : ℕ} {c : HlcState} {head : Option Text} (s : FieldStore)
      → Chained p signer rows n c head
      → s.outbox ≡ rows
      → q.now < 10 ^ 15
      → AuthorPost s rows n c head (
          commit p signer q.created_at
            (signable_of signer actor_user_id q
              (next_seq q.aggregate_type q.aggregate_id s)
              head
              (encode (hlc_next c q.now)))
            s)
  unfolding signable_of
  commit_post {rows} {n} {c} {head} s ch same now =
      elim (Option-cases (compute_event_hash p signable)) [
        | inl e ↦ subst Post (sym (commit_unhashed signable s e)) e
        | inr (h, e) ↦ elim (Bool-cases (is_undefined signable.payload)) [
          | inl u ↦ subst Post (sym (commit_unwritable signable s e u)) (inl u)
          | inr u ↦
              elim (Option-cases
                (append_outbox (row_of (event_of signable s h) signer.device_id q.created_at) s)) [
                  | inl a ↦
                      subst Post (sym (commit_clash signable s e u a)) (inr (clash s c head h a))
                  | inr (s', a) ↦
                      subst Post (sym (commit_authored signable s e u a))
                        (grown s s' h ch same now e u a)
                ]
        ]
      ]
    where
      signable : EventSignable
      signable = next_signable s c head

      Post : Authored → Type 0
      Post r = AuthorPost s rows n c head r

-- From an outbox that is one signed chain, with a clock that only moves forward and gap-free places
-- in each aggregate, authoring appends one pending row, which reads back as the event that it
-- returns with the JSON copy of its payload, and the outbox is such a chain again. The event has the
-- id, type, payload and aggregate that were asked for, names the person and the signing device,
-- takes the next place of its aggregate and the clock's next stamp, links to the head and is hashed
-- and signed. It throws only where the payload has no canonical text or is undefined, or the outbox
-- holds the new event id already. The chain is shorter than 10^15 events, and the device's clock is
-- before the year 33658.
pub author_lem :
    (p : Platform) (signer : Signer) (actor_user_id : Text) (q : Request) (s : FieldStore) (n : ℕ)
    (c : HlcState) (head : Option Text)
    → Chained p signer s.outbox n c head
    → n < 10 ^ 15
    → q.now < 10 ^ 15
    → AuthorPost p signer actor_user_id q s s.outbox n c head (author p signer actor_user_id q s)
author_lem p signer actor_user_id q s n c head ch short now =
    subst Post
      (sym (
        author_resumes (resume_clock-Chained p signer s ch refl short)
          (chain_head_lem s (chain_head-Chained p signer ch))))
      (commit_post p signer actor_user_id q s ch refl now)
  where
    Post : Authored → Type 0
    Post r = AuthorPost p signer actor_user_id q s s.outbox n c head r

    chain_head_lem : (s : FieldStore) → row_hash (last_row s.outbox) ≡ head → chain_head s ≡ head
    chain_head_lem s e = unfold chain_head in e

    author_resumes :
        resume_clock p signer s ≡ some c
        → chain_head s ≡ head
        → author p signer actor_user_id q s
          ≡ commit p signer q.created_at (next_signable p signer actor_user_id q s c head) s
    author_resumes r e = unfold author in rw (author, r, e)
