-- ===== src/Ingest/Stranded.antt =====
-- A batch that is refused half way keeps the events before the refusal, but not the head.
use agroassure.Prelude.{
  true, false, Option, none, some, [], ◌∷◌, ◌≡◌, ◌≢◌, sym, ap, ◌∙◌, arith, Text, text_eq_refl, inl,
  inr, Bool-cases,
}
use agroassure.Hashing.{Platform}
use agroassure.Events.{DeviceEvent}
use agroassure.Ingest.{
  EnrolledDevice, EventStore, IngestError, err, chain, get_device, event_exists, append_event,
  get_chain_head, order_events, check_event, option_text_eq, finish, ingest,
}
use agroassure.Ingest.Steps.{loop_stored, loop_refused, loop_append, ingest_ordered}
use agroassure.Ingest.Evidence.{append_event_lem, check_event_sound, option_text_eq_iff}
use agroassure.Ingest.Replay.{event_exists-stored}

-- An event that passes the checks at one head fails the last of them at any other.
check_event_elsewhere :
    (p : Platform) (device : EnrolledDevice) (h k : Option Text) (e : DeviceEvent)
    → check_event p device h e ≡ none
    → k ≢ h
    → check_event p device k e ≡ some (chain e.event_id)
unfolding check_event
check_event_elsewhere p device h k e c ne =
    let (authentic, names_h) = check_event_sound p device h e c in
    ground (
      arith,
      authentic.hashed,
      authentic.signed,
      text_eq_refl e.event_hash,
      differs e.prev_hash (λ same. ne (sym same ∙ names_h)),
    )
  where
    differs : (prev : Option Text) → prev ≢ k → option_text_eq prev k ≡ false
    differs prev apart = elim (Bool-cases (option_text_eq prev k)) [
      | inl same ↦ absurd (apart (option_text_eq_iff prev k same))
      | inr other ↦ other
    ]

-- The device's chain is at some head that is not yet the hash of `a`. A batch of `a` and an event
-- `b` that fails its checks is refused, but `a` stays stored. From then on the batch that the device
-- should have sent, `a` with its true successor `c`, is refused too: `a` is skipped as a replay
-- without moving the head, and `c` breaks the chain.
pub stranded :
    (p : Platform) (latest_cursor : EventStore → Text) (device_id : Text) (device : EnrolledDevice)
    (s s' : EventStore) (a b c : DeviceEvent) (error : IngestError)
    → get_device s device_id ≡ some device
    → device.active ≡ true
    → order_events p.other_number (a ∷ b ∷ []) ≡ some (a ∷ b ∷ [])
    → order_events p.other_number (a ∷ c ∷ []) ≡ some (a ∷ c ∷ [])
    → event_exists s a.event_id ≡ false
    → check_event p device (get_chain_head s device_id) a ≡ none
    → append_event s a ≡ some s'
    → event_exists s' b.event_id ≡ false
    → check_event p device (some a.event_hash) b ≡ some error
    → event_exists s' c.event_id ≡ false
    → check_event p device (some a.event_hash) c ≡ none
    → get_chain_head s device_id ≢ some a.event_hash
    → (ingest p latest_cursor device_id (a ∷ b ∷ []) s ≡ (err error, s'))
      × (ingest p latest_cursor device_id (a ∷ c ∷ []) s' ≡ (err (chain c.event_id), s'))
stranded p cursor device_id device s s' a b c error found active ab ac a_fresh a_ok a_stored b_fresh
      b_bad c_fresh c_ok behind =
    let head = get_chain_head s device_id in
    let (events, heads, devices, users) = append_event_lem s s' a a_fresh a_stored in
    let found' : get_device s' device_id ≡ some device = unfold get_device in rw devices found in
    let head' : get_chain_head s' device_id ≡ head = unfold get_chain_head in rw heads in
    (
      ingest_ordered p cursor device_id (a ∷ b ∷ []) s found active ab
          ∙ ap (finish cursor device_id) (
              loop_append p device a (b ∷ []) head [] s a_fresh a_ok a_stored
              ∙ loop_refused p device b [] (some a.event_hash) (a.event_id ∷ []) s' b_fresh b_bad),
      ingest_ordered p cursor device_id (a ∷ c ∷ []) s' found' active ac
          ∙ ap (finish cursor device_id) (
              loop_stored p device a (c ∷ []) (get_chain_head s' device_id) [] s'
                (event_exists-stored s s' a a_fresh a_stored)
              ∙ loop_refused p device c [] (get_chain_head s' device_id) (a.event_id ∷ []) s'
                  c_fresh
                  (check_event_elsewhere p device (some a.event_hash) (get_chain_head s' device_id)
                    c c_ok (λ e. behind (sym head' ∙ e)))),
    )
