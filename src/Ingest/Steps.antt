-- ===== src/Ingest/Steps.antt =====
-- One round of the loop of ingest, by what its tests answer.
use agroassure.Prelude.{
  arith, true, false, Option, none, some, List, [], ◌∷◌, ◌++◌, ◌≡◌, Text, inl, inr, Bool-cases,
  Option-cases,
}
use agroassure.Hashing.{Platform}
use agroassure.Events.{DeviceEvent}
use agroassure.Ingest.{
  ingest, get_device, get_chain_head, order_events, finish, unknown_device, inactive_device,
  bad_stamp, EnrolledDevice, EventStore, IngestError, row_error, event_exists, append_event, err,
  check_event, ingest_loop,
}

module _ (p : Platform) (device : EnrolledDevice) (e : DeviceEvent) (es : List DeviceEvent)
    (head : Option Text) (acked : List Text) (s : EventStore) where
  pub loop_stored :
      event_exists s e.event_id ≡ true
      → ingest_loop p device (e ∷ es) head acked s
        ≡ ingest_loop p device es head (acked ++ e.event_id ∷ []) s
  unfolding ingest_loop
  loop_stored h = rw (ingest_loop, h)

  pub loop_refused :
      {error : IngestError}
      → event_exists s e.event_id ≡ false
      → check_event p device head e ≡ some error
      → ingest_loop p device (e ∷ es) head acked s ≡ (err error, s)
  unfolding ingest_loop
  loop_refused h c = rw (ingest_loop, h, c)

  pub loop_row_error :
      event_exists s e.event_id ≡ false
      → check_event p device head e ≡ none
      → append_event s e ≡ none
      → ingest_loop p device (e ∷ es) head acked s ≡ (err (row_error e.event_id), s)
  unfolding ingest_loop
  loop_row_error h c a = rw (ingest_loop, h, c, a)

  pub loop_append :
      {s' : EventStore}
      → event_exists s e.event_id ≡ false
      → check_event p device head e ≡ none
      → append_event s e ≡ some s'
      → ingest_loop p device (e ∷ es) head acked s
        ≡ ingest_loop p device es (some e.event_hash) (acked ++ e.event_id ∷ []) s'
  unfolding ingest_loop
  loop_append h c a = rw (ingest_loop, h, c, a)

-- The four ways that a round can go.
pub data Round (p : Platform) (device : EnrolledDevice) (e : DeviceEvent) (head : Option Text)
    (s : EventStore) : Type 0 where
  stored : event_exists s e.event_id ≡ true → Round p device e head s
  refused :
      (error : IngestError)
      → event_exists s e.event_id ≡ false
      → check_event p device head e ≡ some error
      → Round p device e head s
  unwritten :
      event_exists s e.event_id ≡ false
      → check_event p device head e ≡ none
      → append_event s e ≡ none
      → Round p device e head s
  written :
      (s' : EventStore)
      → event_exists s e.event_id ≡ false
      → check_event p device head e ≡ none
      → append_event s e ≡ some s'
      → Round p device e head s

pub round :
    (p : Platform) (device : EnrolledDevice) (e : DeviceEvent) (head : Option Text) (s : EventStore)
    → Round p device e head s
round p device e head s = elim (Bool-cases (event_exists s e.event_id)) [
  | inl h ↦ stored h
  | inr h ↦ elim (Option-cases (check_event p device head e)) [
    | inr (error, c) ↦ refused error h c
    | inl c ↦ elim (Option-cases (append_event s e)) [
      | inl a ↦ unwritten h c a
      | inr (s', a) ↦ written s' h c a
    ]
  ]
]

-- The four ways through ingest before and into its loop.
module _ (p : Platform) (latest_cursor : EventStore → Text) (device_id : Text)
    (events : List DeviceEvent) (s : EventStore) where
  pub ingest_unknown :
      get_device s device_id ≡ none
      → ingest p latest_cursor device_id events s ≡ (err unknown_device, s)
  unfolding ingest
  ingest_unknown h = rw (ingest, h)

  pub ingest_inactive :
      {device : EnrolledDevice}
      → get_device s device_id ≡ some device
      → device.active ≡ false
      → ingest p latest_cursor device_id events s ≡ (err inactive_device, s)
  unfolding ingest
  ingest_inactive h a = rw (ingest, h, a)

  pub ingest_unsorted :
      {device : EnrolledDevice}
      → get_device s device_id ≡ some device
      → device.active ≡ true
      → order_events p.other_number events ≡ none
      → ingest p latest_cursor device_id events s ≡ (err bad_stamp, s)
  unfolding ingest
  ingest_unsorted h a o = rw (ingest, h, a, o)

  pub ingest_ordered :
      {device : EnrolledDevice} {ordered : List DeviceEvent}
      → get_device s device_id ≡ some device
      → device.active ≡ true
      → order_events p.other_number events ≡ some ordered
      → ingest p latest_cursor device_id events s
        ≡ finish latest_cursor device_id
            (ingest_loop p device ordered (get_chain_head s device_id) [] s)
  unfolding ingest
  ingest_ordered h a o = ground arith
