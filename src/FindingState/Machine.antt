-- ===== src/FindingState/Machine.antt =====
-- Where the transitions of a finding can lead.
use agroassure.Prelude.{◌≡◌, refl, ◌≢◌, ◌⊎◌, inl, inr, true, arith}
use agroassure.Types.{FindingStatus, open_status, overdue, awaiting_verification, escalated, closed}
use agroassure.FindingState.{can_transition}

-- A history of a finding: legal transitions one after the other.
pub data History (s : FindingStatus) : FindingStatus → Type 0 where
  here : History s s
  next : {t u : FindingStatus} → History s t → can_transition t u ≡ true → History s u

-- The history goes through the status, its two ends included.
abbrev pub Visits : (v : FindingStatus) {s t : FindingStatus} → History s t → Type 0
Visits v {s} here = s ≡ v
Visits v (next {u = u} h step) = (u ≡ v) ⊎ Visits v h

Visits-end : (v : FindingStatus) {s t : FindingStatus} (h : History s t) → t ≡ v → Visits v h
Visits-end v here e = e
Visits-end v (next h step) e = inl e

before_closed :
    (t u : FindingStatus) → can_transition t u ≡ true → u ≡ closed → t ≡ awaiting_verification
unfolding can_transition
before_closed t u h e = ground arith

-- A finding that is not closed at first is closed only after it has awaited verification: every
-- history that ends at closed goes through awaiting_verification.
pub closed-Visits :
    {s t : FindingStatus} (h : History s t)
    → s ≢ closed
    → t ≡ closed
    → Visits awaiting_verification h
closed-Visits here fresh done = absurd (fresh done)
closed-Visits (next {t = t} {u = u} h step) fresh done =
    inr (Visits-end awaiting_verification h (before_closed t u step done))

not_from_closed : (u : FindingStatus) → can_transition closed u ≢ true
unfolding can_transition
not_from_closed u h = ground arith

-- Nothing follows closed: a history that starts there ends there.
closed_final : {s t : FindingStatus} → History s t → s ≡ closed → t ≡ closed
closed_final here e = e
closed_final (next {t = t} {u = u} h step) e =
    absurd (not_from_closed u (rw (closed_final h e) at step))

verified : (s : FindingStatus) → can_transition s awaiting_verification ≡ true → History s closed
unfolding can_transition
verified s step = next {t = awaiting_verification} (next here step) refl

-- No finding is stuck: from every status a history leads to closed.
reaches_closed : (s : FindingStatus) → History s closed
unfolding can_transition
reaches_closed open_status = verified open_status refl
reaches_closed overdue = verified overdue refl
reaches_closed escalated = verified escalated refl
reaches_closed awaiting_verification = next here refl
reaches_closed closed = here
