-- ===== src/Tests/Commits.antt =====
-- A transaction that began first and ends last.
use agroassure.Prelude.{false, some, [], ◌∷◌, ◌≡◌, refl, codes}
use agroassure.Projection.Payloads.{Content, StoredEvent}
use agroassure.Projection.Apply.{Database, compare_place, is_after, lag, apply_pending}
use agroassure.Projection.LateCommit.{result_holding, StaysBehind, apply_pending-Misses}
use agroassure.Tests.Projections.{setting, event, tracked}

abbrev first : StoredEvent
first = event (codes "e1") 1 Content.finding_became_overdue

abbrev second : StoredEvent
second = event (codes "e2") 2 Content.finding_closure_rejected

-- The second event is projected before the first is committed.
abbrev ahead : Database
ahead = record { tables = tracked; cursor = some (2, codes "e2"); events = second ∷ [] }

behind : is_after ahead.cursor first ≡ false
unfolding compare_place
behind = refl

apply_pending-Misses_example :
    (apply_pending setting 0 500 3 0 (record ahead { events = first ∷ second ∷ [] })
      ≡ result_holding (first ∷ second ∷ []) (apply_pending setting 0 500 3 0 ahead))
    × StaysBehind first (apply_pending setting 0 500 3 0 ahead)
    × (lag (record ahead { events = first ∷ second ∷ [] }) ≡ lag ahead)
apply_pending-Misses_example =
    apply_pending-Misses setting 0 500 3 0 first [] (second ∷ []) ahead refl behind
