-- ===== src/Appender/Places.antt =====
-- The next place of an aggregate is free.
use agroassure.Prelude.{
  if◌then◌else◌, ℕ, ◌<◌, max, Bool, false, ◌&&◌, ◌||◌, List, [], ◌∷◌, ◌≡◌, refl, arith, any, ◌==◌,
  text_eq,
}
use agroassure.Events.{DeviceEvent}
use agroassure.Ingest.{same_place}
use agroassure.Appender.{max_place}

pub free_above :
    (e : DeviceEvent) (es : List DeviceEvent)
    → max_place e.aggregate_type e.aggregate_id es < e.seq
    → any (same_place e) es ≡ false
unfolding max_place
free_above e [] h = refl
free_above e (f ∷ es) h =
    one (text_eq e.aggregate_type f.aggregate_type) (text_eq e.aggregate_id f.aggregate_id) e.seq
      f.seq (max_place e.aggregate_type e.aggregate_id es) _ h (free_above e es)
  where
    one :
        (a b : Bool) (m n k : ℕ) (rest : Bool)
        → (if a && b then max n k else k) < m
        → (k < m → rest ≡ false)
        → ((a && b && m == n) || rest) ≡ false
    one a b m n k rest h r = ground arith
