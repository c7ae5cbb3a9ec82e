-- ===== src/Hlc/Clock.antt =====
-- The clock only moves forward.
use Prim.Native.Nat.{Ordering}
use agroassure.Prelude.{ℕ, ◌+◌, ◌≤◌, ◌<◌, ◌≡◌, ◌⊎◌, arith}
use agroassure.Hlc.{HlcState, hlc_next, hlc_merge, compare_state}

-- The logical order of the clock, without the node.
abbrev pub IsBefore : HlcState → HlcState → Type 0
IsBefore a b = (a.physical < b.physical) ⊎ ((a.physical ≡ b.physical) × (a.counter < b.counter))

pub IsBefore_trans : (a b c : HlcState) → IsBefore a b → IsBefore b c → IsBefore a c
IsBefore_trans a b c h k = omega arith

-- A local event moves the clock strictly forward whatever the wall clock says, keeps the node, and
-- never falls behind the wall clock.
pub hlc_next-IsBefore :
    (s : HlcState) (now : ℕ)
    → IsBefore s (hlc_next s now)
      × (now ≤ (hlc_next s now).physical)
      × ((hlc_next s now).node_id ≡ s.node_id)
unfolding hlc_next
hlc_next-IsBefore s now = ground arith

-- Merging a remote stamp moves the clock strictly past both the local state and the remote stamp,
-- whatever the wall clock says.
hlc_merge-IsBefore :
    (s r : HlcState) (now : ℕ)
    → IsBefore s (hlc_merge s r now)
      × IsBefore r (hlc_merge s r now)
      × (now ≤ (hlc_merge s r now).physical)
      × ((hlc_merge s r now).node_id ≡ s.node_id)
unfolding hlc_merge
hlc_merge-IsBefore s r now = ground arith

-- What is before compares as less.
pub compare_state-IsBefore : (a b : HlcState) → IsBefore a b → compare_state a b ≡ Ordering.lt
unfolding compare_state
compare_state-IsBefore a b h = ground arith

-- How far one event can take the clock.
pub hlc_next_bounds :
    (s : HlcState) (now : ℕ)
    → ((hlc_next s now).counter ≤ s.counter + 1)
      × (((hlc_next s now).physical ≡ s.physical) ⊎ ((hlc_next s now).physical ≡ now))
unfolding hlc_next
hlc_next_bounds s now = ground arith
