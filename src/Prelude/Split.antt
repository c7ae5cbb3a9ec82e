-- ===== src/Prelude/Split.antt =====
-- Splitting a text at a code unit, as String.prototype.split does, and joining texts.
use mathlib.Core.List.{List, [], ◌∷◌, ◌++◌}
use Prim.Native.Nat.{ℕ}
use agroassure.Prelude.Tests.{◌==◌, if◌then◌else◌}
use agroassure.Prelude.Texts.{Text}

-- The unit in front of the first part.
abbrev pub push_unit : ℕ → List Text → List Text
push_unit c [] = (c ∷ []) ∷ []
push_unit c (part ∷ parts) = (c ∷ part) ∷ parts

-- There is always one part, if only the empty one.
unfoldable pub split_on : ℕ → Text → List Text
split_on d [] = [] ∷ []
split_on d (c ∷ t) = let parts = split_on d t in if c == d then [] ∷ parts else push_unit c parts

unfoldable pub join_with : Text → List Text → Text
join_with d [] = []
join_with d (part ∷ []) = part
join_with d (part ∷ next ∷ parts) = part ++ (d ++ join_with d (next ∷ parts))
