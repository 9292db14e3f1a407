-- ===== src/Prelude/Trim.antt =====
-- `strings.TrimSpace` and `strings.ToLower` of Go, on ASCII texts, and the parts of a path.
use Prim.Native.Nat.{ℕ, ◌+◌}
use mathlib.Core.Bool.{Bool, ◌&&◌, ◌||◌}
use mathlib.Core.List.{List, [], ◌∷◌, map}
use capillaries.Prelude.Tests.{leb, ◌==◌, if◌then◌else◌}
use capillaries.Prelude.Text.{Text}

-- Tab, line feed, vertical tab, form feed, carriage return, space.
abbrev is_space : ℕ → Bool
is_space c = c == 32 || leb 9 c && leb c 13

unfoldable pub trim_left : Text → Text
trim_left [] = []
trim_left (c ∷ s) = let rest = trim_left s in if is_space c then rest else c ∷ s

unfoldable pub trim_right : Text → Text
trim_right [] = []
trim_right (c ∷ s) = elim (trim_right s) [
  | [] ↦ if is_space c then [] else c ∷ []
  | (d ∷ rest) ↦ c ∷ d ∷ rest
]

-- `strings.TrimSpace`
unfoldable pub trim_space : Text → Text
unfolding trim_left trim_right
trim_space s = trim_right (trim_left s)

-- The parts of a path between slashes.
unfoldable pub segments : Text → List Text
segments [] = [] ∷ []
segments (b ∷ s) =
    let rest = segments s in
    if b == 47 then [] ∷ rest else elim rest [ [] ↦ (b ∷ []) ∷ [] | (r ∷ rs) ↦ (b ∷ r) ∷ rs ]

-- `strings.ToLower`
unfoldable pub to_lower : Text → Text
to_lower s = map (λ c. if leb 65 c && leb c 90 then c + 32 else c) s
