-- ===== src/Prelude/Strings.antt =====
-- strings.Split at one character, and the texts that do not have it.
use Prim.Native.Char.{Char, code}
use Prim.Native.String.{String}
use mathlib.Core.Path.{◌≡◌, refl}
use mathlib.Core.Bool.{false}
use mathlib.Core.List.{List, [], ◌∷◌}
use Prim.Native.Nat.{ℕ}
use go_fula.Prelude.Tests.{eqb, if◌then◌else◌}

unfoldable pub onto_first : Char → List String → List String
onto_first c [] = String.◌∷◌ c "" ∷ []
onto_first c (w ∷ ws) = String.◌∷◌ c w ∷ ws

unfoldable pub split_char : ℕ → String → List String
unfolding onto_first
split_char sep String.[] = "" ∷ []
split_char sep (String.◌∷◌ c s) =
    let rest = split_char sep s in if eqb (code c) sep then "" ∷ rest else onto_first c rest

abbrev pub Without : ℕ → String → Type 0
Without sep String.[] = Unit
Without sep (String.◌∷◌ c s) = (eqb (code c) sep ≡ false) × Without sep s

pub split_one : (sep : ℕ) (s : String) → Without sep s → split_char sep s ≡ s ∷ []
unfolding split_char onto_first
split_one sep String.[] h = refl
split_one sep (String.◌∷◌ c s) h = rw h.0 (rw (split_one sep s h.1) refl)
