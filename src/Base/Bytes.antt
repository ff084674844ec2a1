-- ===== src/Base/Bytes.antt =====
-- Text literals as bytes, and the functions of Go's `strings` that the program calls.
use Prim.Native.Char.{code}
use Prim.Native.String.{String}
use Prim.Native.Nat.{ℕ}
use mathlib.Core.Bool.{Bool, true, false, ◌&&◌, ◌||◌}
use mathlib.Core.Option.{Option, none, some}
use mathlib.Core.List.{List, [], ◌∷◌, ◌++◌}
use krop_controller.Base.Equality.{Text, ◌==◌, text_eq, Eq, if◌then◌else◌}
use native.Mathlib.Decide.{ℕ_discrete}

-- The code points of a literal: its bytes, since the source's literals are ASCII.
abbrev pub codes : String → Text
codes String.[] = []
codes (String.◌∷◌ c s) = code c ∷ codes s

-- Shut in proofs, as `text_eq`.
instance unfoldable pub byte_eq : Eq ℕ
unfolding ℕ_discrete
byte_eq = record { dec = ℕ_discrete }

-- `strings.Cut(s, sep)` at a single byte: the text before the first one, and the text after it.
abbrev pub cut_cons : ℕ → Option (Text × Text) → Option (Text × Text)
cut_cons x none = none
cut_cons x (some (before, after)) = some (x ∷ before, after)

unfoldable pub cut_byte : ℕ → Text → Option (Text × Text)
cut_byte c [] = none
cut_byte c (x ∷ s) = if x == c then some ([], s) else cut_cons x (cut_byte c s)

-- `strings.Split(s, sep)` at a single byte, which is never empty.
abbrev split_cons : ℕ → List Text → List Text
split_cons x [] = (x ∷ []) ∷ []
split_cons x (t ∷ ts) = (x ∷ t) ∷ ts

unfoldable pub split : ℕ → Text → List Text
split c [] = [] ∷ []
split c (x ∷ s) = if x == c then [] ∷ split c s else split_cons x (split c s)

-- `strings.SplitN(s, sep, 3)`
unfoldable pub split_in_three : ℕ → Text → List Text
unfolding cut_byte
split_in_three c s = elim (cut_byte c s) [
  | none ↦ s ∷ []
  | some (a, rest) ↦ elim (cut_byte c rest) [
    | none ↦ a ∷ rest ∷ []
    | some (b, last) ↦ a ∷ b ∷ last ∷ []
  ]
]

-- `strings.Join(ts, sep)`
unfoldable pub join : ℕ → List Text → Text
join c [] = []
join c (t ∷ []) = t
join c (t ∷ u ∷ ts) = t ++ c ∷ join c (u ∷ ts)

abbrev is_nil : Text → Bool
is_nil [] = true
is_nil (x ∷ s) = false

-- `strings.TrimRight(s, cutset)` and `strings.TrimLeft(s, cutset)`
unfoldable pub trim_right : (ℕ → Bool) → Text → Text
trim_right cut [] = []
trim_right cut (x ∷ s) =
    let rest = trim_right cut s in if is_nil rest && cut x then [] else x ∷ rest

unfoldable pub trim_left : (ℕ → Bool) → Text → Text
trim_left cut [] = []
trim_left cut (x ∷ s) = if cut x then trim_left cut s else x ∷ s

-- The ASCII white space of `strings.TrimSpace`.
abbrev pub is_space : ℕ → Bool
is_space x = x == 9 || x == 10 || x == 11 || x == 12 || x == 13 || x == 32

unfoldable pub trim_space : Text → Text
unfolding trim_left trim_right
trim_space s = trim_right is_space (trim_left is_space s)

-- `strings.HasPrefix`, and `strings.Cut(s, sep)` at a text.
unfoldable pub strip_prefix : Text → Text → Option Text
strip_prefix [] s = some s
strip_prefix (p ∷ ps) [] = none
strip_prefix (p ∷ ps) (x ∷ s) = if x == p then strip_prefix ps s else none

abbrev pub cut_at : Option Text → Option (Text × Text) → Option (Text × Text)
cut_at (some after) later = some ([], after)
cut_at none later = later

unfoldable pub cut : Text → Text → Option (Text × Text)
unfolding strip_prefix
cut sep [] = cut_at (strip_prefix sep []) none
cut sep (x ∷ s) = cut_at (strip_prefix sep (x ∷ s)) (cut_cons x (cut sep s))

-- `strings.Contains(s, sep)`
unfoldable pub has : Text → Text → Bool
unfolding cut
has sep s = elim (cut sep s) [ none ↦ false | some _ ↦ true ]

-- `strings.TrimSuffix(s, suffix)`
unfoldable pub trim_suffix : Text → Text → Text
trim_suffix suffix [] = []
trim_suffix suffix (x ∷ s) = if (x ∷ s) == suffix then [] else x ∷ trim_suffix suffix s
