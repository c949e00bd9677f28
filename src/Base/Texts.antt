-- ===== src/Base/Texts.antt =====
-- Text as the list of its code points, with the operations of Python's `str` that the code uses.
use Prim.Native.Nat.{ℕ, ◌-◌}
use Prim.Native.Char.{code}
use Prim.Native.String.{String}
use mathlib.Core.Bool.{Bool, true, false, ◌&&◌, ◌||◌}
use mathlib.Core.List.{List, [], ◌∷◌, reverse}
use mathlib.Core.Option.{Option, none, some}
use vllm_verifier.Base.Tests.{◌==◌, if◌then◌else◌}
use vllm_verifier.Base.Lists.{length, take, drop}

abbrev pub Text : Type 0
Text = List ℕ

-- The text that a literal stands for.
abbrev pub codes : (literal : String) → Text
codes (String.◌∷◌ first rest) = code first ∷ codes rest
codes String.[] = []

-- `s.startswith(p)`
abbrev pub starts_with : Text → Text → Bool
starts_with p [] = elim p [ [] ↦ true | _ ↦ false ]
starts_with [] (c ∷ s) = true
starts_with (d ∷ p) (c ∷ s) = c == d && starts_with p s

-- `s.endswith(p)`
abbrev pub ends_with : Text → Text → Bool
ends_with p s = starts_with (reverse p) (reverse s)

-- `p in s`
abbrev pub contains : Text → Text → Bool
contains p [] = starts_with p []
contains p (c ∷ s) = starts_with p (c ∷ s) || contains p s

-- What stands behind the first `p` in `s`, as in `s.partition(p)[2]`; `none` where there is none.
abbrev pub after : Text → Text → Option Text
after p [] = if starts_with p [] then some [] else none
after p (c ∷ s) = if starts_with p (c ∷ s) then some (drop (length p) (c ∷ s)) else after p s

-- `s.lstrip()` and `s.strip()`, where `space` is `str.isspace` of a character.
abbrev pub lstrip : (ℕ → Bool) → Text → Text
lstrip space [] = []
lstrip space (c ∷ s) = elim (space c) [ true ↦ lstrip space s | false ↦ c ∷ s ]

abbrev pub strip : (ℕ → Bool) → Text → Text
strip space s = reverse (lstrip space (reverse (lstrip space s)))

-- `s[a:-b]`
abbrev pub slice : ℕ → ℕ → Text → Text
slice a b s = drop a (take (length s - b) s)
