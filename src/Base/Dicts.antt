-- ===== src/Base/Dicts.antt =====
-- Python's `dict` with string keys, as the list of its items in insertion order.
use Prim.Native.String.{String}
use mathlib.Core.Path.{◌≡◌, refl, sym, subst}
use mathlib.Core.Bool.{Bool, true, false, ◌||◌}
use mathlib.Core.List.{List, [], ◌∷◌}
use mathlib.Core.Option.{Option, none, some}
use native.Mathlib.Omega.{arith}
use text.Mathlib.Text.{◌==◌}
use text.Mathlib.TextEquality.{eq_iff}
use mathlib.Core.Logic.{inl, inr}
use vllm_verifier.Base.Tests.{if◌then◌else◌, Bool-cases, &&_true}
use vllm_verifier.Base.Lists.{All, all}

-- `x in xs`
abbrev pub elem : String → List String → Bool
elem x [] = false
elem x (y ∷ ys) = y == x || elem x ys

module _ {ℓ} {V : Type ℓ} where
  -- `d.get(k)`, and `d[k]` where `none` is a KeyError.
  unfoldable pub lookup : String → List (String × V) → Option V
  lookup k [] = none
  lookup k ((j, v) ∷ d) = if j == k then some v else lookup k d

  -- `d[k] = v`: a key that is there keeps its place.
  unfoldable pub insert : String → V → List (String × V) → List (String × V)
  insert k v [] = (k, v) ∷ []
  insert k v ((j, w) ∷ d) = if j == k then (j, v) ∷ d else (j, w) ∷ insert k v d

  abbrev pub keys : List (String × V) → List String
  keys [] = []
  keys ((k, v) ∷ d) = k ∷ keys d

  abbrev pub values : List (String × V) → List V
  values [] = []
  values ((k, v) ∷ d) = v ∷ values d

  pub lookup-insert :
      (k j : String) (v : V) (d : List (String × V))
      → lookup j (insert k v d) ≡ (if k == j then some v else lookup j d)
  unfolding lookup insert
  lookup-insert k j v [] = refl
  lookup-insert k j v ((i, w) ∷ d) =
      ground (arith, eq_iff k j, eq_iff i k, eq_iff i j, lookup-insert k j v d)

  pub All-insert {κ} :
      (P : String × V → Type κ) (k : String) (v : V) (d : List (String × V))
      → All P d
      → P (k, v)
      → All P (insert k v d)
  unfolding insert
  All-insert P k v [] h p = (p, tt)
  All-insert P k v ((j, w) ∷ d) h p = elim (Bool-cases (j == k)) [
    | inl same ↦ rw same (subst (λ i. P (i, v)) (sym ((eq_iff j k).0 same)) p, h.1)
    | inr other ↦ rw other (h.0, All-insert P k v d h.1 p)
  ]

  pub All-lookup {κ} :
      (P : String × V → Type κ) (k : String) (v : V) (d : List (String × V))
      → All P d
      → lookup k d ≡ some v
      → P (k, v)
  unfolding lookup
  All-lookup P k v [] h e = cc
  All-lookup P k v ((j, w) ∷ d) h e = elim (Bool-cases (j == k)) [
    | inl same ↦
        let value : w ≡ v = ground arith in
        subst (λ x. P (k, x)) value (subst (λ i. P (i, w)) ((eq_iff j k).0 same) h.0)
    | inr other ↦ All-lookup P k v d h.1 (ground arith)
  ]

  -- A test that every value passes.
  pub all-lookup :
      (p : V → Bool) (k : String) (d : List (String × V)) {v : V}
      → all p (values d) ≡ true
      → lookup k d ≡ some v
      → p v ≡ true
  unfolding lookup
  all-lookup p k [] h e = cc
  all-lookup p k ((j, w) ∷ d) {v} h e = elim (Bool-cases (j == k)) [
    | inl same ↦
        subst (λ x. p x ≡ true) (let value : w ≡ v = ground arith in value) (&&_true (p w) _ h).0
    | inr other ↦ all-lookup p k d (&&_true (p w) _ h).1 (ground arith)
  ]
