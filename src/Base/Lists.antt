-- ===== src/Base/Lists.antt =====
-- Lists measured, indexed and summed by native numbers, under the library's names, and predicates
-- on every element.
use Prim.Native.Nat.{ℕ, zero, suc, ◌+◌, ◌<◌}
use mathlib.Core.Path.{◌≡◌, refl, sym, ap, subst}
use mathlib.Core.Logic.{◌≢◌, ◌⊎◌, inl, inr}
use mathlib.Core.Bool.{Bool, true, ◌&&◌}
use mathlib.Core.List.{List, [], ◌∷◌, ◌++◌, map}
use mathlib.Core.Option.{Option, none, some}
use native.Mathlib.Omega.{arith}

module _ {ℓ} {A : Type ℓ} where
  abbrev pub length : List A → ℕ
  length [] = 0
  length (x ∷ xs) = suc (length xs)

  abbrev pub get_elem? : List A → ℕ → Option A
  get_elem? [] i = none
  get_elem? (x ∷ xs) zero = some x
  get_elem? (x ∷ xs) (suc i) = get_elem? xs i

  abbrev pub take : ℕ → List A → List A
  take zero xs = []
  take (suc n) [] = []
  take (suc n) (x ∷ xs) = x ∷ take n xs

  abbrev pub drop : ℕ → List A → List A
  drop zero xs = xs
  drop (suc n) [] = []
  drop (suc n) (x ∷ xs) = drop n xs

  abbrev pub sum_by : (A → ℕ) → List A → ℕ
  sum_by f [] = 0
  sum_by f (x ∷ xs) = f x + sum_by f xs

  -- `xs[i] = f(xs[i])`; an index out of range is left to the caller.
  abbrev pub modify : (A → A) → ℕ → List A → List A
  modify f i [] = []
  modify f zero (x ∷ xs) = f x ∷ xs
  modify f (suc i) (x ∷ xs) = x ∷ modify f i xs

  abbrev pub All {κ} : (A → Type κ) → List A → Type κ
  All P [] = Unit
  All P (x ∷ xs) = P x × All P xs

  abbrev pub Any : (A → Type 0) → List A → Type 0
  Any P [] = ⊥
  Any P (x ∷ xs) = P x ⊎ Any P xs

  -- Python's `all(...)`.
  abbrev pub all : (A → Bool) → List A → Bool
  all p [] = true
  all p (x ∷ xs) = p x && all p xs

  pub length-append : (xs ys : List A) → length (xs ++ ys) ≡ length xs + length ys
  length-append [] ys = omega arith
  length-append (x ∷ xs) ys = omega (arith, length-append xs ys)

  pub sum_by-append : (f : A → ℕ) (xs ys : List A) → sum_by f (xs ++ ys) ≡ sum_by f xs + sum_by f ys
  sum_by-append f [] ys = omega arith
  sum_by-append f (x ∷ xs) ys = omega (arith, sum_by-append f xs ys)

  pub length-modify : (f : A → A) (i : ℕ) (xs : List A) → length (modify f i xs) ≡ length xs
  length-modify f i [] = refl
  length-modify f zero (x ∷ xs) = refl
  length-modify f (suc i) (x ∷ xs) = ap suc (length-modify f i xs)

  pub get_elem?-modify_self :
      (f : A → A) (i : ℕ) (xs : List A) {x : A}
      → get_elem? xs i ≡ some x
      → get_elem? (modify f i xs) i ≡ some (f x)
  get_elem?-modify_self f i [] h = cc
  get_elem?-modify_self f zero (x ∷ xs) h = cc
  get_elem?-modify_self f (suc i) (x ∷ xs) h = get_elem?-modify_self f i xs h

  pub get_elem?-modify_ne :
      (f : A → A) (i j : ℕ) (xs : List A) → i ≢ j → get_elem? (modify f i xs) j ≡ get_elem? xs j
  get_elem?-modify_ne f i j [] h = refl
  get_elem?-modify_ne f zero zero (x ∷ xs) h = absurd (h refl)
  get_elem?-modify_ne f zero (suc j) (x ∷ xs) h = refl
  get_elem?-modify_ne f (suc i) zero (x ∷ xs) h = refl
  get_elem?-modify_ne f (suc i) (suc j) (x ∷ xs) h =
      get_elem?-modify_ne f i j xs (λ e. h (ap suc e))

  pub get_elem?_of_lt : (xs : List A) (i : ℕ) → i < length xs → (x : A) × (get_elem? xs i ≡ some x)
  get_elem?_of_lt [] i h = absurd (omega arith)
  get_elem?_of_lt (x ∷ xs) zero h = (x, refl)
  get_elem?_of_lt (x ∷ xs) (suc i) h = get_elem?_of_lt xs i (omega arith)

  pub get_elem?-append_last :
      (xs : List A) (p : A) (j : ℕ) {x : A}
      → get_elem? (xs ++ p ∷ []) j ≡ some x
      → (get_elem? xs j ≡ some x) ⊎ ((j ≡ length xs) × (p ≡ x))
  get_elem?-append_last [] p zero h = inr (refl, cc)
  get_elem?-append_last [] p (suc j) h = cc
  get_elem?-append_last (y ∷ xs) p zero h = inl h
  get_elem?-append_last (y ∷ xs) p (suc j) h = elim (get_elem?-append_last xs p j h) [
    | inl old ↦ inl old
    | inr (at, same) ↦ inr (ap suc at, same)
  ]

  pub get_elem?-append_left :
      (xs ys : List A) (i : ℕ) {x : A} → get_elem? xs i ≡ some x → get_elem? (xs ++ ys) i ≡ some x
  get_elem?-append_left [] ys i h = cc
  get_elem?-append_left (y ∷ xs) ys zero h = h
  get_elem?-append_left (y ∷ xs) ys (suc i) h = get_elem?-append_left xs ys i h

  pub get_elem?-length :
      (xs : List A) (p : A) (ys : List A) → get_elem? (xs ++ p ∷ ys) (length xs) ≡ some p
  get_elem?-length [] p ys = refl
  get_elem?-length (y ∷ xs) p ys = get_elem?-length xs p ys

  pub lt_of_get_elem? : (xs : List A) (i : ℕ) {x : A} → get_elem? xs i ≡ some x → i < length xs
  lt_of_get_elem? [] i h = cc
  lt_of_get_elem? (x ∷ xs) zero h = omega arith
  lt_of_get_elem? (x ∷ xs) (suc i) h = omega (arith, lt_of_get_elem? xs i h)

module _ {ℓ κ} {A : Type ℓ} (P : A → Type κ) where
  pub All-append : (xs ys : List A) → All P xs → All P ys → All P (xs ++ ys)
  All-append [] ys hx hy = hy
  All-append (x ∷ xs) ys hx hy = (hx.0, All-append xs ys hx.1 hy)

  pub All-append_left : (xs ys : List A) → All P (xs ++ ys) → All P xs
  All-append_left [] ys h = tt
  All-append_left (x ∷ xs) ys h = (h.0, All-append_left xs ys h.1)

  pub All-append_right : (xs ys : List A) → All P (xs ++ ys) → All P ys
  All-append_right [] ys h = h
  All-append_right (x ∷ xs) ys h = All-append_right xs ys h.1

module _ {ℓ} {A : Type ℓ} (P : A → Type 0) where
  pub Any-append_left : (xs ys : List A) → Any P xs → Any P (xs ++ ys)
  Any-append_left (x ∷ xs) ys (inl h) = inl h
  Any-append_left (x ∷ xs) ys (inr h) = inr (Any-append_left xs ys h)
  Any-append_left [] ys h = absurd h

  pub Any-append_right : (xs ys : List A) → Any P ys → Any P (xs ++ ys)
  Any-append_right [] ys h = h
  Any-append_right (x ∷ xs) ys h = inr (Any-append_right xs ys h)

module _ {ℓ κ} {A : Type ℓ} {B : Type κ} where
  pub length-map : (f : A → B) (xs : List A) → length (map f xs) ≡ length xs
  length-map f [] = refl
  length-map f (x ∷ xs) = ap suc (length-map f xs)

  -- `zip`, which stops with the shorter list.
  abbrev pub zip : List A → List B → List (A × B)
  zip [] ys = []
  zip (x ∷ xs) [] = []
  zip (x ∷ xs) (y ∷ ys) = (x, y) ∷ zip xs ys

-- `enumerate(xs, i)`
abbrev pub enumerate {ℓ} : {A : Type ℓ} → ℕ → List A → List (ℕ × A)
enumerate i [] = []
enumerate i (x ∷ xs) = (i, x) ∷ enumerate (suc i) xs

-- One element is replaced.
module _ {ℓ} {A : Type ℓ} (f : A → A) where
  pub All-modify {κ} :
      (P : A → Type κ) (i : ℕ) (xs : List A) {x : A}
      → get_elem? xs i ≡ some x
      → (P x → P (f x))
      → All P xs
      → All P (modify f i xs)
  All-modify P i [] at step h = tt
  All-modify P zero (x ∷ xs) at step h =
      (subst (λ y. P y → P (f y)) (sym (option_eq at)) step h.0, h.1)
    where
      option_eq : {a b : A} → some a ≡ some b → a ≡ b
      option_eq e = cc
  All-modify P (suc i) (x ∷ xs) at step h = (h.0, All-modify P i xs at step h.1)

  pub map-modify {κ} :
      {B : Type κ} (g : A → B) (i : ℕ) (xs : List A)
      → ((x : A) → g (f x) ≡ g x)
      → map g (modify f i xs) ≡ map g xs
  map-modify g i [] same = refl
  map-modify g zero (x ∷ xs) same = ap (λ b. b ∷ map g xs) (same x)
  map-modify g (suc i) (x ∷ xs) same = ap (λ l. g x ∷ l) (map-modify g i xs same)

  pub sum_by-modify :
      (g : A → ℕ) (i : ℕ) (xs : List A) {x : A}
      → get_elem? xs i ≡ some x
      → sum_by g (modify f i xs) + g x ≡ sum_by g xs + g (f x)
  sum_by-modify g i [] at = cc
  sum_by-modify g zero (y ∷ xs) {x} at = let same : y ≡ x = cc in rw same (omega arith)
  sum_by-modify g (suc i) (y ∷ xs) at = omega (arith, sum_by-modify g i xs at)

pub All-get_elem? {ℓ κ} :
    {A : Type ℓ} (P : A → Type κ) (xs : List A) (i : ℕ) {x : A}
    → get_elem? xs i ≡ some x
    → All P xs
    → P x
All-get_elem? P [] i at h = cc
All-get_elem? P (y ∷ xs) zero {x} at h = let same : y ≡ x = cc in subst P same h.0
All-get_elem? P (y ∷ xs) (suc i) at h = All-get_elem? P xs i at h.1

pub Any-map {ℓ κ} :
    {A : Type ℓ} {B : Type κ} (P : B → Type 0) (g : A → B) (xs : List A) (i : ℕ) {x : A}
    → get_elem? xs i ≡ some x
    → P (g x)
    → Any P (map g xs)
Any-map P g [] i at h = cc
Any-map P g (y ∷ xs) zero {x} at h = let same : x ≡ y = cc in inl (subst (λ z. P (g z)) same h)
Any-map P g (y ∷ xs) (suc i) at h = inr (Any-map P g xs i at h)

module _ {ℓ} {A : Type ℓ} (f : A → A) (P : A → Type 0) where
  -- What holds of an element holds behind a change that keeps it.
  pub Any-modify :
      (i : ℕ) (xs : List A) {x : A}
      → get_elem? xs i ≡ some x
      → (P x → P (f x))
      → Any P xs
      → Any P (modify f i xs)
  Any-modify i [] at keeps h = elim h [ ]
  Any-modify zero (y ∷ xs) {x} at keeps (inl here) =
      let same : x ≡ y = cc in inl (subst (λ z. P z → P (f z)) same keeps here)
  Any-modify zero (y ∷ xs) at keeps (inr more) = inr more
  Any-modify (suc i) (y ∷ xs) at keeps (inl here) = inl here
  Any-modify (suc i) (y ∷ xs) at keeps (inr more) = inr (Any-modify i xs at keeps more)

  pub Any-modified :
      (i : ℕ) (xs : List A) {x : A} → get_elem? xs i ≡ some x → P (f x) → Any P (modify f i xs)
  Any-modified i [] at h = cc
  Any-modified zero (y ∷ xs) {x} at h = let same : x ≡ y = cc in inl (subst (λ z. P (f z)) same h)
  Any-modified (suc i) (y ∷ xs) at h = inr (Any-modified i xs at h)
