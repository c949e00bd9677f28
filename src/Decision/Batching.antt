-- ===== src/Decision/Batching.antt =====
-- `KaiRuntime.evaluate_batch` of decision/runtime.py: how the entries of one question type are
-- sorted by length and cut into physical batches. An entry is any type with a length.
use mathlib.Core.List.{flatten, Perm}
use mathlib.Core.List.Perm
use vllm_verifier.Base.{
  ℕ, zero, suc, ◌+◌, ◌*◌, ◌≡◌, ◌≤◌, refl, sym, subst, ap, ◌∙◌, ◌⊎◌, inl, inr, List, [], ◌∷◌, ◌++◌,
  arith, length, All, ltb, leb, Bool-cases, if◌then◌else◌,
}

module _ {ℓ} {A : Type ℓ} (len : A → ℕ) where
  -- A stable sort, as `entries.sort(key=lambda entry: entry[3])`.
  unfoldable pub place : A → List A → List A
  place e [] = e ∷ []
  place e (x ∷ xs) = let rest = place e xs in if leb (len e) (len x) then e ∷ x ∷ xs else x ∷ rest

  unfoldable pub sort_entries : List A → List A
  unfolding place
  sort_entries [] = []
  sort_entries (e ∷ es) = place e (sort_entries es)

  module _ (batch_size batch_tokens : ℕ) where
    -- The inner `while`, with `taken = end - start`: what joins the batch, and what is left.
    unfoldable pub extend : ℕ → List A → List A × List A
    extend taken [] = ([], [])
    extend taken (e ∷ es) =
        let (batch, rest) = extend (suc taken) es in
        if ltb taken batch_size
        then if ltb batch_tokens (suc taken * len e) then ([], e ∷ es) else (e ∷ batch, rest)
        else ([], e ∷ es)

    -- `while start < len(entries)`, for at most `n` batches.
    unfoldable pub physical_batches : ℕ → List A → List (List A)
    unfolding extend
    physical_batches zero entries = []
    physical_batches (suc n) [] = []
    physical_batches (suc n) (e ∷ es) =
        let (batch, rest) = extend 1 es in (e ∷ batch) ∷ physical_batches n rest

    extend-append : (taken : ℕ) (es : List A) → (extend taken es).0 ++ (extend taken es).1 ≡ es
    unfolding extend
    extend-append taken [] = refl
    extend-append taken (e ∷ es) = ground (arith, extend-append (suc taken) es)

    length-extend : (taken : ℕ) (es : List A) → length (extend taken es).1 ≤ length es
    unfolding extend
    length-extend taken [] = omega arith
    length-extend taken (e ∷ es) = ground (arith, length-extend (suc taken) es)

    extend-size :
        (taken : ℕ) (es : List A)
        → taken ≤ batch_size
        → taken + length (extend taken es).0 ≤ batch_size
    unfolding extend
    extend-size taken [] h = omega arith
    extend-size taken (e ∷ es) h = ground (arith, extend-size (suc taken) es)

  abbrev pub IsSortedFrom : ℕ → List A → Type 0
  IsSortedFrom low [] = Unit
  IsSortedFrom low (e ∷ es) = (low ≤ len e) × IsSortedFrom (len e) es

  -- The entries in the order of their lengths.
  abbrev pub IsSorted : List A → Type 0
  IsSorted es = IsSortedFrom 0 es

  place-IsSortedFrom :
      (low : ℕ) (e : A) (xs : List A)
      → low ≤ len e
      → IsSortedFrom low xs
      → IsSortedFrom low (place e xs)
  unfolding place
  place-IsSortedFrom low e [] h s = (h, tt)
  place-IsSortedFrom low e (x ∷ xs) h s = elim (Bool-cases (leb (len e) (len x))) [
    | inl le ↦ rw le (h, (ground arith, s.1))
    | inr gt ↦ rw gt (s.0, place-IsSortedFrom (len x) e xs (ground arith) s.1)
  ]

  sort_entries-IsSorted : (es : List A) → IsSorted (sort_entries es)
  unfolding sort_entries
  sort_entries-IsSorted [] = tt
  sort_entries-IsSorted (e ∷ es) =
      place-IsSortedFrom 0 e (sort_entries es) (omega arith) (sort_entries-IsSorted es)

  place-perm : (e : A) (xs : List A) → Perm (place e xs) (e ∷ xs)
  unfolding place
  place-perm e [] = Perm.refl (e ∷ [])
  place-perm e (x ∷ xs) = elim (Bool-cases (leb (len e) (len x))) [
    | inl le ↦ rw le (Perm.refl (e ∷ x ∷ xs))
    | inr gt ↦ rw gt (Perm.trans (Perm.cons x (place-perm e xs)) (Perm.swap e x xs))
  ]

  length-place : (e : A) (xs : List A) → length (place e xs) ≡ suc (length xs)
  unfolding place
  length-place e [] = refl
  length-place e (x ∷ xs) = ground (arith, length-place e xs)

  length-sort_entries : (es : List A) → length (sort_entries es) ≡ length es
  unfolding sort_entries
  length-sort_entries [] = refl
  length-sort_entries (e ∷ es) = length-place e (sort_entries es) ∙ ap suc (length-sort_entries es)

  sort_entries-perm : (es : List A) → Perm (sort_entries es) es
  unfolding sort_entries
  sort_entries-perm [] = Perm.nil
  sort_entries-perm (e ∷ es) =
      Perm.trans (place-perm e (sort_entries es)) (Perm.cons e (sort_entries-perm es))

  module _ (batch_size batch_tokens : ℕ) where
    -- What `entries[start:end]` of the physical batches are for one question type.
    unfoldable pub batches_of : List A → List (List A)
    batches_of es = physical_batches batch_size batch_tokens (length es) (sort_entries es)

    -- Padded to the width `w`, the entries fit into the token budget.
    abbrev pub FitsPadded : ℕ → List A → Type 0
    FitsPadded w b = All (λ e. len e ≤ w) b × (length b * w ≤ batch_tokens)

    -- A batch is not empty, has `batch_size` entries at most, and fits when padded to its widest
    -- entry, unless it is a single entry.
    abbrev pub IsPhysical : List A → Type 0
    IsPhysical b =
        (1 ≤ length b) × (length b ≤ batch_size) × ((length b ≡ 1) ⊎ ((w : ℕ) × FitsPadded w b))

    -- What `extend` adds to `taken` entries of length `low` at most.
    abbrev Extends : ℕ → ℕ → List A → Type 0
    Extends taken low b =
        (length b ≡ 0)
        ⊎ ((w : ℕ) × (low ≤ w) × All (λ e. len e ≤ w) b × ((taken + length b) * w ≤ batch_tokens))

    Extends-cons :
        (taken low : ℕ) (e : A) (b : List A)
        → low ≤ len e
        → suc taken * len e ≤ batch_tokens
        → Extends (suc taken) (len e) b
        → Extends taken low (e ∷ b)
    Extends-cons taken low e [] h fits ih =
        inr (len e, h, (omega arith, tt), subst (λ n. n * len e ≤ batch_tokens) (omega arith) fits)
    Extends-cons taken low e (x ∷ b) h fits (inl none_more) = absurd (omega arith)
    Extends-cons taken low e (x ∷ b) h fits (inr (w, le, narrow, area)) =
        inr (w, omega arith, (le, narrow), subst (λ n. n * w ≤ batch_tokens) (omega arith) area)

    extend-Extends :
        (taken low : ℕ) (es : List A)
        → IsSortedFrom low es
        → Extends taken low (extend batch_size batch_tokens taken es).0
    unfolding extend
    extend-Extends taken low [] s = inl refl
    extend-Extends taken low (e ∷ es) s = elim (Bool-cases (ltb taken batch_size)) [
      | inr full ↦ rw full (inl refl)
      | inl room ↦ elim (Bool-cases (ltb batch_tokens (suc taken * len e))) [
        | inl large ↦ rw (room, large) (inl refl)
        | inr fits ↦
            rw (room, fits)
              (Extends-cons taken low e (extend batch_size batch_tokens (suc taken) es).0 s.0
                (ground arith) (extend-Extends (suc taken) (len e) es s.1))
      ]
    ]

    extend-IsSorted :
        (taken low : ℕ) (es : List A)
        → IsSortedFrom low es
        → IsSorted (extend batch_size batch_tokens taken es).1
    unfolding extend
    extend-IsSorted taken low [] s = tt
    extend-IsSorted taken low (e ∷ es) s = elim (Bool-cases (ltb taken batch_size)) [
      | inr full ↦ rw full (omega arith, s.1)
      | inl room ↦ elim (Bool-cases (ltb batch_tokens (suc taken * len e))) [
        | inl large ↦ rw (room, large) (omega arith, s.1)
        | inr fits ↦ rw (room, fits) (extend-IsSorted (suc taken) (len e) es s.1)
      ]
    ]

    head-IsPhysical :
        (e : A) (b : List A)
        → suc (length b) ≤ batch_size
        → Extends 1 (len e) b
        → IsPhysical (e ∷ b)
    head-IsPhysical e b size (inl alone) = (omega arith, omega arith, inl (omega arith))
    head-IsPhysical e b size (inr (w, le, narrow, area)) = (
      omega arith,
      omega arith,
      inr (w, ((le, narrow), subst (λ n. n * w ≤ batch_tokens) (omega arith) area)),
    )

    physical_batches-flatten :
        (n : ℕ) (es : List A)
        → length es ≤ n
        → flatten (physical_batches batch_size batch_tokens n es) ≡ es
    unfolding physical_batches flatten
    physical_batches-flatten zero [] h = refl
    physical_batches-flatten zero (e ∷ es) h = absurd (omega arith)
    physical_batches-flatten (suc n) [] h = refl
    physical_batches-flatten (suc n) (e ∷ es) h =
        let (batch, rest) = extend batch_size batch_tokens 1 es in
        let shorter : length rest ≤ n = omega (arith, length-extend batch_size batch_tokens 1 es) in
        ap (λ l. e ∷ l)
          (ap (λ l. batch ++ l) (physical_batches-flatten n rest shorter)
            ∙ extend-append batch_size batch_tokens 1 es)

    physical_batches-IsPhysical :
        (n : ℕ) (es : List A)
        → 1 ≤ batch_size
        → IsSorted es
        → All IsPhysical (physical_batches batch_size batch_tokens n es)
    unfolding physical_batches
    physical_batches-IsPhysical zero es h s = tt
    physical_batches-IsPhysical (suc n) [] h s = tt
    physical_batches-IsPhysical (suc n) (e ∷ es) h s =
        let (batch, rest) = extend batch_size batch_tokens 1 es in
        (
          head-IsPhysical e batch (omega (arith, extend-size batch_size batch_tokens 1 es h))
              (extend-Extends 1 (len e) es s.1),
          physical_batches-IsPhysical n rest h (extend-IsSorted 1 (len e) es s.1),
        )

    -- With room for one entry in a batch, the batches hold every entry exactly once, ordered by
    -- length, and each batch is a physical batch within the limits.
    pub batches_of_lem :
        (es : List A)
        → 1 ≤ batch_size
        → Perm (flatten (batches_of es)) es
          × IsSorted (flatten (batches_of es))
          × All IsPhysical (batches_of es)
    unfolding batches_of
    batches_of_lem es h =
        let n : length (sort_entries es) ≤ length es = omega (arith, length-sort_entries es) in
        let whole = physical_batches-flatten (length es) (sort_entries es) n in
        (
          subst (λ l. Perm l es) (sym whole) (sort_entries-perm es),
          subst IsSorted (sym whole) (sort_entries-IsSorted es),
          physical_batches-IsPhysical (length es) (sort_entries es) h (sort_entries-IsSorted es),
        )
