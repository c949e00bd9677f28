-- ===== src/Engine/Prefix.antt =====
-- The count of token-identical prefixes that `evaluate` reports.
use vllm_verifier.Base.{
  ℕ, zero, suc, ◌≤◌, ◌<◌, ◌≡◌, refl, subst, sym, inl, inr, true, false, List, [], ◌∷◌, Option, some,
  none, arith, length, All, all, get_elem?, map, Bool-cases, Option-cases, ◌==◌, &&_true,
}
use vllm_verifier.Engine.{
  WorkItem, heads, tails, one_value, prefix_loop, prefix_step, shared_prefix,
}

-- Every row has `c` at `i`.
abbrev Agree : ℕ → ℕ → List (List ℕ) → Type 0
Agree i c rows = All (λ (row : List ℕ). get_elem? row i ≡ some c) rows

heads-Agree :
    (x : ℕ) (rows : List (List ℕ)) {xs : List ℕ}
    → heads rows ≡ some xs
    → all (λ y. y == x) xs ≡ true
    → Agree 0 x rows
heads-Agree x [] h a = tt
heads-Agree x ([] ∷ rows) h a = cc
heads-Agree x ((y ∷ row) ∷ rows) {xs} h a = elim (Option-cases (heads rows)) [
  | inl out ↦ absurd (ground arith)
  | inr (ys, e) ↦
      let whole : y ∷ ys ≡ xs = ground arith in
      let (first, rest) =
        &&_true (y == x) (all (λ z. z == x) ys)
          (subst (λ (l : List ℕ). all (λ z. z == x) l ≡ true) (sym whole) a) in
      (ground arith, heads-Agree x rows e rest)
]

Agree-heads :
    (c : ℕ) (rows : List (List ℕ))
    → Agree 0 c rows
    → (xs : List ℕ) × (heads rows ≡ some xs) × (all (λ y. y == c) xs ≡ true)
Agree-heads c [] h = ([], refl, refl)
Agree-heads c ([] ∷ rows) h = absurd (ground arith)
Agree-heads c ((y ∷ row) ∷ rows) h =
    let (xs, e, a) = Agree-heads c rows h.1 in (y ∷ xs, rw e, ground (arith, h.0, a))

Agree-tails : (i c : ℕ) (rows : List (List ℕ)) → Agree i c (tails rows) → Agree (suc i) c rows
Agree-tails i c [] h = tt
Agree-tails i c ([] ∷ rows) h = (ground arith, Agree-tails i c rows h.1)
Agree-tails i c ((y ∷ row) ∷ rows) h = (h.0, Agree-tails i c rows h.1)

tails-Agree : (i c : ℕ) (rows : List (List ℕ)) → Agree (suc i) c rows → Agree i c (tails rows)
tails-Agree i c [] h = tt
tails-Agree i c ([] ∷ rows) h = (ground arith, tails-Agree i c rows h.1)
tails-Agree i c ((y ∷ row) ∷ rows) h = (h.0, tails-Agree i c rows h.1)

-- What a count `n` of common first columns means.
pub record IsCommon (n : ℕ) (rows : List (List ℕ)) : Type 0 where
  pub agree : (i : ℕ) → i < n → (c : ℕ) × Agree i c rows
  pub stop : (c : ℕ) → ¬ Agree n c rows

stops : (rows : List (List ℕ)) → ((c : ℕ) → ¬ Agree 0 c rows) → IsCommon 0 rows
stops rows h = record { agree = λ i lt. absurd (omega arith); stop = h }

one_value_of :
    (c x : ℕ) (xs : List ℕ) → all (λ y. y == c) (x ∷ xs) ≡ true → one_value (x ∷ xs) ≡ true
one_value_of c x xs h =
    let (first, rest) = &&_true (x == c) (all (λ y. y == c) xs) h in
    let same : x ≡ c = ground arith in rw same rest

column_stops :
    (x : ℕ) (row : List ℕ) (rows : List (List ℕ)) (column : List ℕ)
    → heads ((x ∷ row) ∷ rows) ≡ some column
    → one_value column ≡ false
    → (c : ℕ) → ¬ Agree 0 c ((x ∷ row) ∷ rows)
column_stops x row rows [] e differ c h = absurd (ground arith)
column_stops x row rows (y ∷ ys) e differ c h =
    let (xs, e', a) = Agree-heads c ((x ∷ row) ∷ rows) h in
    let same : xs ≡ y ∷ ys = cc in
    let one : one_value (y ∷ ys) ≡ true =
      one_value_of c y ys (subst (λ (l : List ℕ). all (λ z. z == c) l ≡ true) same a) in
    cc

column_agrees :
    (rows : List (List ℕ)) (column : List ℕ)
    → heads rows ≡ some column
    → one_value column ≡ true
    → (c : ℕ) × Agree 0 c rows
column_agrees rows [] e one = cc
column_agrees [] (x ∷ xs) e one = cc
column_agrees ([] ∷ rows) (x ∷ xs) e one = cc
column_agrees ((y ∷ row) ∷ rows) (x ∷ xs) e one =
    (x, heads-Agree x ((y ∷ row) ∷ rows) e (ground (arith, one)))

IsCommon-suc :
    (n : ℕ) (rows : List (List ℕ))
    → ((c : ℕ) × Agree 0 c rows)
    → IsCommon n (tails rows)
    → IsCommon (suc n) rows
IsCommon-suc n rows first h = record {
  agree = λ i lt. at i lt;
  stop = λ c agree. h.stop c (tails-Agree n c rows agree);
}
  where
    at : (i : ℕ) → i < suc n → (c : ℕ) × Agree i c rows
    at zero lt = first
    at (suc i) lt = let (c, a) = h.agree i (omega arith) in (c, Agree-tails i c rows a)

prefix_loop-IsCommon :
    (n : ℕ) (row : List ℕ) (rows : List (List ℕ))
    → length row ≤ n
    → IsCommon (prefix_loop n (row ∷ rows)) (row ∷ rows)
unfolding prefix_loop
prefix_loop-IsCommon zero [] rows h = stops ([] ∷ rows) (λ c agree. ground (arith, agree.0))
prefix_loop-IsCommon zero (x ∷ row) rows h = absurd (omega arith)
prefix_loop-IsCommon (suc n) [] rows h = stops ([] ∷ rows) (λ c agree. ground (arith, agree.0))
prefix_loop-IsCommon (suc n) (x ∷ row) rows h =
    loop (heads ((x ∷ row) ∷ rows)) refl (prefix_loop-IsCommon n row (tails rows) (omega arith))
  where
    loop :
        (o : Option (List ℕ))
        → heads ((x ∷ row) ∷ rows) ≡ o
        → IsCommon (prefix_loop n (row ∷ tails rows)) (row ∷ tails rows)
        → IsCommon (prefix_step (prefix_loop n (row ∷ tails rows)) o) ((x ∷ row) ∷ rows)
    loop none e ih =
        stops _ (λ c agree. let (xs, e', a) = Agree-heads c ((x ∷ row) ∷ rows) agree in cc)
    loop (some column) e ih = elim (Bool-cases (one_value column)) [
      | inl one ↦
          rw one
            (IsCommon-suc _ ((x ∷ row) ∷ rows) (column_agrees ((x ∷ row) ∷ rows) column e one) ih)
      | inr differ ↦ rw differ (stops _ (column_stops x row rows column e differ))
    ]

-- For a request of two questions or more the entry of `shared_prefix_tokens` is exactly the length
-- of the longest prefix that the prompts of all its questions share.
pub shared_prefix-IsCommon :
    {F : Type 0} (j k : WorkItem F) (queue : List (WorkItem F))
    → IsCommon (shared_prefix (j ∷ k ∷ queue)) (map (λ i. i.token_ids) (j ∷ k ∷ queue))
unfolding shared_prefix
shared_prefix-IsCommon j k queue =
    prefix_loop-IsCommon (length j.token_ids) j.token_ids (map (λ i. i.token_ids) (k ∷ queue))
      (omega arith)
