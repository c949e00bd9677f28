-- ===== src/Engine/Rounds.antt =====
-- The round-robin that fills `pending` from the queues of the requests.
use mathlib.Core.List.{flatten, Sublist, Perm, nil-sublist, perm_append_comm}
use mathlib.Core.List.Perm
use mathlib.Core.List.Sublist
use vllm_verifier.Base.{
  ℕ, zero, suc, ◌+◌, ◌≤◌, ◌≡◌, refl, sym, subst, inl, inr, true, false, List, [], ◌∷◌, ◌++◌,
  append_assoc, some, arith, length, length-append, sum_by, sum_by-append, All, All-append, Any,
  Any-append_left, Any-append_right, ◌⊎◌, get_elem?, Bool-cases,
}
use vllm_verifier.Engine.{firsts, tails, all_empty, round_robin}

module _ {ℓ} {A : Type ℓ} where
  all_empty-flatten : (queues : List (List A)) → all_empty queues ≡ true → flatten queues ≡ []
  unfolding flatten
  all_empty-flatten [] h = refl
  all_empty-flatten ([] ∷ queues) h = all_empty-flatten queues h
  all_empty-flatten ((x ∷ queue) ∷ queues) h = cc

  firsts-tails-perm :
      (queues : List (List A)) → Perm (firsts queues ++ flatten (tails queues)) (flatten queues)
  unfolding flatten
  firsts-tails-perm [] = Perm.nil
  firsts-tails-perm ([] ∷ queues) = firsts-tails-perm queues
  firsts-tails-perm ((x ∷ queue) ∷ queues) = Perm.cons x (
      Perm.trans (moved (firsts queues) queue (flatten (tails queues)))
        (Perm.append_left queue (firsts-tails-perm queues)))
    where
      moved : (a b c : List A) → Perm (a ++ (b ++ c)) (b ++ (a ++ c))
      moved a b c =
          subst (λ l. Perm l (b ++ (a ++ c))) (append_assoc a b c)
            (subst (Perm ((a ++ b) ++ c)) (append_assoc b a c)
              (Perm.append_right c (perm_append_comm a b)))

  -- Every count that adds up over jobs falls by that of the first jobs.
  pub sum_by-firsts-tails :
      (f : A → ℕ) (queues : List (List A))
      → sum_by f (firsts queues) + sum_by (sum_by f) (tails queues) ≡ sum_by (sum_by f) queues
  sum_by-firsts-tails f [] = omega arith
  sum_by-firsts-tails f ([] ∷ queues) = omega (arith, sum_by-firsts-tails f queues)
  sum_by-firsts-tails f ((x ∷ queue) ∷ queues) = omega (arith, sum_by-firsts-tails f queues)

  length-firsts-tails :
      (queues : List (List A))
      → length (firsts queues) + sum_by length (tails queues) ≡ sum_by length queues
  length-firsts-tails [] = omega arith
  length-firsts-tails ([] ∷ queues) = omega (arith, length-firsts-tails queues)
  length-firsts-tails ((x ∷ queue) ∷ queues) = omega (arith, length-firsts-tails queues)

  firsts_some : (queues : List (List A)) → all_empty queues ≡ false → 1 ≤ length (firsts queues)
  firsts_some [] h = cc
  firsts_some ([] ∷ queues) h = firsts_some queues h
  firsts_some ((x ∷ queue) ∷ queues) h = omega arith

  none_left : (queues : List (List A)) → sum_by length queues ≤ 0 → all_empty queues ≡ true
  none_left [] h = refl
  none_left ([] ∷ queues) h = none_left queues (omega arith)
  none_left ((x ∷ queue) ∷ queues) h = absurd (omega arith)

  round_robin-perm :
      (n : ℕ) (queues : List (List A))
      → sum_by length queues ≤ n
      → Perm (round_robin n queues) (flatten queues)
  unfolding round_robin
  round_robin-perm zero queues h = rw (all_empty-flatten queues (none_left queues h)) Perm.nil
  round_robin-perm (suc n) queues h = elim (Bool-cases (all_empty queues)) [
    | inl done ↦ rw (done, all_empty-flatten queues done) Perm.nil
    | inr more ↦
        let fewer : sum_by length (tails queues) ≤ n =
          omega (arith, length-firsts-tails queues, firsts_some queues more) in
        rw more (
          Perm.trans (Perm.append_left (firsts queues) (round_robin-perm n (tails queues) fewer))
            (firsts-tails-perm queues))
  ]

  pub sum_by-round_robin-le :
      (f : A → ℕ) (n : ℕ) (queues : List (List A))
      → sum_by f (round_robin n queues) ≤ sum_by (sum_by f) queues
  unfolding round_robin
  sum_by-round_robin-le f zero queues = omega arith
  sum_by-round_robin-le f (suc n) queues = elim (Bool-cases (all_empty queues)) [
    | inl done ↦ rw done (omega arith)
    | inr more ↦ rw more (
        omega (
          arith,
          sum_by-append f (firsts queues) (round_robin n (tails queues)),
          sum_by-round_robin-le f n (tails queues),
          sum_by-firsts-tails f queues,
        ))
  ]

  all_empty-length : (queues : List (List A)) → all_empty queues ≡ true → sum_by length queues ≡ 0
  all_empty-length [] h = refl
  all_empty-length ([] ∷ queues) h = omega (arith, all_empty-length queues h)
  all_empty-length ((x ∷ queue) ∷ queues) h = cc

  pub length-round_robin :
      (n : ℕ) (queues : List (List A))
      → sum_by length queues ≤ n
      → length (round_robin n queues) ≡ sum_by length queues
  unfolding round_robin
  length-round_robin zero queues h = omega arith
  length-round_robin (suc n) queues h = elim (Bool-cases (all_empty queues)) [
    | inl done ↦ rw done (sym (all_empty-length queues done))
    | inr more ↦ rw more (
        omega (
          arith,
          length-append (firsts queues) (round_robin n (tails queues)),
          length-round_robin n (tails queues),
          length-firsts-tails queues,
          firsts_some queues more,
        ))
  ]

  module _ {κ} (P : A → Type κ) where
    All-firsts : (queues : List (List A)) → All (All P) queues → All P (firsts queues)
    All-firsts [] h = tt
    All-firsts ([] ∷ queues) h = All-firsts queues h.1
    All-firsts ((x ∷ queue) ∷ queues) h = (h.0.0, All-firsts queues h.1)

    All-tails : (queues : List (List A)) → All (All P) queues → All (All P) (tails queues)
    All-tails [] h = tt
    All-tails ([] ∷ queues) h = (tt, All-tails queues h.1)
    All-tails ((x ∷ queue) ∷ queues) h = (h.0.1, All-tails queues h.1)

    pub All-round_robin :
        (n : ℕ) (queues : List (List A)) → All (All P) queues → All P (round_robin n queues)
    unfolding round_robin
    All-round_robin zero queues h = tt
    All-round_robin (suc n) queues h = elim (Bool-cases (all_empty queues)) [
      | inl done ↦ rw done tt
      | inr more ↦ rw more (
          All-append P (firsts queues) _ (All-firsts queues h)
            (All-round_robin n (tails queues) (All-tails queues h)))
    ]

  module _ (P : A → Type 0) where
    -- Some job of some queue has `P`.
    abbrev pub Some : List (List A) → Type 0
    Some [] = ⊥
    Some (queue ∷ queues) = Any P queue ⊎ Some queues

    Some-firsts-tails :
        (queues : List (List A)) → Some queues → Any P (firsts queues) ⊎ Some (tails queues)
    Some-firsts-tails [] h = absurd h
    Some-firsts-tails ([] ∷ queues) (inl h) = absurd h
    Some-firsts-tails ([] ∷ queues) (inr h) = elim (Some-firsts-tails queues h) [
      | inl a ↦ inl a
      | inr b ↦ inr (inr b)
    ]
    Some-firsts-tails ((x ∷ queue) ∷ queues) (inl (inl h)) = inl (inl h)
    Some-firsts-tails ((x ∷ queue) ∷ queues) (inl (inr h)) = inr (inl h)
    Some-firsts-tails ((x ∷ queue) ∷ queues) (inr h) = elim (Some-firsts-tails queues h) [
      | inl a ↦ inl (inr a)
      | inr b ↦ inr (inr b)
    ]

    all_empty-Some : (queues : List (List A)) → all_empty queues ≡ true → ¬ Some queues
    all_empty-Some [] done h = absurd h
    all_empty-Some ([] ∷ queues) done (inl h) = absurd h
    all_empty-Some ([] ∷ queues) done (inr h) = all_empty-Some queues done h
    all_empty-Some ((x ∷ queue) ∷ queues) done h = cc

    pub Any-round_robin :
        (n : ℕ) (queues : List (List A))
        → sum_by length queues ≤ n
        → Some queues
        → Any P (round_robin n queues)
    unfolding round_robin
    Any-round_robin zero queues h s = absurd (all_empty-Some queues (none_left queues h) s)
    Any-round_robin (suc n) queues h s = elim (Bool-cases (all_empty queues)) [
      | inl done ↦ absurd (all_empty-Some queues done s)
      | inr more ↦
          let fewer : sum_by length (tails queues) ≤ n =
            omega (arith, length-firsts-tails queues, firsts_some queues more) in
          rw more (elim (Some-firsts-tails queues s) [
            | inl a ↦ Any-append_left P (firsts queues) _ a
            | inr b ↦
                Any-append_right P (firsts queues) _ (Any-round_robin n (tails queues) fewer b)
          ])
    ]

  -- A queue splits over the first jobs and the rest.
  queue_split :
      (i : ℕ) (queues : List (List A)) (q : List A)
      → get_elem? queues i ≡ some q
      → (h t : List A) × (q ≡ h ++ t)
        × Sublist h (firsts queues)
        × (get_elem? (tails queues) i ≡ some t)
  queue_split i [] q e = cc
  queue_split zero ([] ∷ queues) q e = ([], [], cc, nil-sublist _, refl)
  queue_split zero ((x ∷ l) ∷ queues) q e =
      (x ∷ [], l, cc, Sublist.cons-cons x (nil-sublist _), refl)
  queue_split (suc i) ([] ∷ queues) q e = queue_split i queues q e
  queue_split (suc i) ((x ∷ l) ∷ queues) q e =
      let (h, t, same, first, rest) = queue_split i queues q e in
      (h, t, same, Sublist.cons x first, rest)

  all_empty-queue :
      (i : ℕ) (queues : List (List A)) (q : List A)
      → all_empty queues ≡ true
      → get_elem? queues i ≡ some q
      → q ≡ []
  all_empty-queue i [] q done e = cc
  all_empty-queue zero ([] ∷ queues) q done e = cc
  all_empty-queue (suc i) ([] ∷ queues) q done e = all_empty-queue i queues q done e
  all_empty-queue i ((x ∷ l) ∷ queues) q done e = cc

  round_robin-sublist :
      (n i : ℕ) (queues : List (List A)) (q : List A)
      → sum_by length queues ≤ n
      → get_elem? queues i ≡ some q
      → Sublist q (round_robin n queues)
  unfolding round_robin
  round_robin-sublist zero i queues q h e =
      rw (all_empty-queue i queues q (none_left queues h) e) (nil-sublist _)
  round_robin-sublist (suc n) i queues q h e = elim (Bool-cases (all_empty queues)) [
    | inl done ↦ rw (all_empty-queue i queues q done e) (nil-sublist _)
    | inr more ↦
        let (first, rest, same, front, back) = queue_split i queues q e in
        let fewer : sum_by length (tails queues) ≤ n =
          omega (arith, length-firsts-tails queues, firsts_some queues more) in
        rw (more, same)
          (Sublist.append front (round_robin-sublist n i (tails queues) rest fewer back))
  ]

  -- Given at least as many rounds as there are jobs, the round-robin schedules every job of every
  -- queue exactly once, and keeps the order of each queue `q`.
  pub round_robin_lem :
      (n : ℕ) (queues : List (List A)) (i : ℕ) (q : List A)
      → sum_by length queues ≤ n
      → get_elem? queues i ≡ some q
      → Perm (round_robin n queues) (flatten queues) × Sublist q (round_robin n queues)
  round_robin_lem n queues i q h at =
      (round_robin-perm n queues h, round_robin-sublist n i queues q h at)
