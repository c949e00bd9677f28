-- ===== src/Decision/Queue/Futures.antt =====
-- When a future is done, and how jobs move between the queue, the batch and the live jobs.
use vllm_verifier.Base.{
  ℕ, zero, suc, ◌≡◌, ◌≤◌, ◌<◌, refl, subst, ◌⊎◌, inl, inr, Bool, true, false, ◌||◌, List, [], ◌∷◌,
  ◌++◌, arith, length, take, drop, leb, ◌==◌, Bool-cases, ==_iff,
}
use vllm_verifier.Errors.{ServiceError}
use vllm_verifier.Models.{SystemOneResponse}
use vllm_verifier.Decision.Queue.{
  Job, Outcome, is_done, resolve, fail_all, outcome_of, set_results, live_of,
}

pub ltb_room : {a b : ℕ} → leb a b ≡ false → b < a
ltb_room h = ground arith

pub or_left : (a b : Bool) → a ≡ true → (a || b) ≡ true
or_left a b h = rw h refl

pub or_right : (a b : Bool) → b ≡ true → (a || b) ≡ true
or_right true b h = refl
or_right false b h = h

pub or_cases : (a b : Bool) → (a || b) ≡ true → (a ≡ true) ⊎ (b ≡ true)
or_cases true b h = inl refl
or_cases false b h = inr h

pub fill_moves : (t r j d : Bool) → ((t || r) || (j || d)) ≡ true → (r || ((j || t) || d)) ≡ true
fill_moves true true j d h = refl
fill_moves true false true d h = refl
fill_moves true false false d h = refl
fill_moves false true j d h = refl
fill_moves false false true d h = refl
fill_moves false false false d h = h

pub close_moves : (q j d : Bool) → (q || (j || d)) ≡ true → ((j || q) || d) ≡ true
close_moves true true d h = refl
close_moves true false d h = refl
close_moves false true d h = refl
close_moves false false d h = h

pub first_moves :
    (a q d : Bool) → ((a || q) || (false || d)) ≡ true → (q || ((a || false) || d)) ≡ true
first_moves true true d h = refl
first_moves true false d h = refl
first_moves false q d h = h

module _ {ℓ} {A : Type ℓ} where
  pub length-take-le : (n : ℕ) (xs : List A) → length (take n xs) ≤ n
  length-take-le zero xs = omega arith
  length-take-le (suc n) [] = omega arith
  length-take-le (suc n) (x ∷ xs) = omega (arith, length-take-le n xs)

  pub length-drop-le : (n : ℕ) (xs : List A) → length (drop n xs) ≤ length xs
  length-drop-le zero xs = omega arith
  length-drop-le (suc n) [] = omega arith
  length-drop-le (suc n) (x ∷ xs) = omega (arith, length-drop-le n xs)

  pub drop-nil : (n : ℕ) → ◌≡◌ {A = List A} (drop n []) []
  drop-nil zero = refl
  drop-nil (suc n) = refl

  pub take-nil : (n : ℕ) → ◌≡◌ {A = List A} (take n []) []
  take-nil zero = refl
  take-nil (suc n) = refl

module _ {F : Type 0} where
  abbrev pub has_job : ℕ → List (Job F) → Bool
  has_job id [] = false
  has_job id (j ∷ jobs) = j.id == id || has_job id jobs

  pub has_job-append :
      (id : ℕ) (xs ys : List (Job F)) → has_job id (xs ++ ys) ≡ (has_job id xs || has_job id ys)
  has_job-append id [] ys = refl
  has_job-append id (x ∷ xs) ys = ground (arith, has_job-append id xs ys)

  pub has_job-take-drop :
      (id n : ℕ) (xs : List (Job F))
      → has_job id xs ≡ (has_job id (take n xs) || has_job id (drop n xs))
  has_job-take-drop id zero xs = refl
  has_job-take-drop id (suc n) [] = refl
  has_job-take-drop id (suc n) (x ∷ xs) = ground (arith, has_job-take-drop id n xs)

  pub is_done-resolve :
      (id j : ℕ) (o : Outcome F) (done : List (ℕ × Outcome F))
      → (j == id || is_done id done) ≡ true
      → is_done id (resolve j o done) ≡ true
  unfolding resolve
  is_done-resolve id j o done h = elim (Bool-cases (is_done j done)) [
    | inl had ↦ elim (or_cases (j == id) (is_done id done) h) [
      | inl same ↦ rw had (subst (λ x. is_done x done ≡ true) ((==_iff j id).0 same) had)
      | inr old ↦ rw had old
    ]
    | inr new ↦ rw new h
  ]

  pub is_done-fail_all :
      (id : ℕ) (jobs : List (Job F)) (o : Outcome F) (done : List (ℕ × Outcome F))
      → (has_job id jobs || is_done id done) ≡ true
      → is_done id (fail_all jobs o done) ≡ true
  unfolding fail_all
  is_done-fail_all id [] o done h = h
  is_done-fail_all id (j ∷ jobs) o done h =
      is_done-fail_all id jobs o (resolve j.id o done)
        (elim (or_cases (j.id == id || has_job id jobs) (is_done id done) h) [
          | inr old ↦
              or_right (has_job id jobs) _
                (is_done-resolve id j.id o done (or_right (j.id == id) _ old))
          | inl one ↦ elim (or_cases (j.id == id) (has_job id jobs) one) [
            | inl same ↦
                or_right (has_job id jobs) _
                  (is_done-resolve id j.id o done (or_left (j.id == id) (is_done id done) same))
            | inr later ↦ or_left (has_job id jobs) _ later
          ]
        ])

  pub is_done-set_results :
      (id : ℕ) (jobs : List (Job F)) (results : List (SystemOneResponse F ⊎ ServiceError))
      (done : List (ℕ × Outcome F))
      → length results ≡ length jobs
      → (has_job id jobs || is_done id done) ≡ true
      → is_done id (set_results jobs results done) ≡ true
  unfolding set_results
  is_done-set_results id [] results done n h = h
  is_done-set_results id (j ∷ jobs) [] done n h = absurd (omega arith)
  is_done-set_results id (j ∷ jobs) (r ∷ results) done n h =
      is_done-set_results id jobs results (resolve j.id (outcome_of r) done) (omega arith)
        (elim (or_cases (j.id == id || has_job id jobs) (is_done id done) h) [
          | inr old ↦
              or_right (has_job id jobs) _
                (is_done-resolve id j.id (outcome_of r) done (or_right (j.id == id) _ old))
          | inl one ↦ elim (or_cases (j.id == id) (has_job id jobs) one) [
            | inl same ↦ or_right (has_job id jobs) _ (
                is_done-resolve id j.id (outcome_of r) done
                  (or_left (j.id == id) (is_done id done) same))
            | inr later ↦ or_left (has_job id jobs) _ later
          ]
        ])

  pub live_of-done :
      (id : ℕ) (jobs : List (Job F)) (done : List (ℕ × Outcome F))
      → has_job id jobs ≡ true
      → (has_job id (live_of jobs done) || is_done id done) ≡ true
  unfolding live_of
  live_of-done id [] done h = cc
  live_of-done id (j ∷ jobs) done h = elim (Bool-cases (is_done j.id done)) [
    | inl had ↦ elim (or_cases (j.id == id) (has_job id jobs) h) [
      | inl same ↦ rw had (
          or_right (has_job id (live_of jobs done)) _
            (subst (λ x. is_done x done ≡ true) ((==_iff j.id id).0 same) had))
      | inr later ↦ rw had (live_of-done id jobs done later)
    ]
    | inr waits ↦ elim (or_cases (j.id == id) (has_job id jobs) h) [
      | inl same ↦ rw (waits, same) refl
      | inr later ↦ rw waits (
          skip_head (j.id == id) (has_job id (live_of jobs done)) (is_done id done)
            (live_of-done id jobs done later))
    ]
  ]
    where
      skip_head : (a b c : Bool) → (b || c) ≡ true → ((a || b) || c) ≡ true
      skip_head true b c e = refl
      skip_head false b c e = e
