-- ===== src/Engine/Batches.antt =====
-- The inner `while` of `evaluate`: how a batch is cut from `pending`.
use vllm_verifier.Base.{
  ℕ, suc, ◌+◌, ◌≤◌, ◌<◌, ◌≡◌, refl, ◌⊎◌, inl, inr, List, [], ◌∷◌, ◌++◌, arith, length, sum_by, ltb,
  Bool-cases,
}
use vllm_verifier.Engine.{EngineConfig, WorkItem, reserved_tokens, take_batch}

module _ {F : Type 0} (cfg : EngineConfig) where
  abbrev pub batch_tokens : List (WorkItem F) → ℕ
  batch_tokens = sum_by reserved_tokens

  -- A job that `_job` lets through fits into a batch of its own.
  abbrev pub FitsBatch : WorkItem F → Type 0
  FitsBatch j = reserved_tokens j ≤ cfg.max_batch_tokens

  pub take_batch-append :
      (size reserved : ℕ) (pending : List (WorkItem F))
      → (take_batch cfg size reserved pending).0 ++ (take_batch cfg size reserved pending).1
        ≡ pending
  unfolding take_batch
  take_batch-append size reserved [] = refl
  take_batch-append size reserved (j ∷ pending) =
      ground (arith, take_batch-append (suc size) (reserved + reserved_tokens j) pending)

  pub length-take_batch-le :
      (size reserved : ℕ) (pending : List (WorkItem F))
      → size ≤ cfg.max_batch_questions
      → size + length (take_batch cfg size reserved pending).0 ≤ cfg.max_batch_questions
  unfolding take_batch
  length-take_batch-le size reserved [] h = omega arith
  length-take_batch-le size reserved (j ∷ pending) h =
      ground (arith, length-take_batch-le (suc size) (reserved + reserved_tokens j) pending)

  pub batch_tokens-take_batch-le :
      (size reserved : ℕ) (pending : List (WorkItem F))
      → reserved ≤ cfg.max_batch_tokens
      → reserved + batch_tokens (take_batch cfg size reserved pending).0 ≤ cfg.max_batch_tokens
  unfolding take_batch
  batch_tokens-take_batch-le size reserved [] h = omega arith
  batch_tokens-take_batch-le size reserved (j ∷ pending) h =
      ground (arith, batch_tokens-take_batch-le (suc size) (reserved + reserved_tokens j) pending)

  -- What stops the loop: nothing is left, the batch is full, or the next job is too large.
  abbrev pub Stopped : (size reserved : ℕ) (batch rest : List (WorkItem F)) → Type 0
  Stopped size reserved batch [] = Unit
  Stopped size reserved batch (j ∷ rest) =
      (cfg.max_batch_questions ≤ size + length batch)
      ⊎ (cfg.max_batch_tokens < reserved + batch_tokens batch + reserved_tokens j)

  Stopped-cons :
      (size reserved : ℕ) (j : WorkItem F) (batch rest : List (WorkItem F))
      → Stopped (suc size) (reserved + reserved_tokens j) batch rest
      → Stopped size reserved (j ∷ batch) rest
  Stopped-cons size reserved j batch [] h = tt
  Stopped-cons size reserved j batch (k ∷ rest) h = omega arith

  take_batch-Stopped :
      (size reserved : ℕ) (pending : List (WorkItem F))
      → Stopped size reserved
          (take_batch cfg size reserved pending).0
          (take_batch cfg size reserved pending).1
  unfolding take_batch
  take_batch-Stopped size reserved [] = tt
  take_batch-Stopped size reserved (j ∷ pending) =
      let (batch, rest) = take_batch cfg (suc size) (reserved + reserved_tokens j) pending in
      let ih =
        Stopped-cons size reserved j batch rest
          (take_batch-Stopped (suc size) (reserved + reserved_tokens j) pending) in
      elim (Bool-cases (ltb size cfg.max_batch_questions)) [
        | inr full ↦ rw full (inl (ground arith))
        | inl room ↦ elim (Bool-cases (ltb cfg.max_batch_tokens (reserved + reserved_tokens j))) [
          | inl large ↦ rw (room, large) (inr (ground arith))
          | inr fits ↦ rw (room, fits) ih
        ]
      ]

  pub take_batch-nonempty :
      (j : WorkItem F) (pending : List (WorkItem F))
      → 1 ≤ cfg.max_batch_questions
      → FitsBatch j
      → 1 ≤ length (take_batch cfg 0 0 (j ∷ pending)).0
  unfolding take_batch
  take_batch-nonempty j pending some_room fits = ground arith

  -- If a batch may hold a question and the first job fits into a batch by itself, then the batch
  -- is a first part of `pending` that is not empty, is within both limits, and is as long as they
  -- allow.
  pub take_batch_lem :
      (j : WorkItem F) (pending : List (WorkItem F))
      → 1 ≤ cfg.max_batch_questions
      → FitsBatch j
      → let (batch, rest) = take_batch cfg 0 0 (j ∷ pending) in
        (batch ++ rest ≡ j ∷ pending)
        × (1 ≤ length batch)
        × (length batch ≤ cfg.max_batch_questions)
        × (batch_tokens batch ≤ cfg.max_batch_tokens)
        × Stopped 0 0 batch rest
  take_batch_lem j pending room fits = (
    take_batch-append 0 0 (j ∷ pending),
    take_batch-nonempty j pending room fits,
    omega (arith, length-take_batch-le 0 0 (j ∷ pending)),
    omega (arith, batch_tokens-take_batch-le 0 0 (j ∷ pending)),
    take_batch-Stopped 0 0 (j ∷ pending),
  )
