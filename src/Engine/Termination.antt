-- ===== src/Engine/Termination.antt =====
-- The loop over `pending` ends: the tries that are left shrink with every batch.
use vllm_verifier.Base.{
  ℕ, zero, suc, ◌+◌, ◌-◌, ◌≤◌, ◌<◌, ◌≡◌, ◌≢◌, ◌∙◌, subst, refl, ap, sym, inl, inr, List, [], ◌∷◌,
  ◌++◌, none, arith, Text, length, sum_by, sum_by-append, All, All-append, All-append_left,
  All-append_right, Bool-cases, ◌==◌,
}
use vllm_verifier.Errors.{Result, ok, err, >>=-eq-ok}
use vllm_verifier.Models.{Completion}
use vllm_verifier.Engine.{WorkItem, reserved_tokens, DecisionEngine, Progress, take_batch}
use vllm_verifier.Engine.Batches.{take_batch-append, take_batch-nonempty}
use vllm_verifier.Engine.Steps.{Absorbed, answered, repaired, absorb-Absorbed}
use vllm_verifier.Engine.Loop.{drain_end, drain_next, drain_raise}
use vllm_verifier.Engine.Evaluate.{absorb, absorb_all, settle, round, drain, count_batch}

module _ (e : DecisionEngine) where
  open e use {floats, config}
  open floats use {F}

  -- The tries that a job has left, this one included.
  abbrev pub tries : WorkItem F → ℕ
  tries j = suc config.validation_retries - j.attempt

  abbrev pub tries_left : List (WorkItem F) → ℕ
  tries_left = sum_by tries

  -- A job in `pending`: it fits into a batch, and may be tried.
  abbrev pub IsPending : WorkItem F → Type 0
  IsPending j =
      (reserved_tokens j ≤ config.max_batch_tokens) × (j.attempt ≤ config.validation_retries)

  Absorbed-tries_left :
      {job : WorkItem F} {c : Completion} {p q : Progress F}
      → Absorbed e job c p q
      → job.attempt ≤ config.validation_retries
      → suc (tries_left q.pending) ≤ tries_left p.pending + tries job
  Absorbed-tries_left {job} {c} {p} {q} (answered a j eq) h = rw eq (omega arith)
  Absorbed-tries_left {job} {c} {p} {q} (repaired m next j low made eq) h =
      rw eq (omega (arith, sum_by-append tries p.pending (next ∷ []), made.attempt))

  Absorbed-IsPending :
      {job : WorkItem F} {c : Completion} {p q : Progress F}
      → Absorbed e job c p q
      → All IsPending p.pending
      → All IsPending q.pending
  Absorbed-IsPending {p = p} (answered a j eq) h = rw eq h
  Absorbed-IsPending {p = p} (repaired m next j low made eq) h = rw eq (
      All-append IsPending p.pending (next ∷ []) h
        (((made.fits_batch, omega (arith, made.attempt)), tt)))

  pub absorb_all-tries_left :
      (states : List Text) (jobs : List (WorkItem F)) (cs : List Completion) (p : Progress F)
      {q : Progress F}
      → length cs ≡ length jobs
      → All IsPending jobs
      → All IsPending p.pending
      → absorb_all e states jobs cs p ≡ ok q
      → (tries_left q.pending + length jobs ≤ tries_left p.pending + tries_left jobs)
        × All IsPending q.pending
  unfolding absorb_all
  absorb_all-tries_left states [] cs p {q} n hj hp eq =
      let same : p ≡ q = cc in
      subst
        (λ (x : Progress F).
          (tries_left x.pending + 0 ≤ tries_left p.pending + 0) × All IsPending x.pending)
        same (omega arith, hp)
  absorb_all-tries_left states (j ∷ jobs) [] p n hj hp eq = absurd (omega arith)
  absorb_all-tries_left states (j ∷ jobs) (c ∷ cs) p n hj hp eq =
      let (next, one, rest) = >>=-eq-ok (absorb e states j c p) _ eq in
      let step = absorb-Absorbed e states j c p one in
      let (fewer, kept) =
        absorb_all-tries_left states jobs cs next (omega arith) hj.1 (Absorbed-IsPending step hp)
          rest in
      (omega (arith, Absorbed-tries_left step hj.0.1), kept)

  settle-tries_left :
      (states : List Text) (batch : List (WorkItem F)) (r : Result (List Completion))
      (p : Progress F) {q : Progress F}
      → All IsPending batch
      → All IsPending p.pending
      → settle e states batch r p ≡ ok q
      → (tries_left q.pending + length batch ≤ tries_left p.pending + tries_left batch)
        × All IsPending q.pending
  unfolding settle
  settle-tries_left states batch (ok cs) p {q} hb hp eq =
      elim (Bool-cases (length cs == length batch)) [
        | inl same ↦
            absorb_all-tries_left states batch cs (count_batch e (length batch) p) {q = q}
              (ground arith) hb hp (ground arith)
        | inr other ↦ absurd (ground arith)
      ]
  settle-tries_left states batch (err x) p hb hp eq = cc

  round-tries_left :
      (states : List Text) (s : e.runtime.State) (j : WorkItem F) (js : List (WorkItem F))
      (p : Progress F) {q : Progress F}
      → 1 ≤ config.max_batch_questions
      → p.pending ≡ j ∷ js
      → All IsPending p.pending
      → (round e states s p).0 ≡ ok q
      → (tries_left q.pending < tries_left p.pending) × All IsPending q.pending
  unfolding round
  round-tries_left states s j js p {q} room eq h ran =
      let (batch, rest) = take_batch config 0 0 p.pending in
      let whole : All IsPending (batch ++ rest) = rw (take_batch-append config 0 0 p.pending) h in
      let first : All IsPending (j ∷ js) = subst (All IsPending) eq h in
      let (fewer, kept) =
        settle-tries_left states batch _ (record p { pending = rest })
          (All-append_left IsPending batch rest whole) (All-append_right IsPending batch rest whole)
          ran in
      let sum = sum_by-append tries batch rest in
      let all = ap tries_left (take_batch-append config 0 0 p.pending) in
      let some_job : 1 ≤ length batch = rw eq (take_batch-nonempty config j js room first.0.0) in
      (omega arith, kept)

  drain_total_at :
      (fuel : ℕ) (states : List Text) (s : e.runtime.State) (p : Progress F) (l : List (WorkItem F))
      (r : Result (Progress F))
      → 1 ≤ config.max_batch_questions
      → All IsPending p.pending
      → tries_left p.pending ≤ fuel
      → p.pending ≡ l
      → (round e states s p).0 ≡ r
      → drain e fuel states s p ≢ none
  drain_total_at fuel states s p [] r room h enough eq ran out = cc (drain_end e states fuel s p eq)
  drain_total_at zero states s p (j ∷ js) r room h enough eq ran out =
      let first : All IsPending (j ∷ js) = subst (All IsPending) eq h in
      absurd (omega (arith, ap tries_left eq, first.0.1))
  drain_total_at (suc fuel) states s p (j ∷ js) (ok q) room h enough eq ran out =
      let (fewer, kept) = round-tries_left states s j js p room eq h ran in
      let s' = (round e states s p).1 in
      drain_total_at fuel states s' q q.pending (round e states s' q).0 room kept (omega arith) refl
        refl (sym (drain_next e states fuel s p j js q eq ran) ∙ out)
  drain_total_at (suc fuel) states s p (j ∷ js) (err x) room h enough eq ran out =
      cc (drain_raise e states fuel s p j js x eq ran)

  -- With as much fuel as tries are left the loop never runs out of it.
  pub drain_total :
      (fuel : ℕ) (states : List Text) (s : e.runtime.State) (p : Progress F)
      → 1 ≤ config.max_batch_questions
      → All IsPending p.pending
      → tries_left p.pending ≤ fuel
      → drain e fuel states s p ≢ none
  drain_total fuel states s p room h enough =
      drain_total_at fuel states s p p.pending (round e states s p).0 room h enough refl refl
