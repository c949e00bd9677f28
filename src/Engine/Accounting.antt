-- ===== src/Engine/Accounting.antt =====
-- The statistics of a run.
use vllm_verifier.Base.{
  ℕ, ◌+◌, ◌*◌, ◌≤◌, ◌≡◌, ◌∙◌, subst, refl, ap, sym, inl, inr, List, [], ◌∷◌, ◌++◌, some, arith,
  Text, length, length-append, sum_by, sum_by-append, All, All-append, All-append_left,
  All-append_right, Bool-cases, ◌==◌,
}
use vllm_verifier.Errors.{Result, ok, err, >>=-eq-ok}
use vllm_verifier.Models.{Completion, SystemOneRequest}
use vllm_verifier.Engine.{IsConfig, WorkItem, DecisionEngine, DecisionRun, Progress, take_batch}
use vllm_verifier.Engine.Batches.{take_batch-append, take_batch-nonempty, length-take_batch-le}
use vllm_verifier.Engine.Steps.{Absorbed, answered, repaired, absorb-Absorbed}
use vllm_verifier.Engine.Termination.{tries, tries_left, IsPending, absorb_all-tries_left}
use vllm_verifier.Engine.Loop.{drain_inv}
use vllm_verifier.Engine.Total.{IsPrepared, prepare-IsPrepared}
use vllm_verifier.Engine.Runs.{evaluate-Returned}
use vllm_verifier.Engine.Evaluate.{
  absorb, absorb_all, settle, count_batch, round, states_of, enough, evaluate,
}

module _ (e : DecisionEngine) where
  open e use {floats, config}
  open floats use {F}

  -- What `stats` says in the middle of a run that began with `total` jobs and `budget` tries.
  pub record IsCounted (total budget : ℕ) (p : Progress F) : Type 0 where
    pub jobs : length p.pending + p.stats.submitted_questions ≡ total + p.stats.repair_questions
    pub batches : p.stats.batches ≡ length p.stats.batch_sizes
    pub submitted : p.stats.submitted_questions ≡ sum_by (λ n. n) p.stats.batch_sizes
    pub sizes : All (λ n. (1 ≤ n) × (n ≤ config.max_batch_questions)) p.stats.batch_sizes
    pub within : p.stats.submitted_questions + tries_left e p.pending ≤ budget
    pub pending : All (IsPending e) p.pending

  -- A completion leaves the counts of batches alone, and a repair is one more pending job.
  pub record SameCounts (p q : Progress F) : Type 0 where
    pub submitted : q.stats.submitted_questions ≡ p.stats.submitted_questions
    pub batches : q.stats.batches ≡ p.stats.batches
    pub sizes : q.stats.batch_sizes ≡ p.stats.batch_sizes
    pub repairs :
        length q.pending + p.stats.repair_questions ≡ length p.pending + q.stats.repair_questions

  Absorbed-SameCounts :
      {job : WorkItem F} {c : Completion} {p q : Progress F} → Absorbed e job c p q → SameCounts p q
  Absorbed-SameCounts {p = p} (answered a j eq) =
      rw eq (record { submitted = refl; batches = refl; sizes = refl; repairs = refl })
  Absorbed-SameCounts {p = p} (repaired m next j low made eq) = rw eq (record {
    submitted = refl;
    batches = refl;
    sizes = refl;
    repairs = omega (arith, length-append p.pending (next ∷ []));
  })

  absorb_all-SameCounts :
      (states : List Text) (jobs : List (WorkItem F)) (cs : List Completion) (p : Progress F)
      {q : Progress F}
      → absorb_all e states jobs cs p ≡ ok q
      → SameCounts p q
  unfolding absorb_all
  absorb_all-SameCounts states [] cs p {q} eq =
      let same : p ≡ q = cc in
      subst (SameCounts p) same
        (record { submitted = refl; batches = refl; sizes = refl; repairs = refl })
  absorb_all-SameCounts states (j ∷ jobs) [] p {q} eq =
      let same : p ≡ q = cc in
      subst (SameCounts p) same
        (record { submitted = refl; batches = refl; sizes = refl; repairs = refl })
  absorb_all-SameCounts states (j ∷ jobs) (c ∷ cs) p eq =
      let (next, one, rest) = >>=-eq-ok (absorb e states j c p) _ eq in
      let first = Absorbed-SameCounts (absorb-Absorbed e states j c p one) in
      let later = absorb_all-SameCounts states jobs cs next rest in
      record {
        submitted = later.submitted ∙ first.submitted;
        batches = later.batches ∙ first.batches;
        sizes = later.sizes ∙ first.sizes;
        repairs = omega (arith, first.repairs, later.repairs);
      }

  -- `settle` returns only if there is a completion for each job.
  pub settle-eq-ok :
      (states : List Text) (batch : List (WorkItem F)) (r : Result (List Completion))
      (p : Progress F) {q : Progress F}
      → settle e states batch r p ≡ ok q
      → (cs : List Completion) × (length cs ≡ length batch)
        × (absorb_all e states batch cs (count_batch e (length batch) p) ≡ ok q)
  unfolding settle
  settle-eq-ok states batch (err x) p eq = cc
  settle-eq-ok states batch (ok cs) p eq = elim (Bool-cases (length cs == length batch)) [
    | inl same ↦ (cs, ground arith, ground arith)
    | inr other ↦ absurd (ground arith)
  ]

  module _ (total budget : ℕ) (states : List Text) (room : 1 ≤ config.max_batch_questions) where
    round-IsCounted :
        (s : e.runtime.State) (p : Progress F) (j : WorkItem F) (js : List (WorkItem F))
        (q : Progress F)
        → IsCounted total budget p
        → p.pending ≡ j ∷ js
        → (round e states s p).0 ≡ ok q
        → IsCounted total budget q
    unfolding round
    round-IsCounted s p j js q inv eq ran =
        let (batch, rest) = take_batch config 0 0 p.pending in
        let whole = take_batch-append config 0 0 p.pending in
        let cut : Progress F = record p { pending = rest } in
        let (cs, same, did) = settle-eq-ok states batch _ cut ran in
        let counts = absorb_all-SameCounts states batch cs _ did in
        let fits : All (IsPending e) (batch ++ rest) = rw whole inv.pending in
        let first : All (IsPending e) (j ∷ js) = subst (All (IsPending e)) eq inv.pending in
        let some_job : 1 ≤ length batch = rw eq (take_batch-nonempty config j js room first.0.0) in
        let (fewer, kept) =
          absorb_all-tries_left e states batch cs _ same
            (All-append_left (IsPending e) batch rest fits)
            (All-append_right (IsPending e) batch rest fits) did in
        let sizes = p.stats.batch_sizes in
        record {
          jobs = omega (
            arith,
            inv.jobs,
            counts.repairs,
            counts.submitted,
            length-append batch rest,
            ap (length {0}) whole,
          );
          batches =
              counts.batches
              ∙ omega (arith, inv.batches, length-append sizes (length batch ∷ []))
              ∙ sym (ap (length {0}) counts.sizes);
          submitted =
              counts.submitted
              ∙ omega (arith, inv.submitted, sum_by-append (λ (n : ℕ). n) sizes (length batch ∷ []))
              ∙ sym (ap (sum_by (λ (n : ℕ). n)) counts.sizes);
          sizes = rw counts.sizes (
              All-append _ sizes (length batch ∷ []) inv.sizes
                ((some_job, omega (arith, length-take_batch-le config 0 0 p.pending)), tt));
          within = omega (
            arith,
            inv.within,
            counts.submitted,
            sum_by-append (tries e) batch rest,
            ap (tries_left e) whole,
          );
          pending = kept;
        }

  prepared-IsCounted :
      (requests : List (SystemOneRequest F)) (p : Progress F)
      → IsPrepared e requests p
      → IsCounted (sum_by (λ r. length r.questions) requests) (enough e requests) p
  prepared-IsCounted requests p start = record {
    jobs = omega (arith, start.jobs, start.submitted, start.repairs);
    batches = omega (arith, start.batches, ap (length {0}) start.sizes);
    submitted = omega (arith, start.submitted, ap (sum_by (λ (n : ℕ). n)) start.sizes);
    sizes = rw start.sizes tt;
    within = omega (arith, start.submitted, start.tries);
    pending = start.fit;
  }

  -- For a config within its bounds, a run that returns reports as submitted the questions of the
  -- requests and the repairs, which together are the sum of the batch sizes; as many batches as
  -- batch sizes; batch sizes from one to `max_batch_questions`; and submissions of at most
  -- `validation_retries + 1` times the number of questions.
  pub evaluate-stats :
      (s : e.runtime.State) (requests : List (SystemOneRequest F)) (run : DecisionRun F)
      (s' : e.runtime.State)
      → IsConfig config
      → evaluate e s requests ≡ some (ok run, s')
      → (run.stats.submitted_questions
          ≡ sum_by (λ r. length r.questions) requests + run.stats.repair_questions)
        × (run.stats.batches ≡ length run.stats.batch_sizes)
        × (run.stats.submitted_questions ≡ sum_by (λ n. n) run.stats.batch_sizes)
        × All (λ n. (1 ≤ n) × (n ≤ config.max_batch_questions)) run.stats.batch_sizes
        × (run.stats.submitted_questions
            ≤ sum_by (λ r. length r.questions) requests * (config.validation_retries + 1))
  evaluate-stats s requests run s' valid h =
      let r = evaluate-Returned e s requests h in
      let total = sum_by (λ (r : SystemOneRequest F). length r.questions) requests in
      let (counts, over) =
        drain_inv e (states_of e requests) (IsCounted total (enough e requests))
          (round-IsCounted total (enough e requests) (states_of e requests) valid.questions_ge)
          (enough e requests) s r.start
          (prepared-IsCounted requests r.start (prepare-IsPrepared e requests r.prepared))
          r.drained in
      rw r.stats (
        omega (arith, counts.jobs, ap (length {0}) over),
        counts.batches,
        counts.submitted,
        counts.sizes,
        omega (arith, counts.within),
      )
