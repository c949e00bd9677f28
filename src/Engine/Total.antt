-- ===== src/Engine/Total.antt =====
-- `evaluate` always returns or raises.
use vllm_verifier.Base.{
  ℕ, suc, ◌+◌, ◌*◌, ◌≤◌, ◌≡◌, ◌≢◌, ◌∙◌, subst, refl, ap, ap₂, List, [], ◌∷◌, none, String, arith,
  Text, length, sum_by, ltb, ◌==◌, ◌||◌, not, all, inl, inr, All, map,
}
use vllm_verifier.Errors.{ok, raise_if, Result-cases, ok-injective, >>=-eq-ok}
use vllm_verifier.Models.{Question, SystemOneRequest, no_usage}
use vllm_verifier.Prompts.{content_json}
use vllm_verifier.Engine.{IsConfig, WorkItem, DecisionEngine, Progress, round_robin}
use vllm_verifier.Engine.Rounds.{sum_by-round_robin-le, length-round_robin, All-round_robin}
use vllm_verifier.Engine.Steps.{new_job-IsJob}
use vllm_verifier.Engine.Termination.{tries, tries_left, IsPending, drain_total}
use vllm_verifier.Engine.Evaluate.{
  new_job, request_jobs, all_jobs, prepare, states_of, enough, evaluate, knows_model,
}

add_products : (a b n m r : ℕ) → a ≤ n * r → b ≤ m * r → a + b ≤ (n + m) * r
add_products a b n m r h k = omega arith

module _ (e : DecisionEngine) where
  open e use {floats, config, writer}
  open floats use {F}

  request_jobs-tries :
      (i : ℕ) (state : Text) (questions : List (String × Question F)) {queue : List (WorkItem F)}
      → request_jobs e i state questions ≡ ok queue
      → (tries_left e queue ≤ length questions * suc config.validation_retries)
        × All (IsPending e) queue
  request_jobs-tries i state [] {queue} h =
      let none_made : [] ≡ queue = cc in
      subst
        (λ (l : List (WorkItem F)).
          (tries_left e l ≤ 0 * suc config.validation_retries) × All (IsPending e) l)
        none_made (omega arith)
  request_jobs-tries i state ((k, q) ∷ questions) {queue} h =
      let (j, made, rest) = >>=-eq-ok (new_job e i k state q 0 none) _ h in
      let (js, more, last) = >>=-eq-ok (request_jobs e i state questions) _ rest in
      let (few, fit) = request_jobs-tries i state questions more in
      let job = new_job-IsJob e i k state q 0 none made in
      let whole : j ∷ js ≡ queue = cc in
      subst
        (λ (l : List (WorkItem F)).
          (tries_left e l ≤ suc (length questions) * suc config.validation_retries)
          × All (IsPending e) l)
        whole (grind (arith, job.attempt), ((job.fits_batch, omega (arith, job.attempt)), fit))

  all_jobs-tries :
      (i : ℕ) (requests : List (SystemOneRequest F)) {queues : List (List (WorkItem F))}
      → all_jobs e i requests ≡ ok queues
      → (sum_by (tries_left e) queues
          ≤ sum_by (λ r. length r.questions) requests * suc config.validation_retries)
        × All (All (IsPending e)) queues
  unfolding all_jobs
  all_jobs-tries i [] {queues} h =
      let none_made : [] ≡ queues = cc in
      subst
        (λ (l : List (List (WorkItem F))).
          (sum_by (tries_left e) l ≤ 0 * suc config.validation_retries) × All (All (IsPending e)) l)
        none_made (omega arith)
  all_jobs-tries i (r ∷ requests) {queues} h =
      let state = writer.dumps (content_json r.state) in
      let (q, made, rest) = >>=-eq-ok (request_jobs e i state r.questions) _ h in
      let (qs, more, last) = >>=-eq-ok (all_jobs e (suc i) requests) _ rest in
      let (few, fit) = request_jobs-tries i state r.questions made in
      let (fews, fits) = all_jobs-tries (suc i) requests more in
      let whole : q ∷ qs ≡ queues = cc in
      subst
        (λ (l : List (List (WorkItem F))).
          (sum_by (tries_left e) l
            ≤ (length r.questions + sum_by (λ r. length r.questions) requests)
              * suc config.validation_retries)
          × All (All (IsPending e)) l)
        whole (add_products _ _ (length r.questions) _ _ few fews, (fit, fits))

  request_jobs-length :
      (i : ℕ) (state : Text) (questions : List (String × Question F)) {queue : List (WorkItem F)}
      → request_jobs e i state questions ≡ ok queue
      → length queue ≡ length questions
  request_jobs-length i state [] {queue} h =
      let none_made : [] ≡ queue = cc in
      subst (λ (l : List (WorkItem F)). length l ≡ 0) none_made refl
  request_jobs-length i state ((k, q) ∷ questions) {queue} h =
      let (j, made, rest) = >>=-eq-ok (new_job e i k state q 0 none) _ h in
      let (js, more, last) = >>=-eq-ok (request_jobs e i state questions) _ rest in
      let whole : j ∷ js ≡ queue = cc in
      subst (λ (l : List (WorkItem F)). length l ≡ suc (length questions)) whole
        (ap suc (request_jobs-length i state questions more))

  all_jobs-length :
      (i : ℕ) (requests : List (SystemOneRequest F)) {queues : List (List (WorkItem F))}
      → all_jobs e i requests ≡ ok queues
      → sum_by length queues ≡ sum_by (λ r. length r.questions) requests
  unfolding all_jobs
  all_jobs-length i [] {queues} h =
      let none_made : [] ≡ queues = cc in
      subst (λ (l : List (List (WorkItem F))). sum_by length l ≡ 0) none_made refl
  all_jobs-length i (r ∷ requests) {queues} h =
      let state = writer.dumps (content_json r.state) in
      let (q, made, rest) = >>=-eq-ok (request_jobs e i state r.questions) _ h in
      let (qs, more, last) = >>=-eq-ok (all_jobs e (suc i) requests) _ rest in
      let whole : q ∷ qs ≡ queues = cc in
      subst
        (λ (l : List (List (WorkItem F))).
          sum_by length l ≡ length r.questions + sum_by (λ r. length r.questions) requests)
        whole
        (ap₂ ◌+◌ (request_jobs-length i state r.questions made)
          (all_jobs-length (suc i) requests more))

  -- The first progress of a run.
  pub record IsPrepared (requests : List (SystemOneRequest F)) (p : Progress F) : Type 0 where
    pub tries : tries_left e p.pending ≤ enough e requests
    pub fit : All (IsPending e) p.pending
    pub jobs : length p.pending ≡ sum_by (λ r. length r.questions) requests
    pub submitted : p.stats.submitted_questions ≡ 0
    pub repairs : p.stats.repair_questions ≡ 0
    pub batches : p.stats.batches ≡ 0
    pub sizes : p.stats.batch_sizes ≡ []
    pub answers : p.answers ≡ map (λ r. []) requests
    pub usage : p.usage ≡ map (λ r. no_usage) requests
    pub queues : List (List (WorkItem F))
    pub made : all_jobs e 0 requests ≡ ok queues
    pub pending : p.pending ≡ round_robin (sum_by length queues) queues

  pub prepare-IsPrepared :
      (requests : List (SystemOneRequest F)) {p : Progress F}
      → prepare e requests ≡ ok p
      → IsPrepared requests p
  unfolding prepare
  prepare-IsPrepared requests {p} h =
      let (u, _, h₁) =
        >>=-eq-ok (raise_if (length requests == 0 || ltb config.max_requests (length requests)) _) _
          h in
      let (v, _, h₂) =
        >>=-eq-ok (raise_if (not (all (λ r. knows_model e.model r.model) requests)) _) _ h₁ in
      let (queues, made, h₃) = >>=-eq-ok (all_jobs e 0 requests) _ h₂ in
      let (few, fit) = all_jobs-tries 0 requests made in
      let n = sum_by length queues in
      subst (IsPrepared requests) (ok-injective h₃) (record {
        tries = omega (arith, sum_by-round_robin-le (tries e) n queues);
        fit = All-round_robin (IsPending e) n queues fit;
        jobs = length-round_robin n queues (omega arith) ∙ all_jobs-length 0 requests made;
        submitted = refl;
        repairs = refl;
        batches = refl;
        sizes = refl;
        answers = refl;
        usage = refl;
        queues = queues;
        made = made;
        pending = refl;
      })

  -- For a config within its bounds, and any runtime, state and requests, `evaluate` ends: it
  -- returns or raises within `enough` batches.
  pub evaluate_total :
      (s : e.runtime.State) (requests : List (SystemOneRequest F))
      → IsConfig config
      → evaluate e s requests ≢ none
  unfolding evaluate
  evaluate_total s requests valid out = elim (Result-cases (prepare e requests)) [
    | inl (p, ready) ↦
        let start = prepare-IsPrepared requests ready in
        drain_total e (enough e requests) (states_of e requests) s p valid.questions_ge start.fit
          start.tries (ground (arith, ready))
    | inr (x, raised) ↦ cc (raised)
  ]
