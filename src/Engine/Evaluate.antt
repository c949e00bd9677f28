-- ===== src/Engine/Evaluate.antt =====
-- `DecisionEngine._job` and `DecisionEngine.evaluate` of engine/core.py.
use vllm_verifier.Base.{
  ℕ, zero, suc, ◌+◌, ◌*◌, String, Bool, ◌||◌, not, Option, none, some, List, [], ◌∷◌, ◌++◌, map,
  Text, length, sum_by, modify, get_elem?, all, insert, keys, ltb, leb, ◌==◌, str_eq, elem,
  if◌then◌else◌,
}
use vllm_verifier.Errors.{
  Result, ok, err, ◌>>=◌, ◌>>◌, raise_if, invalid_output, value_error, runtime_error, item,
  index_error,
}
use vllm_verifier.Models.{
  Question, Answer, SystemOneRequest, SystemOneResponse, Usage, no_usage, add_usage, Completion,
}
use vllm_verifier.Verification.{verify}
use vllm_verifier.Prompts.{messages, content_json}
use vllm_verifier.Engine.{
  WorkItem, reserved_tokens, DecisionRun, DecisionEngine, Progress, shared_prefix, round_robin,
  take_batch,
}

-- `any(r.model not in {self.model, "jev-latest", "diffusion-jev"} for r in requests)`
abbrev pub knows_model : String → String → Bool
knows_model served requested = elem requested (served ∷ "jev-latest" ∷ "diffusion-jev" ∷ [])

module _ (e : DecisionEngine) where
  open e use {floats, reader, writer, runtime, model, config}
  open floats use {F}
  open runtime use {State, encode, generate}

  -- `_job`
  unfoldable pub new_job : ℕ → String → Text → Question F → ℕ → Option String → Result (WorkItem F)
  new_job index key state question attempt correction = do
    tokens ← encode (messages writer state question correction)
    let job : WorkItem F = record {
      request_index = index;
      question_id = key;
      question = question;
      token_ids = tokens;
      output_tokens = config.output_tokens;
      attempt = attempt;
    }
    raise_if (ltb config.max_model_len (reserved_tokens job))
        (value_error "Decision prompt plus output budget exceeds max_model_len")
    raise_if (ltb config.max_batch_tokens (reserved_tokens job))
        (value_error "A decision exceeds the batch token budget")
    ok job

  -- `states`
  abbrev pub states_of : List (SystemOneRequest F) → List Text
  states_of requests = map (λ r. writer.dumps (content_json r.state)) requests

  -- One deque of `queues`.
  abbrev pub request_jobs : ℕ → Text → List (String × Question F) → Result (List (WorkItem F))
  request_jobs i state [] = ok []
  request_jobs i state ((key, question) ∷ questions) = do
    job ← new_job i key state question 0 none
    jobs ← request_jobs i state questions
    ok (job ∷ jobs)

  unfoldable pub all_jobs : ℕ → List (SystemOneRequest F) → Result (List (List (WorkItem F)))
  all_jobs i [] = ok []
  all_jobs i (r ∷ requests) = do
    queue ← request_jobs i (writer.dumps (content_json r.state)) r.questions
    queues ← all_jobs (suc i) requests
    ok (queue ∷ queues)

  -- The `try` body: the answer of one completion.
  unfoldable pub judge : WorkItem F → Completion → Result (Answer F)
  judge job completion = do
    raise_if (not (str_eq completion.finish_reason "stop"))
        (invalid_output "Completion did not finish normally")
    verify floats reader completion.text job.question

  -- `states[job.request_index]`
  abbrev pub state_at : List Text → ℕ → Result Text
  state_at states i = elim (get_elem? states i) [ none ↦ err index_error | some s ↦ ok s ]

  -- The `pending.append(self._job(...))` of the `except` clause.
  unfoldable pub append_repair : List Text → WorkItem F → String → Progress F → Result (Progress F)
  append_repair states job message p = do
    state ← state_at states job.request_index
    next ←
        new_job job.request_index job.question_id state job.question (suc job.attempt)
          (some message)
    ok (record p {
      pending = p.pending ++ (next ∷ []);
      stats = record p.stats { repair_questions = p.stats.repair_questions + 1 };
    })

  -- `except InvalidOutput as exc`: another attempt of the same question, or the end of the run.
  unfoldable pub repair : List Text → WorkItem F → String → Progress F → Result (Progress F)
  repair states job message p =
      if leb config.validation_retries job.attempt
      then err (invalid_output "Decision exhausted validation retries")
      else append_repair states job message p

  -- The `try`, `except` and `else` branches over the outcome of `judge`.
  unfoldable pub absorb_of :
      List Text → WorkItem F → Completion → Progress F → Result (Answer F) → Result (Progress F)
  absorb_of states job completion p (ok answer) = ok (record p {
    usage = modify (λ u. add_usage u completion.usage) job.request_index p.usage;
    answers = modify (insert job.question_id answer) job.request_index p.answers;
  })
  absorb_of states job completion p (err (invalid_output message)) =
      repair states job message
        (record p { usage = modify (λ u. add_usage u completion.usage) job.request_index p.usage })
  absorb_of states job completion p (err other) = err other

  -- The body of the loop over a batch and its completions.
  unfoldable pub absorb : List Text → WorkItem F → Completion → Progress F → Result (Progress F)
  absorb states job completion p = absorb_of states job completion p (judge job completion)

  unfoldable pub absorb_all :
      List Text → List (WorkItem F) → List Completion → Progress F → Result (Progress F)
  absorb_all states [] completions p = ok p
  absorb_all states (job ∷ jobs) [] p = ok p
  absorb_all states (job ∷ jobs) (c ∷ completions) p = do
    q ← absorb states job c p
    absorb_all states jobs completions q

  abbrev pub count_batch : ℕ → Progress F → Progress F
  count_batch n p = record p {
    stats = record p.stats {
      batches = p.stats.batches + 1;
      batch_sizes = p.stats.batch_sizes ++ (n ∷ []);
      submitted_questions = p.stats.submitted_questions + n;
    };
  }

  -- What follows the call of `generate`.
  unfoldable pub settle :
      List Text → List (WorkItem F) → Result (List Completion) → Progress F → Result (Progress F)
  settle states batch completions p = do
    cs ← completions
    raise_if (not (length cs == length batch))
        (runtime_error "Runtime returned a different number of completions")
    absorb_all states batch cs (count_batch (length batch) p)

  -- The body of `while pending`. The runtime's state comes back beside an exception too.
  unfoldable pub round : List Text → State → Progress F → Result (Progress F) × State
  round states s p =
      let (batch, rest) = take_batch config 0 0 p.pending in
      let (completions, s') = generate s batch in
      (settle states batch completions (record p { pending = rest }), s')

  -- `while pending`, for at most `fuel` batches; `none` if they are not enough.
  unfoldable pub drain : ℕ → List Text → State → Progress F → Option (Result (Progress F) × State)
  drain zero states s p = elim p.pending [ [] ↦ some (ok p, s) | _ ↦ none ]
  drain (suc fuel) states s p =
      let (result, s') = round states s p in
      elim p.pending [
        | [] ↦ some (ok p, s)
        | _ ↦ elim result [ ok q ↦ drain fuel states s' q | err x ↦ some (err x, s') ]
      ]

  -- `{key: answers[i][key] for key in request.questions}`
  unfoldable pub collect :
      List (String × Answer F) → List String → Result (List (String × Answer F))
  collect found [] = ok []
  collect found (k ∷ ks) = do a ← item k found; rest ← collect found ks; ok ((k, a) ∷ rest)

  unfoldable pub responses_for :
      List (SystemOneRequest F)
      → List (List (String × Answer F))
      → List Usage
      → Result (List (SystemOneResponse F))
  unfolding collect
  responses_for [] answers usage = ok []
  responses_for (r ∷ requests) (a ∷ answers) (u ∷ usage) = do
    found ← collect a (keys r.questions)
    rest ← responses_for requests answers usage
    ok (record { model = model; answers = found; usage = u } ∷ rest)
  responses_for (r ∷ requests) _ _ = err index_error

  -- Up to the loop over `pending`: the admission tests and the first progress.
  unfoldable pub prepare : List (SystemOneRequest F) → Result (Progress F)
  prepare requests = do
    raise_if (length requests == 0 || ltb config.max_requests (length requests))
        (value_error "Request count is outside the engine admission limit")
    raise_if (not (all (λ r. knows_model model r.model) requests)) (value_error "Unknown model")
    queues ← all_jobs 0 requests
    ok (record {
      pending = round_robin (sum_by length queues) queues;
      answers = map (λ r. []) requests;
      usage = map (λ r. no_usage) requests;
      stats = record {
        submitted_questions = 0;
        repair_questions = 0;
        batches = 0;
        batch_sizes = [];
        shared_prefix_tokens = map shared_prefix queues;
      };
    })

  abbrev pub finish :
      List (SystemOneRequest F) → Result (Progress F) × State → Result (DecisionRun F) × State
  finish requests (result, s) = (
    do
      p ← result
      responses ← responses_for requests p.answers p.usage
      ok (record { responses = responses; stats = p.stats }),
    s,
  )

  -- Every question is tried `validation_retries + 1` times at most, and a batch is never empty.
  abbrev pub enough : List (SystemOneRequest F) → ℕ
  enough requests = sum_by (λ r. length r.questions) requests * (config.validation_retries + 1)

  unfoldable pub evaluate :
      State → List (SystemOneRequest F) → Option (Result (DecisionRun F) × State)
  evaluate s requests = elim (prepare requests) [
    | err x ↦ some (err x, s)
    | ok p ↦ elim (drain (enough requests) (states_of requests) s p) [
      | none ↦ none
      | some outcome ↦ some (finish requests outcome)
    ]
  ]
