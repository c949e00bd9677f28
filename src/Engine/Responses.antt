-- ===== src/Engine/Responses.antt =====
-- The responses of a run: complete, in order, and made of verified answers only.
use vllm_verifier.Base.{
  ℕ, zero, suc, ◌+◌, ◌≡◌, ◌∙◌, subst, refl, ap, sym, inl, inr, List, [], ◌∷◌, some, none, String,
  arith, Text, length, length-map, lookup, keys, All, All-lookup, get_elem?, map, sum_by, Any,
}
use vllm_verifier.Errors.{ok, >>=-eq-ok, ok-injective, item, item-eq-ok, item_of_lookup}
use vllm_verifier.Models.{Question, Answer, SystemOneRequest, SystemOneResponse, Usage}
use vllm_verifier.Prompts.{content_json}
use vllm_verifier.Engine.{WorkItem, DecisionEngine, DecisionRun, Progress}
use vllm_verifier.Engine.Rounds.{All-round_robin, Any-round_robin, Some}
use vllm_verifier.Engine.Steps.{new_job-IsJob}
use vllm_verifier.Engine.Loop.{drain_inv}
use vllm_verifier.Engine.Total.{IsPrepared, prepare-IsPrepared}
use vllm_verifier.Engine.Runs.{evaluate-Returned, evaluate_of}
use vllm_verifier.Engine.Isolation.{
  Verified, AnswersFrom, IsIsolated, IsAsked, round-IsIsolated, all_jobs-IsAsked,
}
use vllm_verifier.Engine.Coverage.{Has, IsFor, IsCovered, round-IsCovered}
use vllm_verifier.Engine.Evaluate.{
  new_job, request_jobs, all_jobs, collect, responses_for, prepare, drain, states_of, enough,
  evaluate,
}

module _ (e : DecisionEngine) where
  open e use {floats, writer, model}
  open floats use {F}

  request_jobs-Any :
      (i : ℕ) (state : Text) (questions : List (String × Question F)) (n : ℕ) (k : String)
      (q : Question F) {queue : List (WorkItem F)}
      → get_elem? questions n ≡ some (k, q)
      → request_jobs e i state questions ≡ ok queue
      → Any (IsFor e i k) queue
  request_jobs-Any i state [] n k q at h = cc
  request_jobs-Any i state ((k', q') ∷ questions) zero k q at h =
      let (j, made, rest) = >>=-eq-ok (new_job e i k' state q' 0 none) _ h in
      let (js, more, last) = >>=-eq-ok (request_jobs e i state questions) _ rest in
      let job = new_job-IsJob e i k' state q' 0 none made in
      let key : k' ≡ k = cc in
      subst (Any (IsFor e i k)) (ok-injective last) (inl (job.request_index, job.question_id ∙ key))
  request_jobs-Any i state ((k', q') ∷ questions) (suc n) k q at h =
      let (j, made, rest) = >>=-eq-ok (new_job e i k' state q' 0 none) _ h in
      let (js, more, last) = >>=-eq-ok (request_jobs e i state questions) _ rest in
      subst (Any (IsFor e i k)) (ok-injective last)
        (inr (request_jobs-Any i state questions n k q at more))

  all_jobs-Some :
      (i b n m : ℕ) (requests : List (SystemOneRequest F)) (r : SystemOneRequest F) (k : String)
      (q : Question F) {queues : List (List (WorkItem F))}
      → b + n ≡ i
      → get_elem? requests n ≡ some r
      → get_elem? r.questions m ≡ some (k, q)
      → all_jobs e b requests ≡ ok queues
      → Some (IsFor e i k) queues
  unfolding all_jobs
  all_jobs-Some i b n m [] r k q place at of h = cc
  all_jobs-Some i b zero m (r' ∷ requests) r k q place at of h =
      let state = writer.dumps (content_json r'.state) in
      let (queue, made, rest) = >>=-eq-ok (request_jobs e b state r'.questions) _ h in
      let (qs, more, last) = >>=-eq-ok (all_jobs e (suc b) requests) _ rest in
      let same : r' ≡ r = cc in
      let here : b ≡ i = omega arith in
      let of' : get_elem? r'.questions m ≡ some (k, q) =
        subst (λ (x : SystemOneRequest F). get_elem? x.questions m ≡ some (k, q)) (sym same) of in
      subst (Some (IsFor e i k)) (ok-injective last) (
        inl (
          subst (λ x. Any (IsFor e x k) queue) here
            (request_jobs-Any b state r'.questions m k q of' made)))
  all_jobs-Some i b (suc n) m (r' ∷ requests) r k q place at of h =
      let state = writer.dumps (content_json r'.state) in
      let (queue, made, rest) = >>=-eq-ok (request_jobs e b state r'.questions) _ h in
      let (qs, more, last) = >>=-eq-ok (all_jobs e (suc b) requests) _ rest in
      subst (Some (IsFor e i k)) (ok-injective last)
        (inr (all_jobs-Some i (suc b) n m requests r k q (omega arith) at of more))

  nothing_answered :
      (requests : List (SystemOneRequest F)) (i : ℕ) (all : List (SystemOneRequest F))
      → AnswersFrom e all i (map (λ r. []) requests)
  nothing_answered [] i all = tt
  nothing_answered (r ∷ requests) i all = (tt, nothing_answered requests (suc i) all)

  module _ (requests : List (SystemOneRequest F)) where
    prepared-IsIsolated : (p : Progress F) → IsPrepared e requests p → IsIsolated e requests p
    prepared-IsIsolated p start = record {
      pending = rw start.pending (
          All-round_robin (IsAsked e requests) (sum_by length start.queues) start.queues (
            all_jobs-IsAsked e requests 0 requests
              (λ n r at.
                let same : n ≡ n + 0 = omega arith in
                subst (λ m. get_elem? requests m ≡ some r) same at)
              start.made));
      answers = rw start.answers (nothing_answered requests 0 requests);
    }

    prepared-IsCovered : (p : Progress F) → IsPrepared e requests p → IsCovered e requests [] p
    prepared-IsCovered p start = record {
      covered = λ i k q asked. inr (
          subst (Any (IsFor e i k)) (sym start.pending) (
            Any-round_robin (IsFor e i k) (sum_by length start.queues) start.queues (omega arith) (
              all_jobs-Some i 0 i asked.place requests asked.request k q (omega arith)
                asked.of_request asked.of_question start.made)));
      answers_length = ap (length {0}) start.answers ∙ length-map _ requests;
      usage_length = ap (length {0}) start.usage ∙ length-map _ requests;
    }

  -- A response fits its request: the served model, an answer for every key in the order of the
  -- request, and each of them verified against the question under its key.
  abbrev pub Answered :
      (requests : List (SystemOneRequest F))
      → ℕ
      → List (SystemOneRequest F)
      → List (SystemOneResponse F)
      → Type 0
  Answered requests i [] [] = Unit
  Answered requests i [] (x ∷ xs) = ⊥
  Answered requests i (r ∷ rs) [] = ⊥
  Answered requests i (r ∷ rs) (x ∷ xs) =
      (x.model ≡ model)
      × (keys x.answers ≡ keys r.questions)
      × All (λ (a : String × Answer F). Verified e requests i a.0 a.1) x.answers
      × Answered requests (suc i) rs xs

  collect-answers :
      (P : String × Answer F → Type 0) (d : List (String × Answer F)) (ks : List String)
      {out : List (String × Answer F)}
      → All P d
      → collect e d ks ≡ ok out
      → (keys out ≡ ks) × All P out
  unfolding collect
  collect-answers P d [] h eq =
      subst (λ (l : List (String × Answer F)). (keys l ≡ []) × All P l) (ok-injective eq) (refl, tt)
  collect-answers P d (k ∷ ks) h eq =
      let (a, found, rest) = >>=-eq-ok (item k d) _ eq in
      let (more, later, whole) = >>=-eq-ok (collect e d ks) _ rest in
      let (same, verified) = collect-answers P d ks h later in
      subst (λ (l : List (String × Answer F)). (keys l ≡ k ∷ ks) × All P l) (ok-injective whole)
        (ap (λ l. k ∷ l) same, (All-lookup P k a d h (item-eq-ok k d found), verified))

  responses_for-Answered :
      (requests : List (SystemOneRequest F)) (i : ℕ) (rs : List (SystemOneRequest F))
      (answers : List (List (String × Answer F))) (usage : List Usage)
      {xs : List (SystemOneResponse F)}
      → AnswersFrom e requests i answers
      → responses_for e rs answers usage ≡ ok xs
      → Answered requests i rs xs
  unfolding responses_for
  responses_for-Answered requests i [] answers usage h eq =
      subst (Answered requests i []) (ok-injective eq) tt
  responses_for-Answered requests i (r ∷ rs) [] usage h eq = cc
  responses_for-Answered requests i (r ∷ rs) (d ∷ answers) [] h eq = cc
  responses_for-Answered requests i (r ∷ rs) (d ∷ answers) (u ∷ usage) h eq =
      let (found, got, rest) = >>=-eq-ok (collect e d (keys r.questions)) _ eq in
      let (more, later, whole) = >>=-eq-ok (responses_for e rs answers usage) _ rest in
      let (same, verified) =
        collect-answers (λ (a : String × Answer F). Verified e requests i a.0 a.1) d
          (keys r.questions) h.0 got in
      subst (Answered requests i (r ∷ rs)) (ok-injective whole)
        (refl, same, verified, responses_for-Answered requests (suc i) rs answers usage h.1 later)

  -- If a run returns, there is one response for each request, in its place: with the served
  -- model, with an answer for each key of the request in their order, and each answer is verified
  -- against the question of that request under that key.
  pub evaluate-Answered :
      (s : e.runtime.State) (requests : List (SystemOneRequest F)) (run : DecisionRun F)
      (s' : e.runtime.State)
      → evaluate e s requests ≡ some (ok run, s')
      → Answered requests 0 requests run.responses
  evaluate-Answered s requests run s' h =
      let r = evaluate-Returned e s requests h in
      let start = prepare-IsPrepared e requests r.prepared in
      let (last, over) =
        drain_inv e (states_of e requests) (IsIsolated e requests)
          (round-IsIsolated e requests (states_of e requests)) (enough e requests) s r.start
          (prepared-IsIsolated requests r.start start) r.drained in
      responses_for-Answered requests 0 requests r.last.answers r.last.usage last.answers
        r.responded

  collect_total :
      (d : List (String × Answer F)) (ks : List String)
      → ((n : ℕ) (k : String) → get_elem? ks n ≡ some k → (a : Answer F) × (lookup k d ≡ some a))
      → (out : List (String × Answer F)) × (collect e d ks ≡ ok out)
  unfolding collect
  collect_total d [] h = ([], refl)
  collect_total d (k ∷ ks) h =
      let (a, found) = h 0 k refl in
      let (out, rest) = collect_total d ks (λ n. h (suc n)) in
      ((k, a) ∷ out, rw (item_of_lookup k d found, rest))

  get_elem?-keys :
      (questions : List (String × Question F)) (n : ℕ) {k : String}
      → get_elem? (keys questions) n ≡ some k
      → (q : Question F) × (get_elem? questions n ≡ some (k, q))
  get_elem?-keys [] n h = cc
  get_elem?-keys ((k, q) ∷ questions) zero h = (q, cc)
  get_elem?-keys ((k, q) ∷ questions) (suc n) h = get_elem?-keys questions n h

  responses_for_total :
      (rs : List (SystemOneRequest F)) (answers : List (List (String × Answer F)))
      (usage : List Usage)
      → length answers ≡ length rs
      → length usage ≡ length rs
      → ((n m : ℕ) (r : SystemOneRequest F) (k : String) (q : Question F)
          → get_elem? rs n ≡ some r
          → get_elem? r.questions m ≡ some (k, q)
          → Has e answers n k)
      → (xs : List (SystemOneResponse F)) × (responses_for e rs answers usage ≡ ok xs)
  unfolding responses_for
  responses_for_total [] answers usage a u has = ([], refl)
  responses_for_total (r ∷ rs) [] usage a u has = absurd (omega arith)
  responses_for_total (r ∷ rs) (d ∷ answers) [] a u has = absurd (omega arith)
  responses_for_total (r ∷ rs) (d ∷ answers) (w ∷ usage) a u has =
      let (found, got) = collect_total d (keys r.questions) (λ n k at.
        let (q, of) = get_elem?-keys r.questions n at in
        let h = has 0 n r k q refl of in (h.answer, cc (h.of_request, h.of_key))) in
      let (xs, rest) =
        responses_for_total rs answers usage (omega arith) (omega arith) (λ n m x k q at of.
          let h = has (suc n) m x k q at of in
          record {
            found = h.found;
            answer = h.answer;
            of_request = h.of_request;
            of_key = h.of_key;
          }) in
      (record { model = model; answers = found; usage = w } ∷ xs, rw (got, rest))

  -- If the requests are admitted and the loop over `pending` ends without an exception, then the
  -- run returns: the answer of every key of every request is there to be collected.
  pub evaluate_complete :
      (s : e.runtime.State) (requests : List (SystemOneRequest F)) (p q : Progress F)
      (s' : e.runtime.State)
      → prepare e requests ≡ ok p
      → drain e (enough e requests) (states_of e requests) s p ≡ some (ok q, s')
      → (run : DecisionRun F) × (evaluate e s requests ≡ some (ok run, s'))
  evaluate_complete s requests p q s' ready went =
      let start = prepared-IsCovered requests p (prepare-IsPrepared e requests ready) in
      let (last, over) =
        drain_inv e (states_of e requests) (IsCovered e requests [])
          (round-IsCovered e requests (states_of e requests)) (enough e requests) s p start went in
      let (xs, responded) =
        responses_for_total requests q.answers q.usage last.answers_length last.usage_length
          (λ n m r k question at of.
            elim (last.covered n k question
              (record { request = r; place = m; of_request = at; of_question = of })) [
                | inl had ↦ had
                | inr waits ↦ absurd (subst (Any (IsFor e n k)) over waits)
              ]) in
      (
        record { responses = xs; stats = q.stats },
        evaluate_of e s requests p q s' xs ready went responded,
      )
