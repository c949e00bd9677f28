-- ===== src/Decision/Scoring/Served.antt =====
-- What `evaluate_batch` of decision/runtime.py returns for each request.
use vllm_verifier.Base.{
  ℕ, suc, ◌≡◌, refl, ap, subst, ◌⊎◌, inl, inr, String, Bool, true, false, ◌||◌, not, Option, none,
  some, List, [], ◌∷◌, map, length, get_elem?, take, sum_by, keys, lookup, All, All-insert,
  All-lookup, ltb, if◌then◌else◌,
}
use vllm_verifier.Errors.{
  Exception, Result, ok, err, >>=-eq-ok, raise_if, item, item-eq-ok, is_value_error, service,
  ok-injective,
}
use vllm_verifier.Models.{Question, Answer, SystemOneRequest, SystemOneResponse}
use vllm_verifier.Floats.{Floats, FloatLaws}
use vllm_verifier.Answers.Fits.{Fits}
use vllm_verifier.Decision.Rows.{RowWriter, Row}
use vllm_verifier.Decision.Readout.{candidate_answer, candidate_answer-Fits}
use vllm_verifier.Decision.Scoring.Pairs.{Pairs, Pairs-mono, Pairs-get_elem?, Pairs-modify}
use vllm_verifier.Decision.Scoring.{
  Encoded, Scorer, Scheduled, Pending, group_entries, is_engine_failure, scoring_failed, message_of,
  Outcomes, admitted, spoil, recovered, ordered, arranged, arrange, admit_request, admit_requests,
  add_answer, response_at, element, put_answer, put_answers, run_batch, run_batches, run_pending,
  evaluate_batch,
}

module _ (fl : Floats) (laws : FloatLaws fl) (writer : RowWriter fl.F) (scorer : Scorer fl.F) where
  open fl use {F}

  -- Each answer is to a question of the request, and fits it.
  abbrev pub Answers : SystemOneRequest F → List (String × Answer F) → Type 0
  Answers request answers =
      All (λ p. (q : Question F) × (lookup p.0 request.questions ≡ some q) × Fits fl q p.1) answers

  -- The errors that stand for a request: its own input, or the failure of the whole batch.
  abbrev pub IsRefusal : Exception → Type 0
  IsRefusal x = (x ≡ scoring_failed) ⊎ ((m : String) × (x ≡ service 422 "engine_input_error" m))

  -- While the batches run.
  abbrev Partial : SystemOneRequest F → Result (SystemOneResponse F) → Type 0
  Partial request (ok response) = Answers request response.answers
  Partial request (err x) = IsRefusal x

  -- At the end: a response answers all the questions of its request, in their order.
  abbrev pub Served : SystemOneRequest F → Result (SystemOneResponse F) → Type 0
  Served request (ok response) =
      (keys response.answers ≡ keys request.questions) × Answers request response.answers
  Served request (err x) = IsRefusal x

  admitted-Partial :
      (i : ℕ) (request : SystemOneRequest F) (r : Result (List Row × List ℕ))
      {p : Result (SystemOneResponse F) × List Scheduled}
      → admitted i request r ≡ ok p
      → Partial request p.0
  admitted-Partial i request (ok (rows, sizes)) h =
      subst (λ p. Partial request p.0) (ok-injective h) tt
  admitted-Partial i request (err x) {p} h = by_kind (is_value_error x) h
    where
      by_kind :
          (b : Bool)
          → (if b then ok (err (service 422 "engine_input_error" (message_of x)), []) else err x)
            ≡ ok p
          → Partial request p.0
      by_kind true e = subst (λ p. Partial request p.0) (ok-injective e) (inr (message_of x, refl))
      by_kind false e = cc

  admit_requests-Partial :
      (i : ℕ) (requests : List (SystemOneRequest F)) {p : Outcomes F × List Scheduled}
      → admit_requests fl writer scorer i requests ≡ ok p
      → Pairs Partial requests p.0
  unfolding admit_requests admit_request
  admit_requests-Partial i [] h = subst (λ p. Pairs Partial [] p.0) (ok-injective h) tt
  admit_requests-Partial i (request ∷ requests) h =
      let ((o, entries), one, rest) = >>=-eq-ok (admit_request fl writer scorer i request) _ h in
      let ((outcomes, more), others, last) =
        >>=-eq-ok (admit_requests fl writer scorer (suc i) requests) _ rest in
      subst (λ p. Pairs Partial (request ∷ requests) p.0) (ok-injective last)
        (admitted-Partial i request _ one, admit_requests-Partial (suc i) requests others)

  response_at-eq-ok :
      (o : Option (Result (SystemOneResponse F))) {response : SystemOneResponse F}
      → response_at fl writer scorer o ≡ ok response
      → o ≡ some (ok response)
  response_at-eq-ok (some (ok r)) h = cc
  response_at-eq-ok (some (err x)) h = cc
  response_at-eq-ok none h = cc

  element-eq-ok :
      {A : Type 0} (o : Option A) {a : A} → element fl writer scorer o ≡ ok a → o ≡ some a
  element-eq-ok none h = cc
  element-eq-ok (some a) h = cc

  put_answer-Partial :
      (requests : List (SystemOneRequest F)) (e : Scheduled) (encoded : Encoded)
      (row : Option (List F)) (outcomes : Outcomes F) {after : Outcomes F}
      → put_answer fl writer scorer requests e encoded row outcomes ≡ ok after
      → Pairs Partial requests outcomes
      → Pairs Partial requests after
  unfolding put_answer
  put_answer-Partial requests e encoded row outcomes h before =
      let (ps, e₁, r₁) = >>=-eq-ok (element fl writer scorer row) _ h in
      let (request, e₂, r₂) =
        >>=-eq-ok (element fl writer scorer (get_elem? requests e.index)) _ r₁ in
      let (question, e₃, r₃) = >>=-eq-ok (item e.qid request.questions) _ r₂ in
      let (response, e₄, r₄) =
        >>=-eq-ok (response_at fl writer scorer (get_elem? outcomes e.index)) _ r₃ in
      let (answer, e₅, r₅) =
        >>=-eq-ok (candidate_answer fl question (take encoded.positions ps)) _ r₄ in
      let here = element-eq-ok _ e₂ in
      let old : Answers request response.answers =
        Pairs-get_elem? Partial e.index requests outcomes here (response_at-eq-ok _ e₄) before in
      let fits = (candidate_answer-Fits fl laws question _ answer e₅).0 in
      subst (Pairs Partial requests) (ok-injective r₅) (
        Pairs-modify Partial
          (ok (add_answer fl writer scorer e.qid answer encoded.input_tokens response)) e.index
          requests outcomes here
          (All-insert _ e.qid answer response.answers old
            (question, item-eq-ok e.qid request.questions e₃, fits))
          before)

  put_answers-Partial :
      (requests : List (SystemOneRequest F)) (i : ℕ) (entries : List Scheduled)
      (encoded : List Encoded) (rows : List (List F)) (outcomes : Outcomes F) {after : Outcomes F}
      → put_answers fl writer scorer requests i entries encoded rows outcomes ≡ ok after
      → Pairs Partial requests outcomes
      → Pairs Partial requests after
  unfolding put_answers
  put_answers-Partial requests i [] [] rows outcomes h before =
      subst (Pairs Partial requests) (ok-injective h) before
  put_answers-Partial requests i (e ∷ entries) (c ∷ more) rows outcomes h before =
      let (next, one, rest) =
        >>=-eq-ok (put_answer fl writer scorer requests e c (get_elem? rows i) outcomes) _ h in
      put_answers-Partial requests (suc i) entries more rows next rest
        (put_answer-Partial requests e c (get_elem? rows i) outcomes one before)
  put_answers-Partial requests i [] (c ∷ more) rows outcomes h before = cc
  put_answers-Partial requests i (e ∷ entries) [] rows outcomes h before = cc

  run_batch-Partial :
      (requests : List (SystemOneRequest F)) (entries : List Scheduled) (outcomes : Outcomes F)
      {after : Outcomes F}
      → run_batch fl writer scorer requests entries outcomes ≡ ok after
      → Pairs Partial requests outcomes
      → Pairs Partial requests after
  unfolding run_batch
  run_batch-Partial requests entries outcomes h before =
      let (encoded, _, r₁) = >>=-eq-ok (scorer.collate (map (λ e. e.row) entries)) _ h in
      let (scored, _, r₂) = >>=-eq-ok (scorer.score (map (λ e. e.row) entries)) _ r₁ in
      let (u, _, r₃) = >>=-eq-ok (raise_if (not scored.is_finite) _) _ r₂ in
      put_answers-Partial requests 0 entries encoded scored.probabilities outcomes r₃ before

  run_batches-Partial :
      (requests : List (SystemOneRequest F)) (batches : List (List Scheduled))
      (outcomes : Outcomes F) {after : Outcomes F}
      → run_batches fl writer scorer requests batches outcomes ≡ ok after
      → Pairs Partial requests outcomes
      → Pairs Partial requests after
  unfolding run_batches
  run_batches-Partial requests [] outcomes h before =
      subst (Pairs Partial requests) (ok-injective h) before
  run_batches-Partial requests (batch ∷ batches) outcomes h before =
      let (next, one, rest) = >>=-eq-ok (run_batch fl writer scorer requests batch outcomes) _ h in
      run_batches-Partial requests batches next rest
        (run_batch-Partial requests batch outcomes one before)

  run_pending-Partial :
      (requests : List (SystemOneRequest F)) (pending : Pending) (outcomes : Outcomes F)
      {after : Outcomes F}
      → run_pending fl writer scorer requests pending outcomes ≡ ok after
      → Pairs Partial requests outcomes
      → Pairs Partial requests after
  unfolding run_pending
  run_pending-Partial requests [] outcomes h before =
      subst (Pairs Partial requests) (ok-injective h) before
  run_pending-Partial requests ((kind, entries) ∷ pending) outcomes h before =
      let (next, one, rest) = >>=-eq-ok (run_batches fl writer scorer requests _ outcomes) _ h in
      run_pending-Partial requests pending next rest
        (run_batches-Partial requests _ outcomes one before)

  spoil-Partial :
      (request : SystemOneRequest F) (o : Result (SystemOneResponse F))
      → Partial request o
      → Partial request (spoil o)
  spoil-Partial request (ok response) h = inl refl
  spoil-Partial request (err x) h = h

  recovered-Partial :
      (requests : List (SystemOneRequest F)) (before : Outcomes F) (r : Result (Outcomes F))
      {after : Outcomes F}
      → recovered before r ≡ ok after
      → Pairs Partial requests before
      → ((done : Outcomes F) → r ≡ ok done → Pairs Partial requests done)
      → Pairs Partial requests after
  recovered-Partial requests before (ok done) h start run =
      subst (Pairs Partial requests) (ok-injective h) (run done refl)
  recovered-Partial requests before (err x) {after} h start run = by_kind (is_engine_failure x) h
    where
      by_kind :
          (b : Bool)
          → (if b then ok (map spoil before) else err x) ≡ ok after
          → Pairs Partial requests after
      by_kind true e =
          subst (Pairs Partial requests) (ok-injective e)
            (Pairs-mono Partial Partial spoil spoil-Partial requests before start)
      by_kind false e = cc

  ordered-Answers :
      (request : SystemOneRequest F) (found : List (String × Answer F)) (ks : List String)
      {answers : List (String × Answer F)}
      → ordered found ks ≡ ok answers
      → Answers request found
      → (keys answers ≡ ks) × Answers request answers
  ordered-Answers request found [] h old =
      subst (λ l. (keys l ≡ []) × Answers request l) (ok-injective h) (refl, tt)
  ordered-Answers request found (k ∷ ks) h old =
      let (a, one, rest) = >>=-eq-ok (item k found) _ h in
      let (more, others, last) = >>=-eq-ok (ordered found ks) _ rest in
      let (same, fit) = ordered-Answers request found ks others old in
      subst (λ l. (keys l ≡ k ∷ ks) × Answers request l) (ok-injective last)
        (ap (λ l. k ∷ l) same, (All-lookup _ k a found old (item-eq-ok k found one), fit))

  arranged-Served :
      (request : SystemOneRequest F) (o : Result (SystemOneResponse F))
      {o' : Result (SystemOneResponse F)}
      → arranged request o ≡ ok o'
      → Partial request o
      → Served request o'
  arranged-Served request (err x) h old = subst (Served request) (ok-injective h) old
  arranged-Served request (ok response) h old =
      let (answers, e, last) = >>=-eq-ok (ordered response.answers (keys request.questions)) _ h in
      subst (Served request) (ok-injective last) (ordered-Answers request response.answers _ e old)

  arrange-Served :
      (requests : List (SystemOneRequest F)) (outcomes : Outcomes F) {after : Outcomes F}
      → arrange requests outcomes ≡ ok after
      → Pairs Partial requests outcomes
      → Pairs Served requests after
  arrange-Served [] [] h old = subst (Pairs Served []) (ok-injective h) tt
  arrange-Served [] (o ∷ outcomes) h old = absurd old
  arrange-Served (request ∷ requests) [] h old = absurd old
  arrange-Served (request ∷ requests) (o ∷ outcomes) h old =
      let (o', one, rest) = >>=-eq-ok (arranged request o) _ h in
      let (more, others, last) = >>=-eq-ok (arrange requests outcomes) _ rest in
      subst (Pairs Served (request ∷ requests)) (ok-injective last)
        (arranged-Served request o one old.0, arrange-Served requests outcomes others old.1)

  -- Given the laws of floating point, if `evaluate_batch` returns, it has one outcome for each request,
  -- in their order: a response that answers exactly the questions of that request, in their order, each
  -- answer fitting its question; or the error 422 for its own input, or the error 502 of the batch.
  pub evaluate_batch-Served :
      (requests : List (SystemOneRequest F)) (outcomes : Outcomes F)
      → evaluate_batch fl writer scorer requests ≡ ok outcomes
      → Pairs Served requests outcomes
  unfolding evaluate_batch
  evaluate_batch-Served requests outcomes h =
      let (u, _, r₁) =
        >>=-eq-ok
          (raise_if
            (ltb (length requests) 1
              || ltb 128 (length requests)
              || ltb 512 (sum_by (λ r. length r.questions) requests))
            _)
          _ h in
      let ((first, entries), admitted, r₂) =
        >>=-eq-ok (admit_requests fl writer scorer 0 requests) _ r₁ in
      let (scored, run, r₃) =
        >>=-eq-ok
          (recovered first (run_pending fl writer scorer requests (group_entries entries []) first))
          _ r₂ in
      let start = admit_requests-Partial 0 requests admitted in
      arrange-Served requests scored r₃ (
        recovered-Partial requests first _ run start
          (λ done e. run_pending-Partial requests _ first e start))
