-- ===== src/Decision/Scoring.antt =====
-- `evaluate_batch` and `_run` of `KaiRuntime` in decision/runtime.py. The collator and the network are a
-- parameter. The code changes its outcomes in place; here they are passed on, which is the same, since an
-- exception that is caught replaces every response.
pub mod Pairs
pub mod Served
use vllm_verifier.Base.{
  ℕ, zero, suc, ◌+◌, String, Bool, true, false, ◌||◌, ◌&&◌, not, Option, none, some, List, [], ◌∷◌,
  ◌++◌, map, length, get_elem?, modify, take, sum_by, insert, keys, leb, ltb, str_eq, if◌then◌else◌,
}
use vllm_verifier.Errors.{
  Exception, invalid_output, value_error, runtime_error, memory_error, floating_point_error,
  index_error, assertion_error, Result, ok, err, ◌>>=◌, ◌>>◌, raise_if, item, is_value_error,
  service, traverse,
}
use vllm_verifier.Models.{
  Question, Answer, Usage, no_usage, add_usage, SystemOneRequest, SystemOneResponse,
}
use vllm_verifier.Floats.{Floats}
use vllm_verifier.Decision.Rows.{RowWriter, Row, records}
use vllm_verifier.Decision.Readout.{candidate_answer}
use vllm_verifier.Decision.Batching.{batches_of}

-- `encoded`, of one row: the number of its candidate positions, and its tokens.
pub record Encoded : Type 0 where
  pub positions : ℕ
  pub input_tokens : ℕ

-- The probabilities of a batch, and whether all logits were finite.
pub record Scored (F : Type 0) : Type 0 where
  pub is_finite : Bool
  pub probabilities : List (List F)

pub record Scorer (F : Type 0) : Type 0 where
  -- `collator.encode(row)["input_tokens"]`
  pub encode : Row → Result ℕ
  -- `collator(rows)`
  pub collate : List Row → Result (List Encoded)
  -- `model(batch)`, its softmax, and `isfinite`
  pub score : List Row → Result (Scored F)
  pub batch_size : ℕ
  pub batch_tokens : ℕ

pub record Scheduled : Type 0 where
  pub index : ℕ
  pub qid : String
  pub row : Row
  pub size : ℕ

-- `pending`: the entries by the type of the question, in the order of their first ones.
abbrev pub Pending : Type 0
Pending = List (String × List Scheduled)

abbrev pub put_entry : Scheduled → Pending → Pending
put_entry e [] = (e.row.kind, e ∷ []) ∷ []
put_entry e ((kind, entries) ∷ pending) =
    let rest = put_entry e pending in
    if str_eq kind e.row.kind then (kind, entries ++ e ∷ []) ∷ pending else (kind, entries) ∷ rest

abbrev pub group_entries : List Scheduled → Pending → Pending
group_entries [] pending = pending
group_entries (e ∷ entries) pending = group_entries entries (put_entry e pending)

-- `str(exc)`
abbrev pub message_of : Exception → String
message_of (invalid_output m) = m
message_of (value_error m) = m
message_of _ = ""

-- `except (RuntimeError, MemoryError, FloatingPointError, ValueError)`
abbrev pub is_engine_failure : Exception → Bool
is_engine_failure (runtime_error m) = true
is_engine_failure (floating_point_error m) = true
is_engine_failure memory_error = true
is_engine_failure x = is_value_error x

abbrev pub scoring_failed : Exception
scoring_failed = service 502 "engine_error" "Candidate scoring failed"

module _ (F : Type 0) where
  -- An outcome is a response or the `ServiceError` in its place.
  abbrev pub Outcomes : Type 0
  Outcomes = List (Result (SystemOneResponse F))

module _ {F : Type 0} where
  abbrev pub empty_response : SystemOneResponse F
  empty_response = record {
    model = "llm-semantic-router/Decision-1.0-Kai-0.6B";
    answers = [];
    usage = no_usage;
  }

  -- `zip(request.questions, rows, lengths, strict=True)`
  abbrev pub entries_of : ℕ → List (String × Question F) → List Row → List ℕ → List Scheduled
  entries_of i ((qid, q) ∷ questions) (row ∷ rows) (n ∷ sizes) =
      record { index = i; qid = qid; row = row; size = n } ∷ entries_of i questions rows sizes
  entries_of i _ _ _ = []

  -- The `try` and `except` of one request.
  abbrev pub admitted :
      ℕ
      → SystemOneRequest F
      → Result (List Row × List ℕ)
      → Result (Result (SystemOneResponse F) × List Scheduled)
  admitted i request (ok (rows, sizes)) =
      ok (ok empty_response, entries_of i request.questions rows sizes)
  admitted i request (err x) =
      if is_value_error x
      then ok (err (service 422 "engine_input_error" (message_of x)), [])
      else err x

  -- One response is replaced.
  abbrev pub spoil : Result (SystemOneResponse F) → Result (SystemOneResponse F)
  spoil (ok response) = err scoring_failed
  spoil (err x) = err x

  -- What the `except` makes of the batches.
  abbrev pub recovered : Outcomes F → Result (Outcomes F) → Result (Outcomes F)
  recovered before (ok outcomes) = ok outcomes
  recovered before (err x) = if is_engine_failure x then ok (map spoil before) else err x

  abbrev pub ordered : List (String × Answer F) → List String → Result (List (String × Answer F))
  ordered found [] = ok []
  ordered found (k ∷ ks) = do a ← item k found; rest ← ordered found ks; ok ((k, a) ∷ rest)

  abbrev pub arranged :
      SystemOneRequest F → Result (SystemOneResponse F) → Result (Result (SystemOneResponse F))
  arranged request (err x) = ok (err x)
  arranged request (ok response) = do
    answers ← ordered response.answers (keys request.questions)
    ok (ok (record response { answers = answers }))

  -- The last loop.
  abbrev pub arrange : List (SystemOneRequest F) → Outcomes F → Result (Outcomes F)
  arrange (request ∷ requests) (o ∷ outcomes) = do
    o' ← arranged request o
    rest ← arrange requests outcomes
    ok (o' ∷ rest)
  arrange _ _ = ok []

module _ (fl : Floats) (writer : RowWriter fl.F) (scorer : Scorer fl.F) where
  open fl use {F}
  open scorer use {encode, collate, score, batch_size, batch_tokens}

  unfoldable pub admit_request :
      ℕ → SystemOneRequest F → Result (Result (SystemOneResponse F) × List Scheduled)
  admit_request i request =
      admitted i request
        (do rows ← records writer request; sizes ← traverse encode rows; ok (rows, sizes))

  -- The first loop.
  unfoldable pub admit_requests :
      ℕ → List (SystemOneRequest F) → Result (Outcomes F × List Scheduled)
  admit_requests i [] = ok ([], [])
  admit_requests i (request ∷ requests) = do
    (o, entries) ← admit_request i request
    (outcomes, more) ← admit_requests (suc i) requests
    ok (o ∷ outcomes, entries ++ more)

  abbrev pub add_answer : String → Answer F → ℕ → SystemOneResponse F → SystemOneResponse F
  add_answer qid answer tokens response = record response {
    answers = insert qid answer response.answers;
    usage = add_usage response.usage (record { input_tokens = tokens; output_tokens = 0 });
  }

  -- `outcomes[ri]`, behind the `assert`
  abbrev pub response_at : Option (Result (SystemOneResponse F)) → Result (SystemOneResponse F)
  response_at (some (ok response)) = ok response
  response_at (some (err x)) = err assertion_error
  response_at none = err index_error

  abbrev pub element {ℓ} : {A : Type ℓ} → Option A → Result A
  element none = err index_error
  element (some a) = ok a

  -- The loop of `_run`, for one entry.
  unfoldable pub put_answer :
      List (SystemOneRequest F)
      → Scheduled
      → Encoded
      → Option (List F)
      → Outcomes F
      → Result (Outcomes F)
  put_answer requests e encoded row outcomes = do
    ps ← element row
    request ← element (get_elem? requests e.index)
    question ← item e.qid request.questions
    response ← response_at (get_elem? outcomes e.index)
    answer ← candidate_answer fl question (take encoded.positions ps)
    ok (modify (λ o. ok (add_answer e.qid answer encoded.input_tokens response)) e.index outcomes)

  unfoldable pub put_answers :
      List (SystemOneRequest F)
      → ℕ
      → List Scheduled
      → List Encoded
      → List (List F)
      → Outcomes F
      → Result (Outcomes F)
  put_answers requests i [] [] rows outcomes = ok outcomes
  put_answers requests i (e ∷ entries) (encoded ∷ more) rows outcomes = do
    next ← put_answer requests e encoded (get_elem? rows i) outcomes
    put_answers requests (suc i) entries more rows next
  put_answers requests i _ _ rows outcomes = err (value_error "zip() argument lengths differ")

  -- `_run`
  unfoldable pub run_batch :
      List (SystemOneRequest F) → List Scheduled → Outcomes F → Result (Outcomes F)
  run_batch requests entries outcomes = do
    encoded ← collate (map (λ e. e.row) entries)
    scored ← score (map (λ e. e.row) entries)
    raise_if (not scored.is_finite) (floating_point_error "Nonfinite candidate logits")
    put_answers requests 0 entries encoded scored.probabilities outcomes

  unfoldable pub run_batches :
      List (SystemOneRequest F) → List (List Scheduled) → Outcomes F → Result (Outcomes F)
  run_batches requests [] outcomes = ok outcomes
  run_batches requests (batch ∷ batches) outcomes = do
    next ← run_batch requests batch outcomes
    run_batches requests batches next

  unfoldable pub run_pending :
      List (SystemOneRequest F) → Pending → Outcomes F → Result (Outcomes F)
  run_pending requests [] outcomes = ok outcomes
  run_pending requests ((kind, entries) ∷ pending) outcomes = do
    next ←
        run_batches requests
          (batches_of (λ (e : Scheduled). e.size) batch_size batch_tokens entries) outcomes
    run_pending requests pending next

  unfoldable pub evaluate_batch : List (SystemOneRequest F) → Result (Outcomes F)
  evaluate_batch requests = do
    raise_if
        (ltb (length requests) 1
          || ltb 128 (length requests)
          || ltb 512 (sum_by (λ r. length r.questions) requests))
        (value_error "Batch admission exceeds 128 requests or 512 decisions")
    (outcomes, entries) ← admit_requests 0 requests
    scored ← recovered outcomes (run_pending requests (group_entries entries []) outcomes)
    arrange requests scored
