-- ===== src/Engine.antt =====
-- engine/core.py (src/vllm_verifier/engine/core.py): the offline decision engine. The model runtime
-- is a parameter with a state of its own. Clocks are left out: `generation_seconds` and
-- `elapsed_seconds` are only reported.
pub mod Evaluate
pub mod Batches
pub mod Rounds
pub mod Steps
pub mod Loop
pub mod Termination
pub mod Total
pub mod Runs
pub mod Prefix
pub mod Accounting
pub mod Isolation
pub mod Coverage
pub mod Responses
pub mod Gemma
pub mod Native
pub mod Mlx
mod Tests
use vllm_verifier.Base.{
  ℕ, zero, suc, ◌+◌, ◌*◌, ◌-◌, String, ◌≤◌, Bool, true, false, ◌&&◌, ◌||◌, not, Option, none, some,
  List, [], ◌∷◌, ◌++◌, map, Text, length, sum_by, modify, enumerate, zip, get_elem?, all, lookup,
  insert, keys, ltb, leb, ◌==◌, str_eq, elem, if◌then◌else◌,
}
use vllm_verifier.Errors.{
  Exception, Result, ok, err, ◌>>=◌, ◌>>◌, raise_if, traverse, invalid_output, value_error,
  runtime_error, key_error, index_error,
}
use vllm_verifier.Models.{
  Question, Answer, SystemOneRequest, SystemOneResponse, Usage, no_usage, add_usage, Completion,
  Content,
}
use vllm_verifier.Floats.{Floats}
use vllm_verifier.Verification.{JsonReader, verify}
use vllm_verifier.Prompts.{JsonWriter, Message, messages, content_json}

pub record EngineConfig : Type 0 where
  pub max_batch_questions : ℕ
  pub max_batch_tokens : ℕ
  pub max_model_len : ℕ
  pub output_tokens : ℕ
  pub validation_retries : ℕ
  pub max_requests : ℕ

-- The bounds of the `Field`s of `EngineConfig`.
pub record IsConfig (c : EngineConfig) : Type 0 where
  pub questions_ge : 1 ≤ c.max_batch_questions
  pub questions_le : c.max_batch_questions ≤ 4096
  pub tokens_ge : 1 ≤ c.max_batch_tokens
  pub model_len_ge : 257 ≤ c.max_model_len
  pub output_ge : 256 ≤ c.output_tokens
  pub output_le : c.output_tokens ≤ 16384
  pub retries_le : c.validation_retries ≤ 3
  pub requests_ge : 1 ≤ c.max_requests
  pub requests_le : c.max_requests ≤ 4096

pub record WorkItem (F : Type 0) : Type 0 where
  pub request_index : ℕ
  pub question_id : String
  pub question : Question F
  pub token_ids : List ℕ
  pub output_tokens : ℕ
  pub attempt : ℕ

abbrev pub reserved_tokens : {F : Type 0} → WorkItem F → ℕ
reserved_tokens j = length j.token_ids + j.output_tokens

-- The protocol `Runtime`. A call of `generate` may change what the runtime holds.
pub record Runtime (F : Type 0) : Type 1 where
  pub State : Type 0
  pub encode : List Message → Result (List ℕ)
  pub generate : State → List (WorkItem F) → Result (List Completion) × State

pub record RunStats : Type 0 where
  pub submitted_questions : ℕ
  pub repair_questions : ℕ
  pub batches : ℕ
  pub batch_sizes : List ℕ
  pub shared_prefix_tokens : List ℕ

pub record DecisionRun (F : Type 0) : Type 0 where
  pub responses : List (SystemOneResponse F)
  pub stats : RunStats

-- `column` of `zip(*rows)`: the first items of the rows, or `none` where a row has ended.
abbrev pub heads : List (List ℕ) → Option (List ℕ)
heads [] = some []
heads ([] ∷ rows) = none
heads ((x ∷ row) ∷ rows) = elim (heads rows) [ none ↦ none | some xs ↦ some (x ∷ xs) ]

abbrev pub tails {ℓ} : {A : Type ℓ} → List (List A) → List (List A)
tails [] = []
tails ([] ∷ rows) = [] ∷ tails rows
tails ((x ∷ row) ∷ rows) = row ∷ tails rows

-- `len(set(column)) == 1`
abbrev pub one_value : List ℕ → Bool
one_value [] = false
one_value (x ∷ xs) = all (λ y. y == x) xs

-- One column: `rest` more follow if it exists and holds one value.
abbrev pub prefix_step : ℕ → Option (List ℕ) → ℕ
prefix_step rest none = 0
prefix_step rest (some column) = if one_value column then suc rest else 0

-- The loop over the columns; a row has at most `n` items.
unfoldable pub prefix_loop : ℕ → List (List ℕ) → ℕ
prefix_loop zero rows = 0
prefix_loop (suc n) rows = let rest = prefix_loop n (tails rows) in prefix_step rest (heads rows)

-- The entry of `shared_prefix_tokens` for one queue.
unfoldable pub shared_prefix : {F : Type 0} → List (WorkItem F) → ℕ
unfolding prefix_loop
shared_prefix [] = 0
shared_prefix (j ∷ []) = 0
shared_prefix (j ∷ k ∷ queue) =
    prefix_loop (length j.token_ids) (map (λ i. i.token_ids) (j ∷ k ∷ queue))

-- One round of the `for` loop that fills `pending`: the first job of each queue that has one.
abbrev pub firsts {ℓ} : {A : Type ℓ} → List (List A) → List A
firsts [] = []
firsts ([] ∷ queues) = firsts queues
firsts ((x ∷ queue) ∷ queues) = x ∷ firsts queues

-- `not any(queues)`
abbrev pub all_empty {ℓ} : {A : Type ℓ} → List (List A) → Bool
all_empty [] = true
all_empty ([] ∷ queues) = all_empty queues
all_empty ((x ∷ queue) ∷ queues) = false

-- `while any(queues)`, for at most `n` rounds.
unfoldable pub round_robin {ℓ} : {A : Type ℓ} → ℕ → List (List A) → List A
round_robin zero queues = []
round_robin (suc n) queues =
    let rest = firsts queues ++ round_robin n (tails queues) in
    if all_empty queues then [] else rest

module _ {F : Type 0} (cfg : EngineConfig) where
  -- The inner `while`: the batch, and what stays in `pending`.
  unfoldable pub take_batch :
      (size reserved : ℕ) → List (WorkItem F) → List (WorkItem F) × List (WorkItem F)
  take_batch size reserved [] = ([], [])
  take_batch size reserved (j ∷ pending) =
      let (batch, rest) = take_batch (suc size) (reserved + reserved_tokens j) pending in
      if ltb size cfg.max_batch_questions
      then if ltb cfg.max_batch_tokens (reserved + reserved_tokens j)
        then ([], j ∷ pending)
        else (j ∷ batch, rest)
      else ([], j ∷ pending)

-- What the loop over `pending` carries.
pub record Progress (F : Type 0) : Type 0 where
  pub pending : List (WorkItem F)
  pub answers : List (List (String × Answer F))
  pub usage : List Usage
  pub stats : RunStats

-- `DecisionEngine(runtime, model, config)`, with what the module takes from `json`, `math` and
-- pydantic.
pub record DecisionEngine : Type 1 where
  pub floats : Floats
  pub reader : JsonReader floats.F
  pub writer : JsonWriter floats.F
  pub runtime : Runtime floats.F
  pub model : String
  pub config : EngineConfig
