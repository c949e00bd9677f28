-- ===== src/Service.antt =====
-- service.py (src/vllm_verifier/service.py): decisions over a completion backend. A backend is a
-- parameter with a state of its own, which its calls may change; the slots of the semaphore are
-- left out, so `decide` is the sequence of its own calls.
pub mod Decide
pub mod Tasks
pub mod Tracks
pub mod Kept
pub mod Schedules
pub mod Alone
pub mod Together
pub mod Observe
pub mod Observed
pub mod Raises
pub mod Progress
pub mod Open
pub mod Ends
mod Tests
use vllm_verifier.Base.{ℕ, zero, suc, String, Bool, not, Option, none, some, List, [], ◌∷◌, str_eq}
use vllm_verifier.Errors.{
  Exception, Result, ok, err, ◌>>=◌, ◌>>◌, raise_if, invalid_output, service,
}
use vllm_verifier.Models.{Question, Answer, Content, Usage, no_usage, add_usage, Completion}
use vllm_verifier.Floats.{Floats}
use vllm_verifier.Verification.{JsonReader, verify}
use vllm_verifier.Prompts.{JsonWriter, decision_messages}
use vllm_verifier.Backend.{Backend}

module _ (fl : Floats) (reader : JsonReader fl.F) (writer : JsonWriter fl.F) where
  open fl use {F}

  -- The `try` body of `decide`.
  unfoldable pub accept : Completion → Question F → Result (Answer F)
  accept completion question = do
    raise_if (not (str_eq completion.finish_reason "stop"))
        (invalid_output "completion did not finish normally; produce a shorter answer")
    verify fl reader completion.text question

  -- The `try` and `except` of one round: `again` is the next round.
  unfoldable pub conclude {ℓ} :
      {S : Type ℓ}
      → (String → Usage → S → Result (Answer F × Usage) × S)
      → Usage
      → S
      → Result (Answer F)
      → Result (Answer F × Usage) × S
  conclude again used s (ok answer) = (ok (answer, used), s)
  conclude again used s (err (invalid_output message)) = again message used s
  conclude again used s (err other) = (err other, s)

  -- One round, from the outcome of the backend's call.
  unfoldable pub attempt {ℓ} :
      {S : Type ℓ}
      → (String → Usage → S → Result (Answer F × Usage) × S)
      → Question F
      → Usage
      → S
      → Result Completion
      → Result (Answer F × Usage) × S
  attempt again question usage s (err x) = (err x, s)
  attempt again question usage s (ok completion) =
      conclude again (add_usage usage completion.usage) s (accept completion question)

  module _ (backend : Backend) where
    open backend use {State, complete}

    -- The `for` loop of `decide`, with `n` rounds left.
    unfoldable pub attempts :
        ℕ
        → Content F
        → Question F
        → Option String
        → Usage
        → State
        → Result (Answer F × Usage) × State
    attempts zero state question correction usage s = (
      err (service 502 "invalid_model_output" "Model output failed typed decision validation"),
      s,
    )
    attempts (suc n) state question correction usage s =
        let (reply, s') = complete s (decision_messages writer state question correction) in
        attempt (λ message used r. attempts n state question (some message) used r) question usage
          s' reply

    unfoldable pub decide :
        (validation_retries : ℕ)
        → Content F
        → Question F
        → State
        → Result (Answer F × Usage) × State
    unfolding attempts
    decide validation_retries state question s =
        attempts (suc validation_retries) state question none no_usage s
