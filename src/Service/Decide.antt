-- ===== src/Service/Decide.antt =====
-- `DecisionService.decide`: how it ends, how often it asks, and what it accounts for.
use vllm_verifier.Base.{
  ℕ, zero, suc, ◌+◌, ◌≡◌, ◌≤◌, refl, sym, ap, String, Option, some, none, List, arith, not, str_eq,
}
use vllm_verifier.Errors.{invalid_output, service_error, Result, ok, err, >>=-eq-ok, raise_if}
use vllm_verifier.Models.{Question, Answer, Content, Usage, no_usage, add_usage, Completion}
use vllm_verifier.Floats.{Floats, FloatLaws}
use vllm_verifier.Verification.{JsonReader}
use vllm_verifier.Verification.Sound.{verify-Fits}
use vllm_verifier.Verification.Rejects.{OnlyInvalid, OnlyInvalid-bind, OnlyInvalid-raise_if}
use vllm_verifier.Verification.Builds.{SumsAreFinite, HasCriteria, verify-OnlyInvalid}
use vllm_verifier.Answers.Fits.{Fits}
use vllm_verifier.Prompts.{JsonWriter, Message, decision_messages}
use vllm_verifier.Backend.{Backend}
use vllm_verifier.Backend.Protocol.{OnlyService}
use vllm_verifier.Service.{accept, conclude, attempt, attempts, decide}

-- The state of a backend, the number of its calls, and the usage of its completions.
pub record Counted (S : Type 0) : Type 0 where
  pub inner : S
  pub calls : ℕ
  pub spent : Usage

abbrev pub spend : Usage → Result Completion → Usage
spend u (ok completion) = add_usage u completion.usage
spend u (err x) = u

-- A backend that counts its calls and their usage.
abbrev pub counted : Backend → Backend
counted b = record {
  State = Counted b.State;
  complete = λ c ms.
      let (reply, s) = b.complete c.inner ms in
      (reply, record { inner = s; calls = suc c.calls; spent = spend c.spent reply });
}

module _ (fl : Floats) (reader : JsonReader fl.F) (writer : JsonWriter fl.F)
    (backend : Backend) where
  open fl use {F}

  -- How `decide` may end: with an answer that fits the question and the usage of all completions, or
  -- with a `ServiceError`; the backend was called `limit` times at most.
  abbrev pub Decided : Question F → ℕ → Result (Answer F × Usage) × Counted backend.State → Type 0
  Decided q limit (ok (a, u), c) = Fits fl q a × (u ≡ c.spent) × (c.calls ≤ limit)
  Decided q limit (err x, c) = OnlyService {A = Unit {0}} (err x) × (c.calls ≤ limit)

  module _ (laws : FloatLaws fl) (sums : SumsAreFinite fl reader) (q : Question F)
      (has : HasCriteria fl reader q) (limit : ℕ) where
    pub accept-OnlyInvalid :
        (completion : Completion) → OnlyInvalid (accept fl reader writer completion q)
    unfolding accept
    accept-OnlyInvalid completion =
        OnlyInvalid-bind (raise_if (not (str_eq completion.finish_reason "stop")) _) _
          (OnlyInvalid-raise_if _ _)
          λ u _. verify-OnlyInvalid fl reader laws sums completion.text q has

    pub accept-Fits :
        (completion : Completion) {a : Answer F}
        → accept fl reader writer completion q ≡ ok a
        → Fits fl q a
    unfolding accept
    accept-Fits completion {a} h =
        let (u, _, rest) =
          >>=-eq-ok (raise_if (not (str_eq completion.finish_reason "stop")) _) _ h in
        verify-Fits fl reader laws completion.text q a rest

    module _ (n : ℕ)
        (again : String
          → Usage
          → Counted backend.State
          → Result (Answer F × Usage) × Counted backend.State)
        (next : (m : String) (u : Usage) (c : Counted backend.State)
          → u ≡ c.spent
          → c.calls + n ≤ limit
          → Decided q limit (again m u c)) where
      conclude-Decided :
          (u : Usage) (c : Counted backend.State) (r : Result (Answer F))
          → u ≡ c.spent
          → c.calls + n ≤ limit
          → OnlyInvalid r
          → ((a : Answer F) → r ≡ ok a → Fits fl q a)
          → Decided q limit (conclude fl reader writer again u c r)
      unfolding conclude
      conclude-Decided u c (ok a) same le only fits = (fits a refl, same, omega arith)
      conclude-Decided u c (err (invalid_output m)) same le only fits = next m u c same le
      conclude-Decided u c (err _) same le only fits = absurd only

      attempt-Decided :
          (u : Usage) (c : Counted backend.State) (reply : Result Completion)
          → c.spent ≡ spend u reply
          → c.calls + n ≤ limit
          → OnlyService reply
          → Decided q limit (attempt fl reader writer again q u c reply)
      unfolding attempt
      attempt-Decided u c (err (service_error x)) same le only = (tt, omega arith)
      attempt-Decided u c (err _) same le only = absurd only
      attempt-Decided u c (ok completion) same le only =
          conclude-Decided (add_usage u completion.usage) c (accept fl reader writer completion q)
            (sym same) le (accept-OnlyInvalid completion) λ a h. accept-Fits completion h

    module _
        (serves : (s : backend.State) (ms : List Message)
          → OnlyService (backend.complete s ms).0) where
      attempts-Decided :
          (n : ℕ) (state : Content F) (correction : Option String) (u : Usage)
          (c : Counted backend.State)
          → u ≡ c.spent
          → c.calls + n ≤ limit
          → Decided q limit (attempts fl reader writer (counted backend) n state q correction u c)
      unfolding attempts
      attempts-Decided zero state correction u c same le = (tt, omega arith)
      attempts-Decided (suc n) state correction u c same le =
          let ms = decision_messages writer state q correction in
          let (reply, s') = backend.complete c.inner ms in
          attempt-Decided n
            (λ m v d. attempts fl reader writer (counted backend) n state q (some m) v d)
            (λ m v d e l. attempts-Decided n state (some m) v d e l) u
            (record { inner = s'; calls = suc c.calls; spent = spend c.spent reply }) reply
            (ap (λ v. spend v reply) (sym same)) (omega arith) (serves c.inner ms)

  -- Given the laws of floating point, finite weighted sums of at most ten probabilities, a question
  -- with a criterion (a score with at most ten), and a backend that raises nothing but
  -- `ServiceError`, `decide` ends with an answer that fits the question and the usage of every
  -- completion that it asked for, rejected ones included, or with a `ServiceError`; it calls the
  -- backend at most `validation_retries + 1` times.
  pub decide-Decided :
      FloatLaws fl
      → SumsAreFinite fl reader
      → ((s : backend.State) (ms : List Message) → OnlyService (backend.complete s ms).0)
      → (q : Question F) → HasCriteria fl reader q
      → (validation_retries : ℕ) (state : Content F) (s : backend.State)
      → Decided q (suc validation_retries) (
          decide fl reader writer
            (counted backend)
            validation_retries
            state
            q
            (record { inner = s; calls = 0; spent = no_usage }))
  unfolding decide
  decide-Decided laws sums serves q has retries state s =
      attempts-Decided laws sums q has (suc retries) serves (suc retries) state none no_usage
        (record { inner = s; calls = 0; spent = no_usage }) refl (omega arith)
