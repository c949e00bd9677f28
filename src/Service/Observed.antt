-- ===== src/Service/Observed.antt =====
-- How `evaluate_vision` of service.py ends.
use vllm_verifier.Base.{
  ℕ, ◌+◌, ◌≡◌, refl, sym, subst, ap, String, Bool, false, ◌||◌, not, not-false, Option, none, some,
  List, Text, All, ltb, str_eq, str_eq_iff, inl, inr, Bool-cases, arith,
}
use vllm_verifier.Errors.{Result, ok, err, raise_if-eq-ok}
use vllm_verifier.Models.{Completion, SystemOneResponse, VisionRequest, VisionResponse}
use vllm_verifier.Models.Parsing.{check_finite}
use vllm_verifier.Floats.{Floats}
use vllm_verifier.Verification.{JsonReader}
use vllm_verifier.Prompts.{JsonWriter, Message, content_json}
use vllm_verifier.Vision.{ImageLibrary, validate_images, IsPermitted, validate_images-IsPermitted}
use vllm_verifier.Service.Tasks.{ServiceSettings, check_model, TaskEvent, in_order}
use vllm_verifier.Service.Schedules.{had, evaluate_tasks-in_order}
use vllm_verifier.Service.Observe.{
  as_valid, observation_messages, is_blank_text, then_run, complete_with_slot, check_observation,
  observed_request, vision_response, finish_vision, describe, observe, evaluate_vision,
}

then_run-eq-ok {ℓ} :
    {A : Type ℓ} {B : Type 0} (r : Result A) (next : A → Option (Result B)) {b : B}
    → then_run r next ≡ some (ok b)
    → (a : A) × (r ≡ ok a) × (next a ≡ some (ok b))
then_run-eq-ok (err x) next h = cc
then_run-eq-ok (ok a) next h = (a, refl, h)

or-false : (a b : Bool) → (a || b) ≡ false → (a ≡ false) × (b ≡ false)
or-false a b h = ground arith

some-injective {ℓ} : {A : Type ℓ} {a b : A} → some a ≡ some b → a ≡ b
some-injective h = cc

module _ (fl : Floats) (reader : JsonReader fl.F) (writer : JsonWriter fl.F) (images : ImageLibrary)
    (as_string : Text → Option String) (respond : List Message → Result Completion)
    (cfg : ServiceSettings) (free : ℕ) (events : List TaskEvent) where
  open fl use {F}

  -- What a response of `evaluate_vision` stands for.
  pub record IsObserved (request : VisionRequest F) (response : VisionResponse F) : Type 0 where
    pub completion : Completion
    pub decisions : SystemOneResponse F
    pub permitted : All (IsPermitted images) request.images
    pub asked : respond (observation_messages request.images) ≡ ok completion
    pub finished : completion.finish_reason ≡ "stop"
    pub visible : is_blank_text reader.is_space completion.text ≡ false
    pub observation : as_string completion.text ≡ some response.observation
    pub decided :
        in_order fl reader writer cfg
          (observed_request fl reader writer images as_string respond cfg request
            response.observation).state
          (observed_request fl reader writer images as_string respond cfg request
            response.observation)
          (had fl reader writer cfg free events (
            observed_request fl reader writer images as_string respond cfg request
              response.observation))
        ≡ ok decisions
    pub model : response.model ≡ decisions.model
    pub answers : response.answers ≡ decisions.answers
    pub input_tokens :
        response.usage.input_tokens ≡ decisions.usage.input_tokens + completion.usage.input_tokens
    pub output_tokens :
        response.usage.output_tokens
        ≡ decisions.usage.output_tokens + completion.usage.output_tokens

  finish_vision-eq-ok :
      (completion : Completion) (observed : String) (o : Option (Result (SystemOneResponse F)))
      {response : VisionResponse F}
      → finish_vision fl reader writer images as_string respond cfg completion observed o
        ≡ some (ok response)
      → (r : SystemOneResponse F) × (o ≡ some (ok r))
        × (response
            ≡ vision_response fl reader writer images as_string respond cfg completion observed r)
  finish_vision-eq-ok completion observed none h = cc
  finish_vision-eq-ok completion observed (some (err x)) h = cc
  finish_vision-eq-ok completion observed (some (ok r)) h = (r, refl, cc)

  observe-eq-ok :
      (request : VisionRequest F) (o : Option (Result Completion)) {response : VisionResponse F}
      → observe fl reader writer images as_string respond cfg free events request o
        ≡ some (ok response)
      → (completion : Completion) × (o ≡ some (ok completion))
        × (describe fl reader writer images as_string respond cfg free events request completion
            ≡ some (ok response))
  observe-eq-ok request none h = cc
  observe-eq-ok request (some r) h =
      let (completion, e, rest) = then_run-eq-ok r _ h in (completion, ap some e, rest)

  complete_with_slot-eq-ok :
      (messages : List Message) {completion : Completion}
      → complete_with_slot fl reader writer images as_string respond cfg free messages
        ≡ some (ok completion)
      → respond messages ≡ ok completion
  complete_with_slot-eq-ok messages h = elim (Bool-cases (ltb 0 free)) [
    | inl one ↦ some-injective (rw one at h)
    | inr no_slot ↦ absurd (cc (rw no_slot at h))
  ]

  as_valid-eq-ok : (o : Option String) {s : String} → as_valid o ≡ ok s → o ≡ some s
  as_valid-eq-ok none h = cc
  as_valid-eq-ok (some s) h = cc

  -- What the parts of a response stand for, once the text of the observation is known.
  vision_response-IsObserved :
      (request : VisionRequest F) (completion : Completion) (observed : String)
      (decisions : SystemOneResponse F)
      → All (IsPermitted images) request.images
      → respond (observation_messages request.images) ≡ ok completion
      → (completion.finish_reason ≡ "stop")
        × (is_blank_text reader.is_space completion.text ≡ false)
      → as_string completion.text ≡ some observed
      → in_order fl reader writer cfg
          (observed_request fl reader writer images as_string respond cfg request observed).state
          (observed_request fl reader writer images as_string respond cfg request observed)
          (had fl reader writer cfg free events
            (observed_request fl reader writer images as_string respond cfg request observed))
        ≡ ok decisions
      → IsObserved request (
          vision_response fl reader writer images as_string respond cfg completion observed
            decisions)
  vision_response-IsObserved request completion observed decisions permitted asked usable seen
        decided =
      record {
        completion = completion;
        decisions = decisions;
        permitted = permitted;
        asked = asked;
        finished = usable.0;
        visible = usable.1;
        observation = seen;
        decided = decided;
        model = refl;
        answers = refl;
        input_tokens = refl;
        output_tokens = refl;
      }

  -- A response of `evaluate_vision` comes from valid images, a completion that finished, is not blank
  -- and is a valid string, and the decisions of the questions on the state and the observation, one
  -- after the other, each with the replies that its task had; it has the text of the observation, and
  -- the usage of the observation and the decisions together.
  pub evaluate_vision-IsObserved :
      (request : VisionRequest F) (response : VisionResponse F)
      → evaluate_vision fl reader writer images as_string respond cfg free events request
        ≡ some (ok response)
      → IsObserved request response
  unfolding evaluate_vision
  evaluate_vision-IsObserved request response h =
      let (u₁, known, r₁) = then_run-eq-ok (check_model cfg request.model) _ h in
      let (u₂, valid, r₂) = then_run-eq-ok (validate_images images request.images) _ r₁ in
      let (completion, e₃, r₃) = observe-eq-ok request _ r₂ in
      let (u₄, usable, r₄) =
        then_run-eq-ok (check_observation fl reader writer images as_string respond cfg completion)
          _ r₃ in
      let (observed, seen, r₅) = then_run-eq-ok (as_valid (as_string completion.text)) _ r₄ in
      let described =
        observed_request fl reader writer images as_string respond cfg request observed in
      let (u₆, e₆, r₆) =
        then_run-eq-ok (check_finite fl.is_finite (content_json described.state)) _ r₅ in
      let (decisions, e₇, same) = finish_vision-eq-ok completion observed _ r₆ in
      let (stopped, visible) =
        or-false (not (str_eq completion.finish_reason "stop")) _ (raise_if-eq-ok _ _ usable) in
      subst (IsObserved request) (sym same) (
        vision_response-IsObserved request completion observed decisions
          (validate_images-IsPermitted images request.images valid) (complete_with_slot-eq-ok _ e₃)
          ((str_eq_iff completion.finish_reason "stop").0 (not-false _ stopped), visible)
          (as_valid-eq-ok _ seen)
          (evaluate_tasks-in_order fl reader writer cfg free events described decisions e₇))
