-- ===== src/Service/Raises.antt =====
-- What `evaluate_vision` of service.py raises.
use vllm_verifier.Base.{
  ◌⊎◌, inl, inr, ℕ, ◌≡◌, refl, sym, subst, String, true, Option, none, some, List, Text, All, ltb,
  if-split,
}
use vllm_verifier.Errors.{validation_error, syntax_error, Exception, Result, ok, err, service_error}
use vllm_verifier.Models.{Content, Completion, SystemOneRequest, SystemOneResponse, VisionRequest}
use vllm_verifier.Models.Contract.{all_finite, finite_json_lem, verdict}
use vllm_verifier.Models.Parsing.{check_finite, as_validation}
use vllm_verifier.Floats.{Floats, FloatLaws}
use vllm_verifier.Verification.{JsonReader}
use vllm_verifier.Verification.Builds.{SumsAreFinite, HasCriteria}
use vllm_verifier.Prompts.{JsonWriter, Message, content_json}
use vllm_verifier.Backend.Protocol.{OnlyService, OnlyService-raise_if}
use vllm_verifier.Vision.{ImageLibrary, validate_images}
use vllm_verifier.Vision.Raises.{validate_images_raises}
use vllm_verifier.Service.Tasks.{ServiceSettings, check_model, TaskEvent}
use vllm_verifier.Service.Together.{Evaluated, check_model-OnlyService, evaluate_tasks-Evaluated}
use vllm_verifier.Service.Alone.{Serves, EventServes}
use vllm_verifier.Service.Observe.{
  as_valid, observation_messages, then_run, complete_with_slot, check_observation, observed_state,
  observed_request, finish_vision, describe, observe, evaluate_vision,
}

-- A run that raises nothing but what is expected, if it comes to an end.
abbrev pub EndsBy : {B : Type 0} → (Exception → Type 0) → Option (Result B) → Type 0
EndsBy E none = Unit
EndsBy E (some (ok b)) = Unit
EndsBy E (some (err x)) = E x

module _ (E : Exception → Type 0) where
  then_run-EndsBy {ℓ} :
      {A : Type ℓ} {B : Type 0} (r : Result A) (next : A → Option (Result B))
      → ((x : Exception) → r ≡ err x → E x)
      → ((a : A) → r ≡ ok a → EndsBy E (next a))
      → EndsBy E (then_run r next)
  then_run-EndsBy (ok a) next h k = k a refl
  then_run-EndsBy (err x) next h k = h x refl

-- A `ServiceError`.
abbrev pub IsService : Exception → Type 0
IsService x = OnlyService {A = Unit {0}} (err x)

OnlyService→IsService :
    {A : Type 0} (r : Result A) (x : Exception) → OnlyService r → r ≡ err x → IsService x
OnlyService→IsService {A = A} r x h e = by_exception x (subst OnlyService e h)
  where
    by_exception : (x : Exception) → OnlyService {A = A} (err x) → IsService x
    by_exception (service_error e) k = tt
    by_exception (_) k = absurd k

module _ (fl : Floats) (reader : JsonReader fl.F) (writer : JsonWriter fl.F) (images : ImageLibrary)
    (as_string : Text → Option String) (respond : List Message → Result Completion)
    (cfg : ServiceSettings) where
  open fl use {F}

  -- The two exceptions without a handler: the `SyntaxError` of a broken PNG, and the
  -- `ValidationError` of an observation that is no valid string.
  abbrev pub Escapes : VisionRequest F → Exception → Type 0
  Escapes request x =
      ((x ≡ syntax_error) × (validate_images images request.images ≡ err syntax_error))
      ⊎ ((x ≡ validation_error)
          × ((c : Completion) × (respond (observation_messages request.images) ≡ ok c)
              × (as_string c.text ≡ none)))

  abbrev pub IsExpected : VisionRequest F → Exception → Type 0
  IsExpected request x = IsService x ⊎ Escapes request x

  observe-EndsBy :
      (free : ℕ) (events : List TaskEvent) (request : VisionRequest F)
      → OnlyService (respond (observation_messages request.images))
      → ((c : Completion)
          → respond (observation_messages request.images) ≡ ok c
          → EndsBy
              (IsExpected request)
              (describe fl reader writer images as_string respond cfg free events request c))
      → EndsBy (IsExpected request) (
          observe fl reader writer images as_string respond cfg free events request (
            complete_with_slot fl reader writer images as_string respond cfg free
              (observation_messages request.images)))
  observe-EndsBy free events request serves next =
      if-split
        (λ (o : Option (Result Completion)).
          EndsBy (IsExpected request)
            (observe fl reader writer images as_string respond cfg free events request o))
        (ltb 0 free) (some (respond (observation_messages request.images))) none
        (then_run-EndsBy (IsExpected request) (respond (observation_messages request.images)) _
          (λ x h. inl (OnlyService→IsService _ x serves h)) next)
        tt

  finish_vision-EndsBy :
      (request : VisionRequest F) (described : SystemOneRequest F) (completion : Completion)
      (observed : String) (o : Option (Result (SystemOneResponse F)))
      → ((r : Result (SystemOneResponse F))
          → o ≡ some r
          → Evaluated fl reader writer cfg described.state described r)
      → EndsBy
          (IsExpected request)
          (finish_vision fl reader writer images as_string respond cfg completion observed o)
  finish_vision-EndsBy request described completion observed none h = tt
  finish_vision-EndsBy request described completion observed (some (ok r)) h = tt
  finish_vision-EndsBy request described completion observed (some (err x)) h = inl (h (err x) refl)

  check_finite-passes :
      (state : Content F) (observed : String) {x : Exception}
      → all_finite fl.is_finite (content_json state) ≡ true
      → check_finite fl.is_finite (
          content_json
            (observed_state fl reader writer images as_string respond cfg state observed))
        ≡ err x
      → ⊥
  unfolding all_finite
  check_finite-passes state observed {x} h e =
      failed (subst (λ o. as_validation fl.is_finite o ≡ err x) (finite_json_lem fl.is_finite _) e)
    where
      failed :
          as_validation fl.is_finite (
              verdict fl.is_finite (
                all_finite fl.is_finite (
                  content_json
                    (observed_state fl reader writer images as_string respond cfg state observed))))
            ≡ err x
          → ⊥
      failed k = absurd (cc (rw h at k))

  as_valid-eq-err :
      (o : Option String) {x : Exception} → as_valid o ≡ err x → (x ≡ validation_error) × (o ≡ none)
  as_valid-eq-err none h = (cc, refl)
  as_valid-eq-err (some s) h = cc

  validate_images-IsExpected :
      (request : VisionRequest F) (x : Exception)
      → validate_images images request.images ≡ err x
      → IsExpected request x
  validate_images-IsExpected request x h = elim (validate_images_raises images request.images x h) [
    | inl invalid ↦ inl (subst IsService (sym invalid) tt)
    | inr escaped ↦
        inr (inl (escaped, subst (λ y. validate_images images request.images ≡ err y) escaped h))
  ]

  -- `evaluate_vision` raises nothing but `ServiceError` and the two exceptions above, for a request
  -- with a finite state whose questions have criteria, if the backend raises nothing else.
  pub evaluate_vision-EndsBy :
      FloatLaws fl
      → SumsAreFinite fl reader
      → Serves respond
      → (free : ℕ) (events : List TaskEvent) (request : VisionRequest F) → All EventServes events
      → All (λ x. HasCriteria fl reader x.1) request.questions
      → all_finite fl.is_finite (content_json request.state) ≡ true
      → EndsBy
          (IsExpected request)
          (evaluate_vision fl reader writer images as_string respond cfg free events request)
  unfolding evaluate_vision
  evaluate_vision-EndsBy laws sums serves free events request all_serve has finite =
      then_run-EndsBy (IsExpected request) (check_model cfg request.model) _
        (λ x h. inl (check_model-OnlyService cfg request.model x h))
        λ known _.
          then_run-EndsBy (IsExpected request) (validate_images images request.images) _
            (validate_images-IsExpected request)
            λ valid _. observe-EndsBy free events request (serves _) λ completion replied.
              then_run-EndsBy (IsExpected request)
                (check_observation fl reader writer images as_string respond cfg completion) _
                (λ x h. inl (OnlyService→IsService _ x (OnlyService-raise_if _ _) h))
                λ usable _.
                  then_run-EndsBy (IsExpected request) (as_valid (as_string completion.text)) _
                    (λ x h.
                      let (bad, no_text) = as_valid-eq-err _ h in
                      inr (inr (bad, (completion, replied, no_text))))
                    λ observed _.
                      let described =
                        observed_request fl reader writer images as_string respond cfg request
                          observed in
                      then_run-EndsBy (IsExpected request)
                        (check_finite fl.is_finite (content_json described.state)) _
                        (λ x h. absurd (check_finite-passes request.state observed finite h))
                        λ passed _.
                          finish_vision-EndsBy request described completion observed _ λ r h.
                            evaluate_tasks-Evaluated fl reader writer cfg laws sums free events
                              described r all_serve has h
