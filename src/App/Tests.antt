-- ===== src/App/Tests.antt =====
-- The routes of app.py and the validation of models.py at concrete inputs.
use vllm_verifier.Base.{ℕ, ◌≡◌, refl, String, Bool, true, false, Option, some, List, [], ◌∷◌, Text}
use vllm_verifier.Errors.{Result, ok, err}
use vllm_verifier.Models.{
  Json, null, float, str, arr, obj, nil, cons, end, field, choice, text, no_usage, Completion,
  SystemOneRequest, VisionRequest, VisionResponse,
}
use vllm_verifier.Models.Contract.{
  not_finite, count, search_pending, finite_json, all_finite, verdict, finite_json_lem,
}
use vllm_verifier.Models.Parsing.{
  options_of, tagged, question_of, questions_of, request_of, validate_request,
}
use vllm_verifier.Models.Limits.{IsValidRequest, validate_request-IsValidRequest}
use vllm_verifier.Prompts.{Message}
use vllm_verifier.Verification.{
  verify, strict_json, loads, unique_object, decide_raw, distribution, listed, normalised,
  probability, confidence_of,
}
use vllm_verifier.Answers.{answer_choice, argmax, argmax_from}
use vllm_verifier.Vision.{ImageLibrary, intact, check_image, validate_images}
use vllm_verifier.Service.{accept}
use vllm_verifier.Service.Tasks.{
  ServiceSettings, check_model, TaskEvent, acquire, reply, acquire_slot, take_reply, step,
  run_tasks, evaluate_tasks,
}
use vllm_verifier.Service.Observe.{evaluate_vision}
use vllm_verifier.Service.Observed.{IsObserved, evaluate_vision-IsObserved}
use vllm_verifier.App.{
  Handled, replied, unhandled, system_one, models, lifespan, starts, serves, closes, direct_service,
  respond_to,
}
use vllm_verifier.Samples.{milli, milli_reader, milli_writer, plan}

-- A list with a number that is not finite, if `false` stands for one.
abbrev nested : Json Bool
nested = obj (field "a" (arr (cons (float true) (cons (arr (cons (float false) nil)) nil))) end)

rejects_nested : finite_json (λ b. b) nested ≡ some (err not_finite)
unfolding finite_json search_pending count
rejects_nested = refl

finite_json_lem_example :
    finite_json (λ b. b) nested ≡ verdict (λ b. b) (all_finite (λ b. b) nested)
finite_json_lem_example = finite_json_lem (λ b. b) nested

abbrev choice_json : Json ℕ
choice_json = obj (
    field "type" (str "choice")
      (field "criteria" (obj (field "yes" null (field "no" null end))) end))

abbrev body_json : Json ℕ
body_json = obj (
    field "model" (str "jev-latest")
      (field "state" (str "a state") (field "questions" (obj (field "first" choice_json end)) end)))

abbrev parsed_request : SystemOneRequest ℕ
parsed_request = record {
  model = "jev-latest";
  state = text "a state";
  questions = ("first", choice plan) ∷ [];
}

accepts : validate_request milli.is_finite body_json ≡ ok parsed_request
unfolding validate_request request_of questions_of question_of tagged options_of finite_json
    search_pending count
accepts = refl

validate_request-IsValidRequest_example :
    IsValidRequest parsed_request × (all_finite milli.is_finite body_json ≡ true)
validate_request-IsValidRequest_example =
    validate_request-IsValidRequest milli.is_finite body_json parsed_request accepts

-- One image, of four pixels.
abbrev one_image : ImageLibrary
one_image = record {
  Bytes = ℕ;
  b64decode = λ encoded. some 3;
  byte_count = λ n. n;
  open_image = λ n. some (record { format = "PNG"; width = 2; height = 2; verified = intact });
}

-- A backend that writes the same two numbers for every prompt.
abbrev some_completion : Completion
some_completion = record {
  text = 400 ∷ 600 ∷ [];
  usage = record { input_tokens = 9; output_tokens = 4 };
  finish_reason = "stop";
}

abbrev some_backend : List Message → Result Completion
some_backend messages = ok some_completion

abbrev some_settings : ServiceSettings
some_settings = record { model = "a-model"; validation_retries = 1; max_concurrency = 2 }

abbrev one_turn : List TaskEvent
one_turn = acquire 0 ∷ reply 0 some_backend ∷ []

abbrev some_text : Text → Option String
some_text t = some "a red square"

abbrev status_of : Handled ℕ → ℕ
status_of (replied r) = r.status
status_of (unhandled x) = 500

decides :
    status_of (
      respond_to milli milli_reader milli_writer one_image some_text some_backend some_settings "r1"
        1 one_turn
        (system_one (some body_json)))
    ≡ 200
unfolding respond_to validate_request request_of questions_of question_of tagged options_of
    finite_json search_pending count evaluate_tasks check_model run_tasks step acquire_slot
    take_reply accept verify strict_json loads unique_object decide_raw distribution listed
    normalised probability confidence_of answer_choice argmax argmax_from
decides = refl

times_out :
    status_of (
      respond_to milli milli_reader milli_writer one_image some_text some_backend some_settings "r1"
        1 []
        (system_one (some body_json)))
    ≡ 504
unfolding respond_to validate_request request_of questions_of question_of tagged options_of
    finite_json search_pending count evaluate_tasks check_model run_tasks
times_out = refl

abbrev vision_request : VisionRequest ℕ
vision_request = record { base = parsed_request; images = "data:image/png;base64,AAAA" ∷ [] }

abbrev vision_or : Option (Result (VisionResponse ℕ)) → VisionResponse ℕ
vision_or (some (ok r)) = r
vision_or _ = record {
  base = record { model = ""; answers = []; usage = no_usage };
  observation = "";
}

abbrev its_vision : VisionResponse ℕ
its_vision = vision_or (
    evaluate_vision milli milli_reader milli_writer one_image some_text some_backend some_settings 1
      one_turn vision_request)

observes :
    evaluate_vision milli milli_reader milli_writer one_image some_text some_backend some_settings 1
      one_turn vision_request
    ≡ some (ok its_vision)
unfolding evaluate_vision validate_images check_image finite_json search_pending count
    evaluate_tasks check_model run_tasks step acquire_slot take_reply accept verify strict_json
    loads unique_object decide_raw distribution listed normalised probability confidence_of
    answer_choice argmax argmax_from
observes = refl

evaluate_vision-IsObserved_example :
    IsObserved milli milli_reader milli_writer one_image some_text some_backend some_settings 1
      one_turn vision_request its_vision
evaluate_vision-IsObserved_example =
    evaluate_vision-IsObserved milli milli_reader milli_writer one_image some_text some_backend
      some_settings 1 one_turn vision_request its_vision observes

-- A served model that is also an alias stands in the list once.
lists_once :
    models "jev-latest"
    ≡ record { name = "jev-latest"; release_date = "2026-09-22" }
      ∷ record { name = "diffusion-jev"; release_date = "2026-09-22" }
      ∷ []
unfolding models
lists_once = refl

closes_last :
    lifespan direct_service (ok tt)
    ≡ starts direct_service ∷ serves direct_service ∷ closes direct_service ∷ []
unfolding lifespan
closes_last = refl
