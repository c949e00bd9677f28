-- ===== src/Service/Tests.antt =====
-- `decide` over a backend whose first completion cannot be read.
use vllm_verifier.Base.{
  ℕ, suc, ◌+◌, ◌≡◌, ◌⊎◌, refl, Option, some, List, [], ◌∷◌, Any, arith, sum_by, keys, zip, insert,
  ◌==◌, if◌then◌else◌,
}
use vllm_verifier.Errors.{Result, ok, err, memory_error}
use vllm_verifier.Models.{choice, text, no_usage, Completion, SystemOneRequest, SystemOneResponse}
use vllm_verifier.Prompts.{Message}
use vllm_verifier.Verification.{
  verify, strict_json, loads, unique_object, decide_raw, distribution, listed, normalised,
  probability, confidence_of,
}
use vllm_verifier.Answers.{answer_choice, argmax, argmax_from}
use vllm_verifier.Backend.{Backend}
use vllm_verifier.Service.{accept, decide}
use vllm_verifier.Service.Tasks.{
  ServiceSettings, check_model, TaskEvent, acquire, reply, holds, begin_evaluation, acquire_slot,
  take_reply, step, run_tasks, evaluate_tasks, alone, in_order,
}
use vllm_verifier.Service.Schedules.{
  run_of, had, evaluate_tasks-in_order, evaluate_tasks_raises, run_tasks_slots,
}
use vllm_verifier.Service.Progress.{all_to_go}
use vllm_verifier.Service.Ends.{EndsWithin, evaluate_tasks_ends}
use vllm_verifier.Service.Decide.{Decided, counted, decide-Decided}
use vllm_verifier.Samples.{milli, milli_laws, milli_reader, milli_writer, plan}

abbrev slow_backend : Backend
slow_backend = record {
  State = ℕ;
  complete = λ calls ms. (
    ok (record {
      text = if calls == 0 then [] else 400 ∷ 600 ∷ [];
      usage = record { input_tokens = 9; output_tokens = 4 };
      finish_reason = "stop";
    }),
    suc calls,
  );
}

decide-Decided_example : Decided milli milli_reader milli_writer slow_backend (choice plan) 2 (
    decide milli milli_reader milli_writer
      (counted slow_backend)
      1
      (text "a state")
      (choice plan)
      (record { inner = 0; calls = 0; spent = no_usage }))
decide-Decided_example =
    decide-Decided milli milli_reader milli_writer slow_backend milli_laws (λ ps few h. refl)
      (λ s ms. tt) (choice plan) (omega arith) 1 (text "a state") 0

-- A backend that gives the same answer to every question.
abbrev ready_completion : Completion
ready_completion = record {
  text = 400 ∷ 600 ∷ [];
  usage = record { input_tokens = 9; output_tokens = 4 };
  finish_reason = "stop";
}

abbrev ready_backend : List Message → Result Completion
ready_backend messages = ok ready_completion

-- A backend that is down.
abbrev down_backend : List Message → Result Completion
down_backend messages = err memory_error

abbrev two_slots : ServiceSettings
two_slots = record { model = "a-model"; validation_retries = 1; max_concurrency = 2 }

abbrev two_questions : SystemOneRequest ℕ
two_questions = record {
  model = "jev-latest";
  state = text "a state";
  questions = ("first", choice plan) ∷ ("second", choice plan) ∷ [];
}

abbrev second_first : List TaskEvent
second_first = acquire 1 ∷ acquire 0 ∷ reply 1 ready_backend ∷ reply 0 ready_backend ∷ []

-- The first reply to the second question cannot be read.
abbrev silent_backend : List Message → Result Completion
silent_backend messages = ok (record {
  text = [];
  usage = record { input_tokens = 9; output_tokens = 1 };
  finish_reason = "stop";
})

abbrev second_again : List TaskEvent
second_again =
    acquire 1
    ∷ acquire 0
    ∷ reply 1 silent_backend
    ∷ reply 0 ready_backend
    ∷ acquire 1
    ∷ reply 1 ready_backend
    ∷ []

abbrev backend_down : List TaskEvent
backend_down = acquire 1 ∷ acquire 0 ∷ reply 1 ready_backend ∷ reply 0 down_backend ∷ []

abbrev response_or : Option (Result (SystemOneResponse ℕ)) → SystemOneResponse ℕ
response_or (some (ok r)) = r
response_or _ = record { model = ""; answers = []; usage = no_usage }

abbrev its_response : SystemOneResponse ℕ
its_response = response_or (
    evaluate_tasks milli milli_reader milli_writer two_slots (text "a state") 2 second_again
      two_questions)

answers_both :
    evaluate_tasks milli milli_reader milli_writer two_slots
      (text "a state")
      2
      second_again
      two_questions
    ≡ some (ok its_response)
unfolding evaluate_tasks check_model run_tasks step acquire_slot take_reply accept verify
    strict_json loads unique_object decide_raw distribution listed normalised probability
    confidence_of answer_choice argmax argmax_from
answers_both = refl

keys_both : keys its_response.answers ≡ "first" ∷ "second" ∷ []
unfolding evaluate_tasks check_model run_tasks step acquire_slot take_reply accept verify insert
    strict_json loads unique_object decide_raw distribution listed normalised probability
    confidence_of answer_choice argmax argmax_from
keys_both = refl

evaluate_tasks-in_order_example :
    in_order milli milli_reader milli_writer two_slots
      (text "a state")
      two_questions
      (had milli milli_reader milli_writer two_slots 2 second_again two_questions)
    ≡ ok its_response
evaluate_tasks-in_order_example =
    evaluate_tasks-in_order milli milli_reader milli_writer two_slots 2 second_again two_questions
      its_response answers_both

fails_first :
    evaluate_tasks milli milli_reader milli_writer two_slots
      (text "a state")
      2
      backend_down
      two_questions
    ≡ some (err memory_error)
unfolding evaluate_tasks check_model run_tasks step acquire_slot take_reply accept verify
    strict_json loads unique_object decide_raw distribution listed normalised probability
    confidence_of answer_choice argmax argmax_from
fails_first = refl

evaluate_tasks_raises_example :
    (check_model two_slots "jev-latest" ≡ err memory_error)
    ⊎ Any
        (λ p. alone milli milli_reader milli_writer two_slots (text "a state") p ≡ err memory_error)
        (zip
          (choice plan ∷ choice plan ∷ [])
          (had milli milli_reader milli_writer two_slots 2 backend_down two_questions))
evaluate_tasks_raises_example =
    evaluate_tasks_raises milli milli_reader milli_writer two_slots 2 backend_down two_questions
      memory_error fails_first

run_tasks_slots_example :
    (run_tasks milli milli_reader milli_writer two_slots
        (text "a state")
        second_first
        (begin_evaluation two_slots 2 two_questions.questions)).free
      + sum_by holds
          (run_tasks milli milli_reader milli_writer two_slots
            (text "a state")
            second_first
            (begin_evaluation two_slots 2 two_questions.questions)).tasks
    ≡ 2
run_tasks_slots_example =
    run_tasks_slots milli milli_reader milli_writer two_slots 2 second_first two_questions

-- One of the two questions has a slot.
evaluate_tasks_ends_example :
    EndsWithin milli milli_reader milli_writer two_slots 2 two_questions
      (all_to_go
        (run_of milli milli_reader milli_writer two_slots 2 (acquire 1 ∷ []) two_questions))
      (acquire 1 ∷ [])
evaluate_tasks_ends_example =
    evaluate_tasks_ends milli milli_reader milli_writer two_slots 2 (omega arith) (acquire 1 ∷ [])
      two_questions
