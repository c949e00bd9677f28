-- ===== src/Service/Tasks.antt =====
-- `DecisionService.evaluate` of service.py: a task for each question, which take the slots of the
-- semaphore in any order. Slots that other requests hold are not counted. A reply is an event that
-- carries how the backend behaves in that call, so that no two calls need to agree.
use vllm_verifier.Base.{
  ℕ, zero, suc, ◌-◌, ◌+◌, String, Bool, true, false, ◌&&◌, not, Option, none, some, List, [], ◌∷◌,
  ◌++◌, zip, map, values, get_elem?, modify, sum_by, insert, ltb, elem, if◌then◌else◌,
}
use vllm_verifier.Errors.{
  Exception, Result, ok, err, ◌>>=◌, ◌>>◌, raise_if, invalid_output, service, traverse,
}
use vllm_verifier.Models.{
  Question, Answer, Content, Usage, no_usage, add_usage, Completion, SystemOneRequest,
  SystemOneResponse,
}
use vllm_verifier.Floats.{Floats}
use vllm_verifier.Verification.{JsonReader}
use vllm_verifier.Prompts.{JsonWriter, Message, decision_messages}
use vllm_verifier.Backend.{Backend}
use vllm_verifier.Service.{accept, decide}

-- The fields of `Settings` that the service reads.
pub record ServiceSettings : Type 0 where
  pub model : String
  pub validation_retries : ℕ
  pub max_concurrency : ℕ

-- `check_model`
unfoldable pub check_model : ServiceSettings → String → Result (Unit {0})
check_model cfg requested =
    raise_if (not (elem requested ("jev-latest" ∷ "diffusion-jev" ∷ cfg.model ∷ [])))
      (service 422 "unknown_model" "Use jev-latest, diffusion-jev or the served model")

module _ (F : Type 0) where
  -- Where a task stands: it waits for a slot, it has one and has asked, it is done, or it was cancelled.
  pub data TaskPhase : Type 0 where
    waiting asking cancelled : TaskPhase
    done : Result (Answer F × Usage) → TaskPhase

  -- A run of `decide`; `left` rounds follow the present one.
  pub record Task : Type 0 where
    pub question : Question F
    pub left : ℕ
    pub correction : Option String
    pub usage : Usage
    pub phase : TaskPhase
    -- how the backend has behaved in the calls of this task; no operation reads it
    pub replies : List (List Message → Result Completion)

  -- The tasks of a request, the slots that are free, and the exception that `gather` raises.
  pub record Evaluation : Type 0 where
    pub free : ℕ
    pub tasks : List Task
    pub failure : Option Exception

-- The task with this number gets a slot, or the backend answers its messages.
pub data TaskEvent : Type 0 where
  acquire : (task : ℕ) → TaskEvent
  reply : (task : ℕ) → (respond : List Message → Result Completion) → TaskEvent

module _ {F : Type 0} where
  abbrev pub is_waiting : TaskPhase F → Bool
  is_waiting waiting = true
  is_waiting _ = false

  abbrev pub is_asking : TaskPhase F → Bool
  is_asking asking = true
  is_asking _ = false

  -- How many slots a task holds.
  abbrev pub holds : Task F → ℕ
  holds t = if is_asking t.phase then 1 else 0

  abbrev pub end_task : Task F → Result (Answer F × Usage) → Task F
  end_task t r = record t { phase = done r }

  -- `except InvalidOutput`: the next round, if one is left.
  abbrev pub retry : Task F → ℕ → String → Usage → Task F
  retry t zero message used =
      end_task t
        (err (service 502 "invalid_model_output" "Model output failed typed decision validation"))
  retry t (suc left) message used = record t {
    left = left;
    correction = some message;
    usage = used;
    phase = waiting;
  }

  abbrev pub judged : Task F → Usage → Result (Answer F) → Task F
  judged t used (ok answer) = end_task t (ok (answer, used))
  judged t used (err (invalid_output message)) = retry t t.left message used
  judged t used (err other) = end_task t (err other)

  -- `task.cancel()`, for a task that is not done
  abbrev pub cancel_phase : TaskPhase F → TaskPhase F
  cancel_phase (done r) = done r
  cancel_phase _ = cancelled

  abbrev pub cancel_task : Task F → Task F
  cancel_task t = record t { phase = cancel_phase t.phase }

  -- The first failure ends `gather`, and the others are cancelled and give back their slots.
  abbrev pub notice : TaskPhase F → Evaluation F → Evaluation F
  notice (done (err x)) e = record {
    free = e.free + sum_by holds e.tasks;
    tasks = map cancel_task e.tasks;
    failure = some x;
  }
  notice _ e = e

  abbrev pub new_task : ℕ → Question F → Task F
  new_task retries question = record {
    question = question;
    left = retries;
    correction = none;
    usage = no_usage;
    phase = waiting;
    replies = [];
  }

  -- `asyncio.create_task` for each question.
  abbrev pub begin_evaluation : ServiceSettings → ℕ → List (String × Question F) → Evaluation F
  begin_evaluation cfg free questions = record {
    free = free;
    tasks = map (new_task cfg.validation_retries) (values questions);
    failure = none;
  }

  -- The results of `gather`, once all tasks are done.
  abbrev pub collected :
      TaskPhase F → Option (List (Answer F × Usage)) → Option (List (Answer F × Usage))
  collected (done (ok r)) (some rs) = some (r ∷ rs)
  collected _ _ = none

  abbrev pub results : List (Task F) → Option (List (Answer F × Usage))
  results [] = some []
  results (t ∷ tasks) = collected t.phase (results tasks)

  -- The loop over `zip(request.questions, results)`.
  abbrev pub merge :
      List (String × Question F)
      → List (Answer F × Usage)
      → List (String × Answer F) × Usage
      → List (String × Answer F) × Usage
  merge ((key, q) ∷ questions) ((answer, consumed) ∷ rs) (answers, usage) =
      merge questions rs (insert key answer answers, add_usage usage consumed)
  merge _ _ p = p

  abbrev pub response_of :
      ServiceSettings → List (String × Question F) → List (Answer F × Usage) → SystemOneResponse F
  response_of cfg questions rs =
      let (answers, usage) = merge questions rs ([], no_usage) in
      record { model = cfg.model; answers = answers; usage = usage }

  -- How `gather` ends, if it has: it raises, or all tasks have a result.
  abbrev pub gathered :
      Option Exception
      → Option (List (Answer F × Usage))
      → Option (Result (List (Answer F × Usage)))
  gathered (some x) rs = some (err x)
  gathered none (some rs) = some (ok rs)
  gathered none none = none

  abbrev pub outcome :
      ServiceSettings
      → List (String × Question F)
      → Option (Result (List (Answer F × Usage)))
      → Option (Result (SystemOneResponse F))
  outcome cfg questions none = none
  outcome cfg questions (some r) = some (do rs ← r; ok (response_of cfg questions rs))

  -- An unknown model ends `evaluate` before any task.
  abbrev pub behind_check :
      Result (Unit {0})
      → Option (Result (SystemOneResponse F))
      → Option (Result (SystemOneResponse F))
  behind_check (err x) later = some (err x)
  behind_check (ok passed) later = later

module _ (fl : Floats) (reader : JsonReader fl.F) (writer : JsonWriter fl.F) (cfg : ServiceSettings)
    (state : Content fl.F) where
  open fl use {F}

  -- What the backend's call makes of a task.
  abbrev pub answered : Task F → Result Completion → Task F
  answered t (err x) = end_task t (err x)
  answered t (ok completion) =
      judged t (add_usage t.usage completion.usage) (accept fl reader writer completion t.question)

  abbrev pub replied : (List Message → Result Completion) → Task F → Task F
  replied respond t =
      answered (record t { replies = t.replies ++ respond ∷ [] })
        (respond (decision_messages writer state t.question t.correction))

  -- `async with self.slots`
  unfoldable pub acquire_slot : ℕ → Option (Task F) → Evaluation F → Evaluation F
  acquire_slot i none e = e
  acquire_slot i (some t) e =
      if is_waiting t.phase && ltb 0 e.free
      then record e {
        free = e.free - 1;
        tasks = modify (λ u. record u { phase = asking }) i e.tasks;
      }
      else e

  unfoldable pub take_reply :
      ℕ → (List Message → Result Completion) → Option (Task F) → Evaluation F → Evaluation F
  take_reply i respond none e = e
  take_reply i respond (some t) e =
      if is_asking t.phase
      then notice (replied respond t).phase
          (record e { free = suc e.free; tasks = modify (replied respond) i e.tasks })
      else e

  unfoldable pub step : TaskEvent → Evaluation F → Evaluation F
  step (acquire i) e = acquire_slot i (get_elem? e.tasks i) e
  step (reply i respond) e = take_reply i respond (get_elem? e.tasks i) e

  unfoldable pub run_tasks : List TaskEvent → Evaluation F → Evaluation F
  run_tasks [] e = e
  run_tasks (event ∷ events) e = run_tasks events (step event e)

  -- `evaluate`, with the order in which its tasks run; `none` if they have not come to an end.
  unfoldable pub evaluate_tasks :
      ℕ → List TaskEvent → SystemOneRequest F → Option (Result (SystemOneResponse F))
  evaluate_tasks free events request =
      let e = run_tasks events (begin_evaluation cfg free request.questions) in
      behind_check (check_model cfg request.model)
        (outcome cfg request.questions (gathered e.failure (results e.tasks)))

  -- A backend that behaves in each call as this list says.
  abbrev next_reply :
      List (List Message → Result Completion)
      → List Message
      → Result Completion × List (List Message → Result Completion)
  next_reply [] messages = (err (service 503 "no_reply" "The list is too short"), [])
  next_reply (respond ∷ replies) messages = (respond messages, replies)

  abbrev pub scripted : Backend
  scripted = record { State = List (List Message → Result Completion); complete = next_reply }

  -- `decide` for one question by itself, with these replies.
  abbrev pub alone :
      Question F × List (List Message → Result Completion) → Result (Answer F × Usage)
  alone (question, replies) =
      (decide fl reader writer scripted cfg.validation_retries state question replies).0

  -- The replies that each task has had.
  abbrev pub scripts_of : Evaluation F → List (List (List Message → Result Completion))
  scripts_of e = map (λ (t : Task F). t.replies) e.tasks

  -- The questions one after the other, in their order, each with its replies.
  abbrev pub in_order :
      SystemOneRequest F
      → List (List (List Message → Result Completion))
      → Result (SystemOneResponse F)
  in_order request scripts = do
    check_model cfg request.model
    rs ← traverse alone (zip (values request.questions) scripts)
    ok (response_of cfg request.questions rs)
