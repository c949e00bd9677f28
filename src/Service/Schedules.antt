-- ===== src/Service/Schedules.antt =====
-- How `evaluate` of service.py ends, in whatever order its tasks run.
use vllm_verifier.Base.{
  ℕ, ◌+◌, ◌≡◌, refl, sym, ap, subst, ◌⊎◌, inl, inr, Option, none, some, List, [], ◌∷◌, map, values,
  zip, append-nil, sum_by, All, Any,
}
use vllm_verifier.Errors.{Exception, Result, ok, err, traverse}
use vllm_verifier.Models.{
  Question, Answer, Content, Usage, Completion, SystemOneRequest, SystemOneResponse,
}
use vllm_verifier.Floats.{Floats}
use vllm_verifier.Verification.{JsonReader}
use vllm_verifier.Prompts.{JsonWriter, Message}
use vllm_verifier.Service.Tasks.{
  ServiceSettings, check_model, TaskPhase, waiting, asking, cancelled, done, Task, Evaluation,
  TaskEvent, holds, begin_evaluation, collected, results, gathered, outcome, behind_check,
  run_tasks, evaluate_tasks, alone, in_order, scripts_of,
}
use vllm_verifier.Service.Tracks.{Track, OnTrack}
use vllm_verifier.Service.Kept.{Blamed, HasFailed, Kept, run_tasks-Kept, begin-Kept}

some-injective {ℓ} : {A : Type ℓ} {a b : A} → some a ≡ some b → a ≡ b
some-injective h = cc

module _ (fl : Floats) (reader : JsonReader fl.F) (writer : JsonWriter fl.F) (cfg : ServiceSettings)
    (state : Content fl.F) where
  open fl use {F}

  collected-eq-some :
      (p : TaskPhase F) (o : Option (List (Answer F × Usage))) {rs : List (Answer F × Usage)}
      → collected p o ≡ some rs
      → (r : Answer F × Usage) × (more : List (Answer F × Usage)) × (p ≡ done (ok r))
        × (o ≡ some more)
        × (rs ≡ r ∷ more)
  collected-eq-some (done (ok r)) (some more) h = (r, more, refl, refl, cc)
  collected-eq-some (done (ok r)) none h = cc
  collected-eq-some (done (err x)) o h = cc
  collected-eq-some waiting o h = cc
  collected-eq-some asking o h = cc
  collected-eq-some cancelled o h = cc

  -- The questions with the replies that their tasks have had.
  abbrev pub asked_of : List (Task F) → List (Question F × List (List Message → Result Completion))
  asked_of tasks =
      zip (map (λ (t : Task F). t.question) tasks) (map (λ (t : Task F). t.replies) tasks)

  -- A task that is done has the result of its question with its replies.
  done-alone :
      (t : Task F) (r : Result (Answer F × Usage))
      → OnTrack fl reader writer cfg state t
      → t.phase ≡ done r
      → alone fl reader writer cfg state (t.question, t.replies) ≡ r
  done-alone t r h e =
      subst (λ l. alone fl reader writer cfg state (t.question, l) ≡ r) (append-nil t.replies)
        (sym (subst (λ p. Track fl reader writer cfg state p t) e h []))

  results-traverse :
      (tasks : List (Task F)) (rs : List (Answer F × Usage))
      → All (OnTrack fl reader writer cfg state) tasks
      → results tasks ≡ some rs
      → traverse (alone fl reader writer cfg state) (asked_of tasks) ≡ ok rs
  results-traverse [] rs h e = ap ok cc
  results-traverse (t ∷ tasks) rs h e =
      let (r, more, here, rest, whole) = collected-eq-some t.phase (results tasks) e in
      let mine = done-alone t (ok r) h.0 here in
      let others = results-traverse tasks more h.1 rest in rw (mine, others, whole) refl

  failed-Any :
      (x : Exception) (tasks : List (Task F))
      → All (OnTrack fl reader writer cfg state) tasks
      → Any (HasFailed fl reader writer cfg state x) tasks
      → Any (λ p. alone fl reader writer cfg state p ≡ err x) (asked_of tasks)
  failed-Any x [] h one = elim one [ ]
  failed-Any x (t ∷ tasks) h (inl here) = inl (done-alone t (err x) h.0 here)
  failed-Any x (t ∷ tasks) h (inr more) = inr (failed-Any x tasks h.1 more)

  -- `gather` returns the results of the questions in their order, or raises what one of them raises.
  abbrev Ends :
      List (Question F × List (List Message → Result Completion))
      → Result (List (Answer F × Usage))
      → Type 0
  Ends asked (ok rs) = traverse (alone fl reader writer cfg state) asked ≡ ok rs
  Ends asked (err x) = Any (λ p. alone fl reader writer cfg state p ≡ err x) asked

  -- How the run ends, by what is known of its tasks.
  gathered-Kept :
      (total : ℕ) (questions : List (Question F)) (e : Evaluation F) (failure : Option Exception)
      (o : Option (List (Answer F × Usage))) {r : Result (List (Answer F × Usage))}
      → e.failure ≡ failure
      → results e.tasks ≡ o
      → Kept fl reader writer cfg state total questions e
      → gathered failure o ≡ some r
      → Ends (zip questions (scripts_of fl reader writer cfg state e)) r
  gathered-Kept total questions e (some x) o failed all h last =
      subst (Ends (zip questions (scripts_of fl reader writer cfg state e))) (some-injective last) (
        subst
          (λ l.
            Any (λ p. alone fl reader writer cfg state p ≡ err x)
              (zip l (scripts_of fl reader writer cfg state e)))
          h.asked
          (failed-Any x e.tasks h.tracks
            (subst (Blamed fl reader writer cfg state e.tasks) failed h.blamed)))
  gathered-Kept total questions e none (some rs) failed all h last =
      subst (Ends (zip questions (scripts_of fl reader writer cfg state e))) (some-injective last) (
        subst
          (λ l.
            traverse (alone fl reader writer cfg state)
              (zip l (scripts_of fl reader writer cfg state e))
            ≡ ok rs)
          h.asked (results-traverse e.tasks rs h.tracks all))
  gathered-Kept total questions e none none failed all h last = cc

module _ (fl : Floats) (reader : JsonReader fl.F) (writer : JsonWriter fl.F)
    (cfg : ServiceSettings) where
  open fl use {F}

  abbrev pub run_of : ℕ → List TaskEvent → SystemOneRequest F → Evaluation F
  run_of free events request =
      run_tasks fl reader writer cfg request.state events
        (begin_evaluation cfg free request.questions)

  pub run_of-Kept :
      (free : ℕ) (events : List TaskEvent) (request : SystemOneRequest F)
      → Kept fl reader writer cfg request.state free (values request.questions) (
          run_tasks fl reader writer cfg request.state events
            (begin_evaluation cfg free request.questions))
  run_of-Kept free events request =
      run_tasks-Kept fl reader writer cfg request.state free (values request.questions) events _
        (begin-Kept fl reader writer cfg request.state free request.questions)

  -- The replies that the task of each question has had.
  abbrev pub had :
      ℕ → List TaskEvent → SystemOneRequest F → List (List (List Message → Result Completion))
  had free events request =
      scripts_of fl reader writer cfg request.state (run_of free events request)

  -- What `evaluate` gives, from how the tasks ended.
  abbrev Agrees :
      SystemOneRequest F
      → List (List (List Message → Result Completion))
      → Result (SystemOneResponse F)
      → Type 0
  Agrees request scripts (ok response) =
      in_order fl reader writer cfg request.state request scripts ≡ ok response
  Agrees request scripts (err x) =
      (check_model cfg request.model ≡ err x)
      ⊎ Any (λ p. alone fl reader writer cfg request.state p ≡ err x)
          (zip (values request.questions) scripts)

  outcome-Agrees :
      (request : SystemOneRequest F) (scripts : List (List (List Message → Result Completion)))
      (g : Option (Result (List (Answer F × Usage)))) {r : Result (SystemOneResponse F)}
      → check_model cfg request.model ≡ ok tt
      → ((rs : Result (List (Answer F × Usage)))
          → g ≡ some rs
          → Ends fl reader writer cfg request.state (zip (values request.questions) scripts) rs)
      → outcome cfg request.questions g ≡ some r
      → Agrees request scripts r
  outcome-Agrees request scripts none known ends h = cc
  outcome-Agrees request scripts (some (ok rs)) known ends h =
      subst (Agrees request scripts) (some-injective h) (rw (known, ends (ok rs) refl) refl)
  outcome-Agrees request scripts (some (err x)) known ends h =
      subst (Agrees request scripts) (some-injective h) (inr (ends (err x) refl))

  behind_check-Agrees :
      (request : SystemOneRequest F) (scripts : List (List (List Message → Result Completion)))
      (g : Option (Result (List (Answer F × Usage)))) {r : Result (SystemOneResponse F)}
      (m : Result (Unit {0}))
      → check_model cfg request.model ≡ m
      → ((rs : Result (List (Answer F × Usage)))
          → g ≡ some rs
          → Ends fl reader writer cfg request.state (zip (values request.questions) scripts) rs)
      → behind_check m (outcome cfg request.questions g) ≡ some r
      → Agrees request scripts r
  behind_check-Agrees request scripts g (err x) known ends h =
      subst (Agrees request scripts) (some-injective h) (inl known)
  behind_check-Agrees request scripts g (ok passed) known ends h =
      outcome-Agrees request scripts g known ends h

  evaluate_tasks-Agrees :
      (free : ℕ) (events : List TaskEvent) (request : SystemOneRequest F)
      (r : Result (SystemOneResponse F))
      → evaluate_tasks fl reader writer cfg request.state free events request ≡ some r
      → Agrees request (had free events request) r
  unfolding evaluate_tasks
  evaluate_tasks-Agrees free events request r h =
      let e = run_of free events request in
      behind_check-Agrees request (had free events request) (gathered e.failure (results e.tasks))
        (check_model cfg request.model) refl
        (λ rs g.
          gathered-Kept fl reader writer cfg request.state free (values request.questions) e
            e.failure (results e.tasks) refl refl (run_of-Kept free events request) g)
        h

  -- If `evaluate` returns a response, in whatever order its tasks got their slots and replies, that
  -- is the response of asking the questions one after the other, each with the replies that its task
  -- had, and with nothing from the other tasks.
  pub evaluate_tasks-in_order :
      (free : ℕ) (events : List TaskEvent) (request : SystemOneRequest F)
      (response : SystemOneResponse F)
      → evaluate_tasks fl reader writer cfg request.state free events request ≡ some (ok response)
      → in_order fl reader writer cfg request.state request (had free events request) ≡ ok response
  evaluate_tasks-in_order free events request response h =
      evaluate_tasks-Agrees free events request (ok response) h

  -- If `evaluate` raises, in whatever order its tasks ran, it raises what the test of the model
  -- raises, or what the decision of one of its questions raises by itself, with the replies that its
  -- task had.
  pub evaluate_tasks_raises :
      (free : ℕ) (events : List TaskEvent) (request : SystemOneRequest F) (x : Exception)
      → evaluate_tasks fl reader writer cfg request.state free events request ≡ some (err x)
      → (check_model cfg request.model ≡ err x)
        ⊎ Any
            (λ p. alone fl reader writer cfg request.state p ≡ err x)
            (zip (values request.questions) (had free events request))
  evaluate_tasks_raises free events request x h =
      evaluate_tasks-Agrees free events request (err x) h

  -- After any events, the slots that the tasks of a request hold and the slots that are free are
  -- together as many as were free when it began.
  pub run_tasks_slots :
      (free : ℕ) (events : List TaskEvent) (request : SystemOneRequest F)
      → (run_tasks fl reader writer cfg request.state events
            (begin_evaluation cfg free request.questions)).free
          + sum_by holds
              (run_tasks fl reader writer cfg request.state events
                (begin_evaluation cfg free request.questions)).tasks
        ≡ free
  run_tasks_slots free events request = (run_of-Kept free events request).slots
