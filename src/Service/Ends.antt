-- ===== src/Service/Ends.antt =====
-- That `evaluate` of service.py can always come to an end.
use vllm_verifier.Base.{
  ℕ, zero, suc, ◌≤◌, ◌<◌, ◌≡◌, refl, ap, ◌∙◌, ◌⊎◌, inl, inr, ◌&&◌, Option, none, some, List, [],
  ◌∷◌, ◌++◌, values, get_elem?, arith, ltb, if-split,
}
use vllm_verifier.Errors.{Result, err, memory_error}
use vllm_verifier.Models.{
  Question, Answer, Content, Usage, Completion, SystemOneRequest, SystemOneResponse,
}
use vllm_verifier.Floats.{Floats}
use vllm_verifier.Verification.{JsonReader}
use vllm_verifier.Prompts.{JsonWriter, Message}
use vllm_verifier.Service.Tasks.{
  ServiceSettings, check_model, Task, Evaluation, TaskEvent, acquire, reply, is_waiting, is_asking,
  begin_evaluation, results, gathered, replied, acquire_slot, take_reply, step, run_tasks,
  evaluate_tasks,
}
use vllm_verifier.Service.Schedules.{run_of}
use vllm_verifier.Service.Kept.{Kept, step-Kept, run_tasks-Kept, begin-Kept}
use vllm_verifier.Service.Progress.{
  all_to_go, AllOpen, replied-Advanced, reply_to_go, acquire_to_go,
}
use vllm_verifier.Service.Open.{
  next_asking, next_waiting, gathered_open, modify-AllOpen, notice-AllOpen, ended, begin-IsOpen,
}

module _ (fl : Floats) (reader : JsonReader fl.F) (writer : JsonWriter fl.F) (cfg : ServiceSettings)
    (state : Content fl.F) where
  open fl use {F}

  step-AllOpen :
      (event : TaskEvent) (e : Evaluation F)
      → AllOpen e.failure e.tasks
      → AllOpen
          (step fl reader writer cfg state event e).failure
          (step fl reader writer cfg state event e).tasks
  unfolding step acquire_slot take_reply
  step-AllOpen (acquire i) e h = by_task (get_elem? e.tasks i) refl
    where
      by_task :
          (o : Option (Task F))
          → get_elem? e.tasks i ≡ o
          → AllOpen
              (acquire_slot fl reader writer cfg state i o e).failure
              (acquire_slot fl reader writer cfg state i o e).tasks
      by_task none at = h
      by_task (some t) at =
          if-split (λ (d : Evaluation F). AllOpen d.failure d.tasks)
            (is_waiting t.phase && ltb 0 e.free) _ e (modify-AllOpen _ e.failure i e.tasks at tt h)
            h
  step-AllOpen (reply i respond) e h = by_task (get_elem? e.tasks i) refl
    where
      by_task :
          (o : Option (Task F))
          → get_elem? e.tasks i ≡ o
          → AllOpen
              (take_reply fl reader writer cfg state i respond o e).failure
              (take_reply fl reader writer cfg state i respond o e).tasks
      by_task none at = h
      by_task (some t) at =
          if-split (λ (d : Evaluation F). AllOpen d.failure d.tasks) (is_asking t.phase) _ e
            (notice-AllOpen (replied fl reader writer cfg state respond t).phase _
              (replied-Advanced fl reader writer cfg state respond t).runs
              λ good.
                modify-AllOpen (replied fl reader writer cfg state respond) e.failure i e.tasks at
                  good h)
            h

  -- A slot that can be given, a reply that can come and say what it will, or the end.
  next_event :
      (total : ℕ) (questions : List (Question F)) (e : Evaluation F)
      → 1 ≤ total
      → Kept fl reader writer cfg state total questions e
      → AllOpen e.failure e.tasks
      → ((i : ℕ) × (all_to_go (step fl reader writer cfg state (acquire i) e) < all_to_go e))
        ⊎ (((i : ℕ) × ((respond : List Message → Result Completion)
                → all_to_go (step fl reader writer cfg state (reply i respond) e) < all_to_go e))
            ⊎ ((r : Result (List (Answer F × Usage))) × (gathered e.failure (results e.tasks)
                  ≡ some r)))
  next_event total questions e some_slot kept h = elim (next_asking e.tasks) [
    | inl (i, t, at, asks) ↦
        inr (inl (i, λ respond. reply_to_go fl reader writer cfg state i respond t e at asks))
    | inr free ↦ elim (next_waiting e.tasks) [
      | inl (i, t, at, waits) ↦ inl (
        i,
        acquire_to_go fl reader writer cfg state i t e at waits
            (omega (arith, kept.slots, free, some_slot)),
      )
      | inr idle ↦ inr (inr (gathered_open e.failure e.tasks h idle free))
    ]
  ]

  run_tasks-AllOpen :
      (events : List TaskEvent) (e : Evaluation F)
      → AllOpen e.failure e.tasks
      → AllOpen
          (run_tasks fl reader writer cfg state events e).failure
          (run_tasks fl reader writer cfg state events e).tasks
  unfolding run_tasks
  run_tasks-AllOpen [] e h = h
  run_tasks-AllOpen (event ∷ events) e h =
      run_tasks-AllOpen events (step fl reader writer cfg state event e) (step-AllOpen event e h)

  run_tasks-append :
      (events more : List TaskEvent) (e : Evaluation F)
      → run_tasks fl reader writer cfg state (events ++ more) e
        ≡ run_tasks fl reader writer cfg state more (run_tasks fl reader writer cfg state events e)
  unfolding run_tasks
  run_tasks-append [] more e = refl
  run_tasks-append (event ∷ events) more e =
      run_tasks-append events more (step fl reader writer cfg state event e)

module _ (fl : Floats) (reader : JsonReader fl.F) (writer : JsonWriter fl.F)
    (cfg : ServiceSettings) where
  open fl use {F}

  module _ (free : ℕ) (request : SystemOneRequest F) where
    -- Behind these events, at most so many further ones end `evaluate`: it has ended, or a task can
    -- be given a slot, or a task can be answered, whatever the reply is, and the rest is within one
    -- event less.
    abbrev pub EndsWithin : ℕ → List TaskEvent → Type 0
    EndsWithin zero events =
        (r : Result (SystemOneResponse F)) × (evaluate_tasks fl reader writer cfg request.state free
            events request
          ≡ some r)
    EndsWithin (suc n) events =
        ((r : Result (SystemOneResponse F)) × (evaluate_tasks fl reader writer cfg request.state
              free events request
            ≡ some r))
        ⊎ (((i : ℕ) × EndsWithin n (events ++ acquire i ∷ []))
            ⊎ ((i : ℕ) × ((respond : List Message → Result Completion)
                  → EndsWithin n (events ++ reply i respond ∷ []))))

    here_ended :
        (events : List TaskEvent) (e : Evaluation F) (r : Result (List (Answer F × Usage)))
        → run_of fl reader writer cfg free events request ≡ e
        → gathered e.failure (results e.tasks) ≡ some r
        → (v : Result (SystemOneResponse F)) × (evaluate_tasks fl reader writer cfg request.state
              free events request
            ≡ some v)
    unfolding evaluate_tasks
    here_ended events e r same over =
        let (v, whole) = ended cfg request.questions (check_model cfg request.model) r in
        (v, rw (same, over) whole)

    one_more :
        (events : List TaskEvent) (event : TaskEvent) (e : Evaluation F)
        → run_of fl reader writer cfg free events request ≡ e
        → run_of fl reader writer cfg free (events ++ event ∷ []) request
          ≡ step fl reader writer cfg request.state event e
    unfolding run_tasks
    one_more events event e same =
        run_tasks-append fl reader writer cfg request.state events (event ∷ []) _
        ∙ ap (step fl reader writer cfg request.state event) same

    ends_from :
        1 ≤ free
        → (n : ℕ) (events : List TaskEvent) (e : Evaluation F)
        → run_of fl reader writer cfg free events request ≡ e
        → Kept fl reader writer cfg request.state free (values request.questions) e
        → AllOpen e.failure e.tasks
        → all_to_go e ≤ n
        → EndsWithin n events
    ends_from some_slot zero events e same kept h le =
        elim (next_event fl reader writer cfg request.state free _ e some_slot kept h) [
          | inl (i, nearer) ↦ absurd (omega (arith, nearer, le))
          | inr (inl (i, nearer)) ↦ absurd (omega (arith, nearer (λ ms. err memory_error), le))
          | inr (inr (r, over)) ↦ here_ended events e r same over
        ]
    ends_from some_slot (suc n) events e same kept h le =
        let go =
          λ (event : TaskEvent)
              (nearer : all_to_go (step fl reader writer cfg request.state event e) < all_to_go e).
            ends_from some_slot n (events ++ event ∷ [])
              (step fl reader writer cfg request.state event e) (one_more events event e same)
              (step-Kept fl reader writer cfg request.state free _ event e kept)
              (step-AllOpen fl reader writer cfg request.state event e h)
              (omega (arith, nearer, le)) in
        elim (next_event fl reader writer cfg request.state free _ e some_slot kept h) [
          | inl (i, nearer) ↦ inr (inl (i, go (acquire i) nearer))
          | inr (inl (i, nearer)) ↦ inr (inr (i, λ respond. go (reply i respond) (nearer respond)))
          | inr (inr (r, over)) ↦ inl (here_ended events e r same over)
        ]

  -- Whatever has happened to the tasks of a request, `evaluate` can still come to an end, with a
  -- response or an exception, if at least one slot was free when it began: as long as it has not
  -- ended, a task can be given a slot or be answered, and however the backend replies, no more
  -- events are needed than two for each round that the tasks have left.
  pub evaluate_tasks_ends :
      (free : ℕ)
      → 1 ≤ free
      → (events : List TaskEvent) (request : SystemOneRequest F)
      → EndsWithin free request (all_to_go (run_of fl reader writer cfg free events request)) events
  evaluate_tasks_ends free some_slot events request =
      let start = begin_evaluation cfg free request.questions in
      let e = run_of fl reader writer cfg free events request in
      ends_from free request some_slot (all_to_go e) events e refl
        (run_tasks-Kept fl reader writer cfg request.state free (values request.questions) events
          start (begin-Kept fl reader writer cfg request.state free request.questions))
        (run_tasks-AllOpen fl reader writer cfg request.state events start
          (begin-IsOpen cfg.validation_retries (values request.questions)))
        (omega arith)
