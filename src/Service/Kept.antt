-- ===== src/Service/Kept.antt =====
-- What each event keeps of the tasks of `evaluate` in service.py.
use vllm_verifier.Base.{
  ℕ, suc, ◌-◌, ◌+◌, ◌≡◌, refl, ap, ◌∙◌, String, true, ◌&&◌, Option, none, some, List, [], ◌∷◌, map,
  values, get_elem?, modify, sum_by, arith, ltb, ltb→lt, All, Any, &&_true, if◌then◌else◌, if-cases,
  All-modify, map-modify, sum_by-modify, All-get_elem?, Any-modify, Any-modified, inl, inr,
}
use vllm_verifier.Errors.{Exception, Result, ok, err}
use vllm_verifier.Models.{Question, Content, Completion}
use vllm_verifier.Floats.{Floats}
use vllm_verifier.Verification.{JsonReader}
use vllm_verifier.Prompts.{JsonWriter, Message}
use vllm_verifier.Service.{decide}
use vllm_verifier.Service.Tasks.{
  ServiceSettings, TaskPhase, waiting, asking, cancelled, done, Task, Evaluation, TaskEvent,
  acquire, reply, is_waiting, is_asking, holds, notice, cancel_phase, cancel_task, new_task,
  begin_evaluation, replied, acquire_slot, take_reply, step, run_tasks,
}
use vllm_verifier.Service.Tracks.{
  OnTrack, replied-OnTrack, question-replied, holds-replied, waiting-Onward, asking-Onward,
  not_asking, cancel_keeps, cancel_questions, cancel_holds,
}

module _ (fl : Floats) (reader : JsonReader fl.F) (writer : JsonWriter fl.F) (cfg : ServiceSettings)
    (state : Content fl.F) where
  open fl use {F}

  -- The failure of `gather`, if there is one, is that of a task.
  abbrev pub HasFailed : Exception → Task F → Type 0
  HasFailed x t = t.phase ≡ done (err x)

  abbrev pub Blamed : List (Task F) → Option Exception → Type 0
  Blamed tasks none = Unit
  Blamed tasks (some x) = Any (HasFailed x) tasks

  cancel-Blamed :
      (x : Exception) (tasks : List (Task F))
      → Any (HasFailed x) tasks
      → Any (HasFailed x) (map cancel_task tasks)
  cancel-Blamed x [] h = elim h [ ]
  cancel-Blamed x (t ∷ tasks) (inl here) = inl (ap cancel_phase here)
  cancel-Blamed x (t ∷ tasks) (inr more) = inr (cancel-Blamed x tasks more)

  modify-Blamed :
      (f : Task F → Task F) (i : ℕ) (tasks : List (Task F)) (failure : Option Exception)
      {t : Task F}
      → get_elem? tasks i ≡ some t
      → ((x : Exception) → HasFailed x t → HasFailed x (f t))
      → Blamed tasks failure
      → Blamed (modify f i tasks) failure
  modify-Blamed f i tasks none at keeps h = tt
  modify-Blamed f i tasks (some x) at keeps h = Any-modify f (HasFailed x) i tasks at (keeps x) h

  waiting_lives : (p : TaskPhase F) (x : Exception) → is_waiting p ≡ true → p ≡ done (err x) → ⊥
  waiting_lives waiting x w e = cc
  waiting_lives asking x w e = cc
  waiting_lives cancelled x w e = cc
  waiting_lives (done r) x w e = cc

  asking_lives : (p : TaskPhase F) (x : Exception) → is_asking p ≡ true → p ≡ done (err x) → ⊥
  asking_lives waiting x w e = cc
  asking_lives asking x w e = cc
  asking_lives cancelled x w e = cc
  asking_lives (done r) x w e = cc

  pub record Kept (total : ℕ) (questions : List (Question F)) (e : Evaluation F) : Type 0 where
    pub tracks : All (OnTrack fl reader writer cfg state) e.tasks
    pub asked : map (λ (t : Task F). t.question) e.tasks ≡ questions
    pub blamed : Blamed e.tasks e.failure
    pub slots : e.free + sum_by holds e.tasks ≡ total

  module _ (total : ℕ) (questions : List (Question F)) where
    notice-Kept :
        (p : TaskPhase F) (e : Evaluation F)
        → ((x : Exception) → p ≡ done (err x) → Any (HasFailed x) e.tasks)
        → Kept total questions e
        → Kept total questions (notice p e)
    notice-Kept waiting e blame h = h
    notice-Kept asking e blame h = h
    notice-Kept cancelled e blame h = h
    notice-Kept (done (ok r)) e blame h = h
    notice-Kept (done (err x)) e blame h = record {
      tracks = cancel_keeps fl reader writer cfg state e.tasks h.tracks;
      asked = cancel_questions fl reader writer cfg state e.tasks ∙ h.asked;
      blamed = cancel-Blamed x e.tasks (blame x refl);
      slots = omega (arith, cancel_holds fl reader writer cfg state e.tasks, h.slots);
    }

    acquire_slot-Kept :
        (i : ℕ) (o : Option (Task F)) (e : Evaluation F)
        → get_elem? e.tasks i ≡ o
        → Kept total questions e
        → Kept total questions (acquire_slot fl reader writer cfg state i o e)
    unfolding acquire_slot
    acquire_slot-Kept i none e at h = h
    acquire_slot-Kept i (some t) e at h =
        if-cases (Kept total questions) (is_waiting t.phase && ltb 0 e.free) _ _ taken (λ other. h)
      where
        taken :
            (is_waiting t.phase && ltb 0 e.free) ≡ true
            → Kept total questions (record e {
              free = e.free - 1;
              tasks = modify (λ u. record u { phase = asking }) i e.tasks;
            })
        taken both =
            let (waits, some_free) = &&_true (is_waiting t.phase) _ both in
            let before : holds t ≡ 0 =
              ap (λ b. if b then 1 else 0) (not_asking fl reader writer cfg state t.phase waits) in
            record {
              tracks =
                  All-modify (λ u. record u { phase = asking }) (OnTrack fl reader writer cfg state)
                    i e.tasks at (waiting-Onward fl reader writer cfg state t.phase t waits)
                    h.tracks;
              asked =
                  map-modify (λ u. record u { phase = asking }) (λ (u : Task F). u.question) i
                    e.tasks (λ u. refl)
                  ∙ h.asked;
              blamed =
                  modify-Blamed (λ u. record u { phase = asking }) i e.tasks e.failure at
                    (λ x failed. absurd (waiting_lives t.phase x waits failed)) h.blamed;
              slots = omega (
                arith,
                sum_by-modify (λ u. record u { phase = asking }) holds i e.tasks at,
                h.slots,
                before,
                ltb→lt 0 e.free some_free,
              );
            }

    take_reply-Kept :
        (i : ℕ) (respond : List Message → Result Completion) (o : Option (Task F))
        (e : Evaluation F)
        → get_elem? e.tasks i ≡ o
        → Kept total questions e
        → Kept total questions (take_reply fl reader writer cfg state i respond o e)
    unfolding take_reply
    take_reply-Kept i respond none e at h = h
    take_reply-Kept i respond (some t) e at h =
        if-cases (Kept total questions) (is_asking t.phase) _ _ taken (λ other. h)
      where
        taken :
            is_asking t.phase ≡ true
            → Kept total questions (
                notice (replied fl reader writer cfg state respond t).phase (record e {
                  free = suc e.free;
                  tasks = modify (replied fl reader writer cfg state respond) i e.tasks;
                }))
        taken asks =
            let f = replied fl reader writer cfg state respond in
            let one : holds t ≡ 1 = ap (λ b. if b then 1 else 0) asks in
            let good : OnTrack fl reader writer cfg state (f t) =
              replied-OnTrack fl reader writer cfg state respond t (
                asking-Onward fl reader writer cfg state t.phase t asks
                  (All-get_elem? (OnTrack fl reader writer cfg state) e.tasks i at h.tracks)) in
            notice-Kept (f t).phase _ (λ x failed. Any-modified f (HasFailed x) i e.tasks at failed)
              (record {
                tracks =
                    All-modify _ (OnTrack fl reader writer cfg state) i e.tasks at (λ _. good)
                      h.tracks;
                asked =
                    map-modify _ (λ (u : Task F). u.question) i e.tasks
                      (question-replied fl reader writer cfg state respond)
                    ∙ h.asked;
                blamed =
                    modify-Blamed f i e.tasks e.failure at
                      (λ x failed. absurd (asking_lives t.phase x asks failed)) h.blamed;
                slots = omega (
                  arith,
                  sum_by-modify f holds i e.tasks at,
                  h.slots,
                  one,
                  holds-replied fl reader writer cfg state respond t,
                );
              })

    pub step-Kept :
        (event : TaskEvent) (e : Evaluation F)
        → Kept total questions e
        → Kept total questions (step fl reader writer cfg state event e)
    unfolding step
    step-Kept (acquire i) e h = acquire_slot-Kept i (get_elem? e.tasks i) e refl h
    step-Kept (reply i respond) e h = take_reply-Kept i respond (get_elem? e.tasks i) e refl h

    pub run_tasks-Kept :
        (events : List TaskEvent) (e : Evaluation F)
        → Kept total questions e
        → Kept total questions (run_tasks fl reader writer cfg state events e)
    unfolding run_tasks
    run_tasks-Kept [] e h = h
    run_tasks-Kept (event ∷ events) e h = run_tasks-Kept events _ (step-Kept event e h)

  begin-tracks :
      (l : List (Question F))
      → All (OnTrack fl reader writer cfg state) (map (new_task cfg.validation_retries) l)
  unfolding decide
  begin-tracks [] = tt
  begin-tracks (q ∷ l) = ((λ rest. refl), begin-tracks l)

  begin-asked :
      (l : List (Question F))
      → map (λ (t : Task F). t.question) (map (new_task cfg.validation_retries) l) ≡ l
  begin-asked [] = refl
  begin-asked (q ∷ l) = ap (λ r. q ∷ r) (begin-asked l)

  begin-holds : (l : List (Question F)) → sum_by holds (map (new_task cfg.validation_retries) l) ≡ 0
  begin-holds [] = refl
  begin-holds (q ∷ l) = omega (arith, begin-holds l)

  pub begin-Kept :
      (free : ℕ) (questions : List (String × Question F))
      → Kept free (values questions) (begin_evaluation cfg free questions)
  begin-Kept free questions = record {
    tracks = begin-tracks (values questions);
    asked = begin-asked (values questions);
    blamed = tt;
    slots = omega (arith, begin-holds (values questions));
  }
