-- ===== src/Service/Alone.antt =====
-- One question of `evaluate` in service.py, asked by itself, and the replies of its task.
use vllm_verifier.Base.{
  ℕ, zero, suc, ◌≡◌, refl, sym, subst, String, ◌&&◌, Option, some, none, List, [], ◌∷◌, ◌++◌, map,
  get_elem?, ltb, All, All-append, All-modify, if-split,
}
use vllm_verifier.Errors.{Result, ok, err, invalid_output, service_error}
use vllm_verifier.Models.{Question, Answer, Content, Usage, no_usage, add_usage, Completion}
use vllm_verifier.Floats.{Floats, FloatLaws}
use vllm_verifier.Verification.{JsonReader}
use vllm_verifier.Verification.Rejects.{OnlyInvalid}
use vllm_verifier.Verification.Builds.{SumsAreFinite, HasCriteria}
use vllm_verifier.Answers.Fits.{Fits}
use vllm_verifier.Prompts.{JsonWriter, Message, decision_messages}
use vllm_verifier.Backend.Protocol.{OnlyService}
use vllm_verifier.Service.{accept, conclude, attempt, attempts, decide}
use vllm_verifier.Service.Decide.{accept-OnlyInvalid, accept-Fits}
use vllm_verifier.Service.Tasks.{
  ServiceSettings, TaskPhase, waiting, asking, cancelled, done, Task, Evaluation, TaskEvent,
  acquire, reply, is_waiting, is_asking, retry, judged, cancel_task, notice, new_task, answered,
  replied, acquire_slot, take_reply, step, run_tasks, scripted, alone,
}

-- A backend that raises nothing but `ServiceError`.
abbrev pub Serves : (List Message → Result Completion) → Type 0
Serves respond = (ms : List Message) → OnlyService (respond ms)

abbrev pub EventServes : TaskEvent → Type 0
EventServes (acquire i) = Unit
EventServes (reply i respond) = Serves respond

module _ (fl : Floats) (reader : JsonReader fl.F) (writer : JsonWriter fl.F) (cfg : ServiceSettings)
    (state : Content fl.F) where
  open fl use {F}

  -- An answer that fits the question, or a `ServiceError`.
  abbrev pub Sound : Question F → Result (Answer F × Usage) → Type 0
  Sound q (ok (a, u)) = Fits fl q a
  Sound q (err x) = OnlyService {A = Unit {0}} (err x)

  module _ (laws : FloatLaws fl) (sums : SumsAreFinite fl reader) (q : Question F)
      (has : HasCriteria fl reader q) where
    module _
        (again : String
          → Usage
          → List (List Message → Result Completion)
          → Result (Answer F × Usage) × List (List Message → Result Completion))
        (rest : List (List Message → Result Completion))
        (next : (m : String) (u : Usage) → Sound q (again m u rest).0) where
      conclude-Sound :
          (u : Usage) (r : Result (Answer F))
          → OnlyInvalid r
          → ((a : Answer F) → r ≡ ok a → Fits fl q a)
          → Sound q (conclude fl reader writer again u rest r).0
      unfolding conclude
      conclude-Sound u (ok a) only fits = fits a refl
      conclude-Sound u (err (invalid_output m)) only fits = next m u
      conclude-Sound u (err _) only fits = absurd only

      attempt-Sound :
          (u : Usage) (reply : Result Completion)
          → OnlyService reply
          → Sound q (attempt fl reader writer again q u rest reply).0
      unfolding attempt
      attempt-Sound u (err (service_error x)) only = tt
      attempt-Sound u (err _) only = absurd only
      attempt-Sound u (ok completion) only =
          let b = scripted fl reader writer cfg state in
          conclude-Sound (add_usage u completion.usage) (accept fl reader writer completion q)
            (accept-OnlyInvalid fl reader writer b laws sums q has 0 completion)
            λ a h. accept-Fits fl reader writer b laws sums q has 0 completion h

    attempts-Sound :
        (n : ℕ) (correction : Option String) (u : Usage)
        (replies : List (List Message → Result Completion))
        → All Serves replies
        → Sound q
            (attempts fl reader writer
              (scripted fl reader writer cfg state)
              n
              state
              q
              correction
              u
              replies).0
    unfolding attempts
    attempts-Sound zero correction u replies serve = tt
    attempts-Sound (suc n) correction u [] serve =
        attempt-Sound _ [] (λ m v. attempts-Sound n (some m) v [] tt) u _ tt
    attempts-Sound (suc n) correction u (respond ∷ replies) serve =
        attempt-Sound _ replies (λ m v. attempts-Sound n (some m) v replies serve.1) u _
          (serve.0 (decision_messages writer state q correction))

  pub alone-Sound :
      FloatLaws fl
      → SumsAreFinite fl reader
      → (q : Question F) → HasCriteria fl reader q
      → (replies : List (List Message → Result Completion)) → All Serves replies
      → Sound q (alone fl reader writer cfg state (q, replies))
  unfolding decide
  alone-Sound laws sums q has replies serve =
      attempts-Sound laws sums q has (suc cfg.validation_retries) none no_usage replies serve

  abbrev pub RepliesServe : Task F → Type 0
  RepliesServe t = All Serves t.replies

  replies-answered :
      (t : Task F) (r : Result Completion)
      → (answered fl reader writer cfg state t r).replies ≡ t.replies
  replies-answered t (err x) = refl
  replies-answered t (ok c) = by_judgement _ _
    where
      by_round : (n : ℕ) (m : String) (u : Usage) → (retry t n m u).replies ≡ t.replies
      by_round zero m u = refl
      by_round (suc n) m u = refl

      by_judgement : (u : Usage) (r : Result (Answer F)) → (judged t u r).replies ≡ t.replies
      by_judgement u (ok a) = refl
      by_judgement u (err (invalid_output m)) = by_round t.left m u
      by_judgement u (err _) = refl

  replied-RepliesServe :
      (respond : List Message → Result Completion) (t : Task F)
      → Serves respond
      → RepliesServe t
      → RepliesServe (replied fl reader writer cfg state respond t)
  replied-RepliesServe respond t serves h =
      subst (All Serves)
        (sym (replies-answered (record t { replies = t.replies ++ respond ∷ [] }) _))
        (All-append Serves t.replies (respond ∷ []) h (serves, tt))

  cancel-RepliesServe :
      (tasks : List (Task F)) → All RepliesServe tasks → All RepliesServe (map cancel_task tasks)
  cancel-RepliesServe [] h = tt
  cancel-RepliesServe (t ∷ tasks) h = (h.0, cancel-RepliesServe tasks h.1)

  notice-RepliesServe :
      (p : TaskPhase F) (e : Evaluation F)
      → All RepliesServe e.tasks
      → All RepliesServe (notice p e).tasks
  notice-RepliesServe (done (err x)) e h = cancel-RepliesServe e.tasks h
  notice-RepliesServe (done (ok r)) e h = h
  notice-RepliesServe waiting e h = h
  notice-RepliesServe asking e h = h
  notice-RepliesServe cancelled e h = h

  step-RepliesServe :
      (event : TaskEvent) (e : Evaluation F)
      → EventServes event
      → All RepliesServe e.tasks
      → All RepliesServe (step fl reader writer cfg state event e).tasks
  unfolding step acquire_slot take_reply
  step-RepliesServe (acquire i) e serves h = by_task (get_elem? e.tasks i) refl
    where
      by_task :
          (o : Option (Task F))
          → get_elem? e.tasks i ≡ o
          → All RepliesServe (acquire_slot fl reader writer cfg state i o e).tasks
      by_task none at = h
      by_task (some t) at =
          if-split (λ (d : Evaluation F). All RepliesServe d.tasks)
            (is_waiting t.phase && ltb 0 e.free) _ e
            (All-modify (λ u. record u { phase = asking }) RepliesServe i e.tasks at (λ k. k) h) h
  step-RepliesServe (reply i respond) e serves h = by_task (get_elem? e.tasks i) refl
    where
      by_task :
          (o : Option (Task F))
          → get_elem? e.tasks i ≡ o
          → All RepliesServe (take_reply fl reader writer cfg state i respond o e).tasks
      by_task none at = h
      by_task (some t) at =
          if-split (λ (d : Evaluation F). All RepliesServe d.tasks) (is_asking t.phase) _ e
            (notice-RepliesServe (replied fl reader writer cfg state respond t).phase _ (
              All-modify (replied fl reader writer cfg state respond) RepliesServe i e.tasks at
                (replied-RepliesServe respond t serves) h))
            h

  pub run_tasks-RepliesServe :
      (events : List TaskEvent) (e : Evaluation F)
      → All EventServes events
      → All RepliesServe e.tasks
      → All RepliesServe (run_tasks fl reader writer cfg state events e).tasks
  unfolding run_tasks
  run_tasks-RepliesServe [] e serves h = h
  run_tasks-RepliesServe (event ∷ events) e serves h =
      run_tasks-RepliesServe events _ serves.1 (step-RepliesServe event e serves.0 h)

  pub begin-RepliesServe :
      (l : List (Question F)) → All RepliesServe (map (new_task cfg.validation_retries) l)
  begin-RepliesServe [] = tt
  begin-RepliesServe (q ∷ l) = (tt, begin-RepliesServe l)
