-- ===== src/Service/Progress.antt =====
-- How far the tasks of `evaluate` in service.py are from their end.
use vllm_verifier.Base.{
  ℕ, zero, suc, ◌+◌, ◌*◌, ◌≤◌, ◌<◌, ◌≡◌, refl, String, true, Option, none, some, List, [], ◌∷◌,
  ◌++◌, map, get_elem?, modify, sum_by, All, sum_by-modify, arith, lt→ltb,
}
use vllm_verifier.Errors.{Exception, Result, ok, err, invalid_output}
use vllm_verifier.Models.{Answer, Content, Usage, add_usage, Completion}
use vllm_verifier.Floats.{Floats}
use vllm_verifier.Verification.{JsonReader}
use vllm_verifier.Prompts.{JsonWriter, Message, decision_messages}
use vllm_verifier.Service.{accept}
use vllm_verifier.Service.Tasks.{
  ServiceSettings, TaskPhase, waiting, asking, cancelled, done, Task, Evaluation, acquire, reply,
  is_waiting, is_asking, retry, judged, cancel_phase, cancel_task, notice, answered, replied,
  acquire_slot, take_reply, step,
}

module _ {F : Type 0} where
  -- A bound on the events that a task still takes.
  abbrev pub to_go : TaskPhase F → ℕ → ℕ
  to_go waiting left = 2 * left + 2
  to_go asking left = 2 * left + 1
  to_go _ left = 0

  abbrev pub task_to_go : Task F → ℕ
  task_to_go t = to_go t.phase t.left

  abbrev pub all_to_go : Evaluation F → ℕ
  all_to_go e = sum_by task_to_go e.tasks

  to_go-waiting : (p : TaskPhase F) (n : ℕ) → is_waiting p ≡ true → to_go p n ≡ 2 * n + 2
  to_go-waiting waiting n h = refl
  to_go-waiting asking n h = cc
  to_go-waiting cancelled n h = cc
  to_go-waiting (done r) n h = cc

  to_go-asking : (p : TaskPhase F) (n : ℕ) → is_asking p ≡ true → to_go p n ≡ 2 * n + 1
  to_go-asking asking n h = refl
  to_go-asking waiting n h = cc
  to_go-asking cancelled n h = cc
  to_go-asking (done r) n h = cc

  cancel_to_go : (tasks : List (Task F)) → sum_by task_to_go (map cancel_task tasks) ≡ 0
  cancel_to_go [] = refl
  cancel_to_go (t ∷ tasks) = omega (arith, none_left t.phase t.left, cancel_to_go tasks)
    where
      none_left : (p : TaskPhase F) (n : ℕ) → to_go (cancel_phase p) n ≡ 0
      none_left waiting n = refl
      none_left asking n = refl
      none_left cancelled n = refl
      none_left (done r) n = refl

  -- A task that is neither cancelled nor failed.
  abbrev pub IsOpen : TaskPhase F → Type 0
  IsOpen cancelled = ⊥
  IsOpen (done (err x)) = ⊥
  IsOpen _ = Unit

  -- Unless `gather` has failed, all tasks are open.
  abbrev pub AllOpen : Option Exception → List (Task F) → Type 0
  AllOpen none tasks = All (λ (t : Task F). IsOpen t.phase) tasks
  AllOpen (some x) tasks = Unit

module _ (fl : Floats) (reader : JsonReader fl.F) (writer : JsonWriter fl.F) (cfg : ServiceSettings)
    (state : Content fl.F) where
  open fl use {F}

  -- What a reply makes of a task: it is nearer to its end, and it is not cancelled.
  pub record Advanced (t u : Task F) : Type 0 where
    pub nearer : task_to_go u ≤ 2 * t.left
    pub runs : u.phase ≡ cancelled → ⊥

  retry-Advanced :
      (t : Task F) (n : ℕ) (message : String) (used : Usage)
      → t.left ≡ n
      → Advanced t (retry t n message used)
  retry-Advanced t zero message used h = record { nearer = omega arith; runs = λ e. cc }
  retry-Advanced t (suc n) message used h = record { nearer = omega (arith, h); runs = λ e. cc }

  judged-Advanced :
      (t : Task F) (used : Usage) (r : Result (Answer F)) → Advanced t (judged t used r)
  judged-Advanced t used (ok a) = record { nearer = omega arith; runs = λ e. cc }
  judged-Advanced t used (err (invalid_output m)) = retry-Advanced t t.left m used refl
  judged-Advanced t used (err _) = record { nearer = omega arith; runs = λ e. cc }

  answered-Advanced :
      (t : Task F) (r : Result Completion) → Advanced t (answered fl reader writer cfg state t r)
  answered-Advanced t (err x) = record { nearer = omega arith; runs = λ e. cc }
  answered-Advanced t (ok c) =
      judged-Advanced t (add_usage t.usage c.usage) (accept fl reader writer c t.question)

  pub replied-Advanced :
      (respond : List Message → Result Completion) (t : Task F)
      → Advanced t (replied fl reader writer cfg state respond t)
  replied-Advanced respond t =
      let h =
        answered-Advanced (record t { replies = t.replies ++ respond ∷ [] })
          (respond (decision_messages writer state t.question t.correction)) in
      record { nearer = h.nearer; runs = h.runs }

  notice_to_go : (p : TaskPhase F) (e : Evaluation F) → all_to_go (notice p e) ≤ all_to_go e
  notice_to_go waiting e = omega arith
  notice_to_go asking e = omega arith
  notice_to_go cancelled e = omega arith
  notice_to_go (done (ok r)) e = omega arith
  notice_to_go (done (err x)) e = omega (arith, cancel_to_go e.tasks)

  -- A reply to a task that asks, and a free slot for a task that waits, bring the end nearer.
  pub reply_to_go :
      (i : ℕ) (respond : List Message → Result Completion) (t : Task F) (e : Evaluation F)
      → get_elem? e.tasks i ≡ some t
      → is_asking t.phase ≡ true
      → all_to_go (step fl reader writer cfg state (reply i respond) e) < all_to_go e
  unfolding step take_reply
  reply_to_go i respond t e at asks =
      let u = replied fl reader writer cfg state respond t in
      rw (at, asks)
        (omega (
          arith,
          notice_to_go u.phase (record e {
            free = suc e.free;
            tasks = modify (replied fl reader writer cfg state respond) i e.tasks;
          }),
          sum_by-modify (replied fl reader writer cfg state respond) task_to_go i e.tasks at,
          (replied-Advanced respond t).nearer,
          to_go-asking t.phase t.left asks,
        ))

  pub acquire_to_go :
      (i : ℕ) (t : Task F) (e : Evaluation F)
      → get_elem? e.tasks i ≡ some t
      → is_waiting t.phase ≡ true
      → 0 < e.free
      → all_to_go (step fl reader writer cfg state (acquire i) e) < all_to_go e
  unfolding step acquire_slot
  acquire_to_go i t e at waits slot =
      rw (at, waits, lt→ltb 0 e.free slot)
        (omega (
          arith,
          sum_by-modify (λ u. record u { phase = asking }) task_to_go i e.tasks at,
          to_go-waiting t.phase t.left waits,
        ))
