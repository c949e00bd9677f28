-- ===== src/Service/Open.antt =====
-- The tasks of `evaluate` in service.py that have not failed.
use vllm_verifier.Base.{
  ℕ, suc, ◌≡◌, refl, ap, ◌⊎◌, inl, inr, String, true, false, Option, none, some, List, [], ◌∷◌, map,
  get_elem?, modify, sum_by, All, All-modify, arith, if◌then◌else◌, Bool-cases, ◌∙◌,
}
use vllm_verifier.Errors.{Exception, Result, ok, err}
use vllm_verifier.Models.{Question, Answer, Usage, SystemOneResponse}
use vllm_verifier.Service.Tasks.{
  ServiceSettings, TaskPhase, waiting, asking, cancelled, done, Task, Evaluation, is_waiting,
  is_asking, holds, notice, new_task, collected, results, gathered, outcome, behind_check,
}
use vllm_verifier.Service.Progress.{IsOpen, AllOpen}

module _ {F : Type 0} where
  -- A task with a slot, or a task that waits, if there is one.
  pub next_asking :
      (tasks : List (Task F))
      → ((i : ℕ) × (t : Task F) × (get_elem? tasks i ≡ some t) × (is_asking t.phase ≡ true))
        ⊎ (sum_by holds tasks ≡ 0)
  next_asking [] = inr refl
  next_asking (t ∷ tasks) = elim (Bool-cases (is_asking t.phase)) [
    | inl asks ↦ inl (0, t, refl, asks)
    | inr other ↦ elim (next_asking tasks) [
      | inl (i, u, at, asks) ↦ inl (suc i, u, at, asks)
      | inr free ↦ inr (rw (other, free) refl)
    ]
  ]

  pub next_waiting :
      (tasks : List (Task F))
      → ((i : ℕ) × (t : Task F) × (get_elem? tasks i ≡ some t) × (is_waiting t.phase ≡ true))
        ⊎ All (λ (t : Task F). is_waiting t.phase ≡ false) tasks
  next_waiting [] = inr tt
  next_waiting (t ∷ tasks) = elim (Bool-cases (is_waiting t.phase)) [
    | inl waits ↦ inl (0, t, refl, waits)
    | inr other ↦ elim (next_waiting tasks) [
      | inl (i, u, at, waits) ↦ inl (suc i, u, at, waits)
      | inr idle ↦ inr (other, idle)
    ]
  ]

  -- Open tasks that neither wait nor ask have results.
  collected_open :
      (p : TaskPhase F) (rs : List (Answer F × Usage))
      → IsOpen p
      → is_waiting p ≡ false
      → ◌≡◌ {A = ℕ} (if is_asking p then 1 else 0) 0
      → (all_rs : List (Answer F × Usage)) × (collected p (some rs) ≡ some all_rs)
  collected_open (done (ok r)) rs open_task idle free = (r ∷ rs, refl)
  collected_open (done (err x)) rs open_task idle free = absurd open_task
  collected_open waiting rs open_task idle free = cc
  collected_open asking rs open_task idle free = absurd (omega (arith, free))
  collected_open cancelled rs open_task idle free = absurd open_task

  results_open :
      (tasks : List (Task F))
      → All (λ (t : Task F). IsOpen t.phase) tasks
      → All (λ (t : Task F). is_waiting t.phase ≡ false) tasks
      → sum_by holds tasks ≡ 0
      → (rs : List (Answer F × Usage)) × (results tasks ≡ some rs)
  results_open [] h idle free = ([], refl)
  results_open (t ∷ tasks) h idle free =
      let (rs, more) = results_open tasks h.1 idle.1 (omega (arith, free)) in
      let (all_rs, here) = collected_open t.phase rs h.0 idle.0 (omega (arith, free)) in
      (all_rs, ap (collected t.phase) more ∙ here)

  pub gathered_open :
      (failure : Option Exception) (tasks : List (Task F))
      → AllOpen failure tasks
      → All (λ (t : Task F). is_waiting t.phase ≡ false) tasks
      → sum_by holds tasks ≡ 0
      → (r : Result (List (Answer F × Usage))) × (gathered failure (results tasks) ≡ some r)
  gathered_open (some x) tasks h idle free = (err x, refl)
  gathered_open none tasks h idle free =
      let (rs, e) = results_open tasks h idle free in (ok rs, rw e refl)

  pub modify-AllOpen :
      (f : Task F → Task F) (failure : Option Exception) (i : ℕ) (tasks : List (Task F))
      {t : Task F}
      → get_elem? tasks i ≡ some t
      → IsOpen (f t).phase
      → AllOpen failure tasks
      → AllOpen failure (modify f i tasks)
  modify-AllOpen f (some x) i tasks at good h = tt
  modify-AllOpen f none i tasks at good h =
      All-modify f (λ (t : Task F). IsOpen t.phase) i tasks at (λ before. good) h

  pub notice-AllOpen :
      (p : TaskPhase F) (e : Evaluation F)
      → (p ≡ cancelled → ⊥)
      → (IsOpen p → AllOpen e.failure e.tasks)
      → AllOpen (notice p e).failure (notice p e).tasks
  notice-AllOpen waiting e runs h = h tt
  notice-AllOpen asking e runs h = h tt
  notice-AllOpen cancelled e runs h = absurd (runs refl)
  notice-AllOpen (done (ok r)) e runs h = h tt
  notice-AllOpen (done (err x)) e runs h = tt

  pub ended :
      (cfg : ServiceSettings) (questions : List (String × Question F)) (m : Result (Unit {0}))
      (r : Result (List (Answer F × Usage)))
      → (v : Result (SystemOneResponse F)) × (behind_check m (outcome cfg questions (some r))
          ≡ some v)
  ended cfg questions (err x) r = (err x, refl)
  ended cfg questions (ok passed) r = (_, refl)

  pub begin-IsOpen :
      (retries : ℕ) (l : List (Question F))
      → All (λ (t : Task F). IsOpen t.phase) (map (new_task retries) l)
  begin-IsOpen retries [] = tt
  begin-IsOpen retries (q ∷ l) = (tt, begin-IsOpen retries l)
