-- ===== src/Service/Tracks.antt =====
-- Lemmas on one task of `evaluate` in service.py, and on `decide` for its question.
use vllm_verifier.Base.{
  ℕ, zero, suc, ◌+◌, ◌≡◌, refl, sym, subst, append_assoc, ◌++◌, ap, ap₂, String, true, false, some,
  List, [], ◌∷◌, map, sum_by, All, if◌then◌else◌,
}
use vllm_verifier.Errors.{Result, ok, err, invalid_output}
use vllm_verifier.Models.{Answer, Content, Usage, Completion}
use vllm_verifier.Floats.{Floats}
use vllm_verifier.Verification.{JsonReader}
use vllm_verifier.Prompts.{JsonWriter, Message, decision_messages}
use vllm_verifier.Service.{attempts, attempt, conclude}
use vllm_verifier.Service.Tasks.{
  ServiceSettings, TaskPhase, waiting, asking, cancelled, done, Task, is_waiting, is_asking, holds,
  retry, judged, cancel_phase, cancel_task, answered, replied, scripted, alone,
}

module _ (fl : Floats) (reader : JsonReader fl.F) (writer : JsonWriter fl.F) (cfg : ServiceSettings)
    (state : Content fl.F) where
  open fl use {F}

  -- What the task gives, if it runs on by itself, with whatever replies.
  abbrev pub Onward : ℕ → Task F → Type 0
  Onward rounds t =
      (rest : List (List Message → Result Completion))
      → (attempts fl reader writer (scripted fl reader writer cfg state) rounds state t.question
          t.correction t.usage rest).0
        ≡ alone fl reader writer cfg state (t.question, t.replies ++ rest)

  -- A task is on the way to the result of its question.
  abbrev pub Track : TaskPhase F → Task F → Type 0
  Track waiting t = Onward (suc t.left) t
  Track asking t = Onward (suc t.left) t
  Track cancelled t = Unit
  Track (done r) t =
      (rest : List (List Message → Result Completion))
      → r ≡ alone fl reader writer cfg state (t.question, t.replies ++ rest)

  abbrev pub OnTrack : Task F → Type 0
  OnTrack t = Track t.phase t

  -- The next round of a task.
  abbrev again :
      Task F
      → String
      → Usage
      → List (List Message → Result Completion)
      → Result (Answer F × Usage) × List (List Message → Result Completion)
  again t message u rest =
      attempts fl reader writer (scripted fl reader writer cfg state) t.left state t.question
        (some message) u rest

  retry-OnTrack :
      (t : Task F) (n : ℕ) (message : String) (used : Usage)
      → Onward n (record t { correction = some message; usage = used })
      → OnTrack (retry t n message used)
  unfolding attempts
  retry-OnTrack t zero message used h = h
  retry-OnTrack t (suc n) message used h = h

  judged-OnTrack :
      (t : Task F) (used : Usage) (r : Result (Answer F))
      → ((rest : List (List Message → Result Completion))
          → (conclude fl reader writer (again t) used rest r).0
            ≡ alone fl reader writer cfg state (t.question, t.replies ++ rest))
      → OnTrack (judged t used r)
  unfolding conclude
  judged-OnTrack t used (ok a) h = h
  judged-OnTrack t used (err (invalid_output m)) h = retry-OnTrack t t.left m used h
  judged-OnTrack t used (err _) h = h

  answered-OnTrack :
      (t : Task F) (r : Result Completion)
      → ((rest : List (List Message → Result Completion))
          → (attempt fl reader writer (again t) t.question t.usage rest r).0
            ≡ alone fl reader writer cfg state (t.question, t.replies ++ rest))
      → OnTrack (answered fl reader writer cfg state t r)
  unfolding attempt
  answered-OnTrack t (err x) h = h
  answered-OnTrack t (ok completion) h = judged-OnTrack t _ _ h

  pub replied-OnTrack :
      (respond : List Message → Result Completion) (t : Task F)
      → Onward (suc t.left) t
      → OnTrack (replied fl reader writer cfg state respond t)
  unfolding attempts
  replied-OnTrack respond t h =
      answered-OnTrack (record t { replies = t.replies ++ respond ∷ [] }) _
        λ rest.
          subst
            (λ l.
              (attempt fl reader writer (again t) t.question t.usage rest
                (respond (decision_messages writer state t.question t.correction))).0
              ≡ alone fl reader writer cfg state (t.question, l))
            (sym (append_assoc t.replies (respond ∷ []) rest)) (h (respond ∷ rest))

  question-retry :
      (t : Task F) (n : ℕ) (message : String) (used : Usage)
      → (retry t n message used).question ≡ t.question
  question-retry t zero message used = refl
  question-retry t (suc n) message used = refl

  pub question-replied :
      (respond : List Message → Result Completion) (t : Task F)
      → (replied fl reader writer cfg state respond t).question ≡ t.question
  question-replied respond t =
      by_reply (record t { replies = t.replies ++ respond ∷ [] })
        (respond (decision_messages writer state t.question t.correction))
    where
      by_judgement :
          (u : Task F) (used : Usage) (r : Result (Answer F))
          → (judged u used r).question ≡ u.question
      by_judgement u used (ok a) = refl
      by_judgement u used (err (invalid_output m)) = question-retry u u.left m used
      by_judgement u used (err _) = refl

      by_reply :
          (u : Task F) (r : Result Completion)
          → (answered fl reader writer cfg state u r).question ≡ u.question
      by_reply u (err x) = refl
      by_reply u (ok c) = by_judgement u _ _

  -- A task that was answered holds no slot.
  holds-retry :
      (t : Task F) (n : ℕ) (message : String) (used : Usage) → holds (retry t n message used) ≡ 0
  holds-retry t zero message used = refl
  holds-retry t (suc n) message used = refl

  pub holds-replied :
      (respond : List Message → Result Completion) (t : Task F)
      → holds (replied fl reader writer cfg state respond t) ≡ 0
  holds-replied respond t =
      by_reply (record t { replies = t.replies ++ respond ∷ [] })
        (respond (decision_messages writer state t.question t.correction))
    where
      by_judgement :
          (u : Task F) (used : Usage) (r : Result (Answer F)) → holds (judged u used r) ≡ 0
      by_judgement u used (ok a) = refl
      by_judgement u used (err (invalid_output m)) = holds-retry u u.left m used
      by_judgement u used (err _) = refl

      by_reply :
          (u : Task F) (r : Result Completion) → holds (answered fl reader writer cfg state u r) ≡ 0
      by_reply u (err x) = refl
      by_reply u (ok c) = by_judgement u _ _

  pub waiting-Onward :
      (p : TaskPhase F) (t : Task F) → is_waiting p ≡ true → Track p t → Onward (suc t.left) t
  waiting-Onward waiting t e h = h
  waiting-Onward asking t e h = cc
  waiting-Onward cancelled t e h = cc
  waiting-Onward (done r) t e h = cc

  pub asking-Onward :
      (p : TaskPhase F) (t : Task F) → is_asking p ≡ true → Track p t → Onward (suc t.left) t
  asking-Onward waiting t e h = cc
  asking-Onward asking t e h = h
  asking-Onward cancelled t e h = cc
  asking-Onward (done r) t e h = cc

  pub not_asking : (p : TaskPhase F) → is_waiting p ≡ true → is_asking p ≡ false
  not_asking waiting e = refl
  not_asking asking e = cc
  not_asking cancelled e = cc
  not_asking (done r) e = cc

  cancel_phase-Track :
      (p : TaskPhase F) (t : Task F) → Track p t → Track (cancel_phase p) (cancel_task t)
  cancel_phase-Track waiting t h = tt
  cancel_phase-Track asking t h = tt
  cancel_phase-Track cancelled t h = tt
  cancel_phase-Track (done r) t h = h

  pub cancel_keeps :
      (tasks : List (Task F)) → All OnTrack tasks → All OnTrack (map cancel_task tasks)
  cancel_keeps [] h = tt
  cancel_keeps (t ∷ tasks) h = (cancel_phase-Track t.phase t h.0, cancel_keeps tasks h.1)

  pub cancel_questions :
      (tasks : List (Task F))
      → map (λ (t : Task F). t.question) (map cancel_task tasks)
        ≡ map (λ (t : Task F). t.question) tasks
  cancel_questions [] = refl
  cancel_questions (t ∷ tasks) = ap (λ l. t.question ∷ l) (cancel_questions tasks)

  pub cancel_holds : (tasks : List (Task F)) → sum_by holds (map cancel_task tasks) ≡ 0
  cancel_holds [] = refl
  cancel_holds (t ∷ tasks) = ap₂ (λ a b. a + b) (free_phase t.phase) (cancel_holds tasks)
    where
      free_phase : (p : TaskPhase F) → ◌≡◌ {A = ℕ} (if is_asking (cancel_phase p) then 1 else 0) 0
      free_phase waiting = refl
      free_phase asking = refl
      free_phase cancelled = refl
      free_phase (done r) = refl
