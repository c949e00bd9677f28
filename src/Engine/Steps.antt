-- ===== src/Engine/Steps.antt =====
-- What one completion does to the progress of `evaluate`, read off from a successful `absorb`.
use vllm_verifier.Base.{
  ℕ, suc, ◌+◌, ◌≤◌, ◌<◌, ◌≡◌, refl, inl, inr, String, List, [], ◌∷◌, ◌++◌, Option, some, arith,
  Text, modify, insert, leb, Bool-cases,
}
use vllm_verifier.Errors.{Result, ok, err, invalid_output, >>=-eq-ok}
use vllm_verifier.Models.{Question, Answer, Completion, add_usage}
use vllm_verifier.Prompts.{messages}
use vllm_verifier.Engine.{WorkItem, reserved_tokens, DecisionEngine, Progress}
use vllm_verifier.Engine.Evaluate.{
  state_at, new_job, judge, append_repair, repair, absorb, absorb_of,
}

module _ (e : DecisionEngine) where
  open e use {floats, config}
  open floats use {F}

  -- What `_job` guarantees of the job that it returns.
  pub record IsJob (i : ℕ) (k : String) (q : Question F) (a : ℕ) (j : WorkItem F) : Type 0 where
    pub request_index : j.request_index ≡ i
    pub question_id : j.question_id ≡ k
    pub question : j.question ≡ q
    pub attempt : j.attempt ≡ a
    pub fits_model : reserved_tokens j ≤ config.max_model_len
    pub fits_batch : reserved_tokens j ≤ config.max_batch_tokens

  pub new_job-IsJob :
      (i : ℕ) (k : String) (s : Text) (q : Question F) (a : ℕ) (c : Option String) {j : WorkItem F}
      → new_job e i k s q a c ≡ ok j
      → IsJob i k q a j
  unfolding new_job
  new_job-IsJob i k s q a c h =
      let (tokens, _, rest) = >>=-eq-ok (e.runtime.encode (messages e.writer s q c)) _ h in
      ground arith

  -- The two ways in which a completion is taken in.
  pub data Absorbed (job : WorkItem F) (c : Completion) (p q : Progress F) : Type 0 where
    answered :
        (a : Answer F)
        → judge e job c ≡ ok a
        → q ≡ record p {
          usage = modify (λ u. add_usage u c.usage) job.request_index p.usage;
          answers = modify (insert job.question_id a) job.request_index p.answers;
        }
        → Absorbed job c p q
    repaired :
        (m : String) (next : WorkItem F)
        → judge e job c ≡ err (invalid_output m)
        → job.attempt < config.validation_retries
        → IsJob job.request_index job.question_id job.question (suc job.attempt) next
        → q ≡ record p {
          pending = p.pending ++ (next ∷ []);
          usage = modify (λ u. add_usage u c.usage) job.request_index p.usage;
          stats = record p.stats { repair_questions = p.stats.repair_questions + 1 };
        }
        → Absorbed job c p q

  append_repair-eq-ok :
      (states : List Text) (job : WorkItem F) (m : String) (p : Progress F) {q : Progress F}
      → append_repair e states job m p ≡ ok q
      → (next : WorkItem F) × IsJob job.request_index job.question_id job.question
          (suc job.attempt)
          next
        × (q ≡ record p {
          pending = p.pending ++ (next ∷ []);
          stats = record p.stats { repair_questions = p.stats.repair_questions + 1 };
        })
  unfolding append_repair
  append_repair-eq-ok states job m p h =
      let (state, _, rest) = >>=-eq-ok (state_at e states job.request_index) _ h in
      let (next, made, last) =
        >>=-eq-ok
          (new_job e job.request_index job.question_id state job.question (suc job.attempt)
            (some m))
          _ rest in
      (next, new_job-IsJob _ _ state _ _ (some m) made, cc)

  absorb_of-Absorbed :
      (states : List Text) (job : WorkItem F) (c : Completion) (p : Progress F) {q : Progress F}
      (r : Result (Answer F))
      → judge e job c ≡ r
      → absorb_of e states job c p r ≡ ok q
      → Absorbed job c p q
  unfolding absorb_of repair
  absorb_of-Absorbed states job c p (ok a) j h = answered a j (cc)
  absorb_of-Absorbed states job c p {q} (err (invalid_output m)) j h =
      elim (Bool-cases (leb config.validation_retries job.attempt)) [
        | inl over ↦ absurd (ground arith)
        | inr left ↦
            let charged : Progress F = record p {
              usage = modify (λ u. add_usage u c.usage) job.request_index p.usage;
            } in
            let again : append_repair e states job m charged ≡ ok q = ground arith in
            let (next, made, last) = append_repair-eq-ok states job m charged again in
            repaired m next j (ground arith) made last
      ]
  absorb_of-Absorbed states job c p (err _) j h = cc

  pub absorb-Absorbed :
      (states : List Text) (job : WorkItem F) (c : Completion) (p : Progress F) {q : Progress F}
      → absorb e states job c p ≡ ok q
      → Absorbed job c p q
  unfolding absorb
  absorb-Absorbed states job c p h = absorb_of-Absorbed states job c p (judge e job c) refl h
