-- ===== src/Engine/Coverage.antt =====
-- No question is lost: while a run goes on, it is answered or waits.
use native.Mathlib.Decide.{ℕ_discrete}
use vllm_verifier.Base.{
  ℕ, ◌<◌, ◌≡◌, ◌∙◌, Any, Any-append_left, Any-append_right, ◌⊎◌, subst, sym, inl, inr, List, [],
  ◌∷◌, ◌++◌, append_assoc, some, String, arith, Text, length, length-modify, modify, insert, lookup,
  lookup-insert, get_elem?, get_elem?-modify_self, get_elem?-modify_ne, get_elem?_of_lt,
  lt_of_get_elem?, str_eq, str_eq_iff, if◌then◌else◌,
}
use vllm_verifier.Errors.{ok, >>=-eq-ok, ok-injective}
use vllm_verifier.Models.{Question, Answer, Completion, SystemOneRequest}
use vllm_verifier.Engine.{WorkItem, DecisionEngine, Progress, take_batch}
use vllm_verifier.Engine.Batches.{take_batch-append}
use vllm_verifier.Engine.Steps.{Absorbed, answered, repaired, absorb-Absorbed}
use vllm_verifier.Engine.Accounting.{settle-eq-ok}
use vllm_verifier.Engine.Isolation.{Asked}
use vllm_verifier.Engine.Evaluate.{absorb, absorb_all, count_batch, round}

module _ (e : DecisionEngine) where
  open e use {floats, config}
  open floats use {F}

  -- Request `i` has an answer under the key `k`.
  pub record Has (answers : List (List (String × Answer F))) (i : ℕ) (k : String) : Type 0 where
    pub found : List (String × Answer F)
    pub answer : Answer F
    pub of_request : get_elem? answers i ≡ some found
    pub of_key : lookup k found ≡ some answer

  -- A job for the key `k` of request `i`.
  abbrev pub IsFor : ℕ → String → WorkItem F → Type 0
  IsFor i k j = (j.request_index ≡ i) × (j.question_id ≡ k)

  abbrev pub Waits : List (WorkItem F) → ℕ → String → Type 0
  Waits jobs i k = Any (IsFor i k) jobs

  -- An insertion loses no answer.
  Has-insert :
      (answers : List (List (String × Answer F))) (i j : ℕ) (k l : String) (a : Answer F)
      → Has answers i k
      → Has (modify (insert l a) j answers) i k
  Has-insert answers i j k l a h = elim (ℕ_discrete j i) [
    | no other ↦ record {
      found = h.found;
      answer = h.answer;
      of_request = get_elem?-modify_ne (insert l a) j i answers other ∙ h.of_request;
      of_key = h.of_key;
    }
    | yes same ↦ record {
      found = insert l a h.found;
      answer = if str_eq l k then a else h.answer;
      of_request = rw same (get_elem?-modify_self (insert l a) i answers h.of_request);
      of_key = lookup-insert l k a h.found ∙ ground (arith, h.of_key);
    }
  ]

  answered_now :
      (answers : List (List (String × Answer F))) (i : ℕ) (k : String) (a : Answer F)
      → i < length answers
      → Has (modify (insert k a) i answers) i k
  answered_now answers i k a h =
      let (d, at) = get_elem?_of_lt answers i h in
      record {
        found = insert k a d;
        answer = a;
        of_request = get_elem?-modify_self (insert k a) i answers at;
        of_key = lookup-insert k k a d ∙ ground (arith, str_eq_iff k k);
      }

module _ (e : DecisionEngine) (requests : List (SystemOneRequest e.floats.F)) where
  open e use {floats, config}
  open floats use {F}

  -- With `jobs` of the batch still to be taken in, every question is answered or waits.
  pub record IsCovered (jobs : List (WorkItem F)) (p : Progress F) : Type 0 where
    pub covered :
        (i : ℕ) (k : String) (q : Question F)
        → Asked e requests i k q
        → Has e p.answers i k ⊎ Waits e (jobs ++ p.pending) i k
    pub answers_length : length p.answers ≡ length requests
    pub usage_length : length p.usage ≡ length requests

  Absorbed-IsCovered :
      {job : WorkItem F} {c : Completion} {p q : Progress F} (jobs : List (WorkItem F))
      → Absorbed e job c p q
      → IsCovered (job ∷ jobs) p
      → IsCovered jobs q
  Absorbed-IsCovered {job} {c} {p} jobs (answered a j eq) h =
      subst (IsCovered jobs) (sym eq) (record {
        covered = λ i k q asked. elim (h.covered i k q asked) [
          | inl had ↦ inl (Has-insert e p.answers i job.request_index k job.question_id a had)
          | inr (inl (at, of)) ↦
              let room : job.request_index < length p.answers =
                omega (arith, h.answers_length, lt_of_get_elem? requests i asked.of_request) in
              inl (
                subst
                  (λ n. Has e (modify (insert job.question_id a) job.request_index p.answers) n k)
                  at
                  (subst
                    (Has e (modify (insert job.question_id a) job.request_index p.answers)
                      job.request_index)
                    of (answered_now e p.answers job.request_index job.question_id a room)))
          | inr (inr waits) ↦ inr waits
        ];
        answers_length =
            length-modify (insert job.question_id a) job.request_index p.answers ∙ h.answers_length;
        usage_length = length-modify _ job.request_index p.usage ∙ h.usage_length;
      })
  Absorbed-IsCovered {job} {c} {p} jobs (repaired m next j low made eq) h =
      subst (IsCovered jobs) (sym eq) (record {
        covered = λ i k q asked. elim (h.covered i k q asked) [
          | inl had ↦ inl had
          | inr (inl (at, of)) ↦ inr (
              Any-append_right (IsFor e i k) jobs (p.pending ++ (next ∷ [])) (
                Any-append_right (IsFor e i k) p.pending (next ∷ [])
                  (inl (made.request_index ∙ at, made.question_id ∙ of))))
          | inr (inr waits) ↦ inr (
              subst (λ l. Waits e l i k) (append_assoc jobs p.pending (next ∷ []))
                (Any-append_left (IsFor e i k) (jobs ++ p.pending) (next ∷ []) waits))
        ];
        answers_length = h.answers_length;
        usage_length = length-modify _ job.request_index p.usage ∙ h.usage_length;
      })

  absorb_all-IsCovered :
      (states : List Text) (jobs : List (WorkItem F)) (cs : List Completion) (p : Progress F)
      {q : Progress F}
      → length cs ≡ length jobs
      → IsCovered jobs p
      → absorb_all e states jobs cs p ≡ ok q
      → IsCovered [] q
  unfolding absorb_all
  absorb_all-IsCovered states [] cs p n h eq = subst (IsCovered []) (ok-injective eq) h
  absorb_all-IsCovered states (j ∷ jobs) [] p n h eq = absurd (omega arith)
  absorb_all-IsCovered states (j ∷ jobs) (c ∷ cs) p n h eq =
      let (next, one, rest) = >>=-eq-ok (absorb e states j c p) _ eq in
      absorb_all-IsCovered states jobs cs next (omega arith)
        (Absorbed-IsCovered jobs (absorb-Absorbed e states j c p one) h) rest

  pub round-IsCovered :
      (states : List Text) (s : e.runtime.State) (p : Progress F) (j : WorkItem F)
      (js : List (WorkItem F)) (q : Progress F)
      → IsCovered [] p
      → p.pending ≡ j ∷ js
      → (round e states s p).0 ≡ ok q
      → IsCovered [] q
  unfolding round
  round-IsCovered states s p j js q h eq ran =
      let (batch, rest) = take_batch config 0 0 p.pending in
      let cut : Progress F = record p { pending = rest } in
      let (cs, same, did) = settle-eq-ok e states batch _ cut ran in
      absorb_all-IsCovered states batch cs (count_batch e (length batch) cut) same
        (record {
          covered = λ i k q asked. elim (h.covered i k q asked) [
            | inl had ↦ inl had
            | inr waits ↦
                inr
                  (subst (λ l. Waits e l i k) (sym (take_batch-append config 0 0 p.pending)) waits)
          ];
          answers_length = h.answers_length;
          usage_length = h.usage_length;
        })
        did
