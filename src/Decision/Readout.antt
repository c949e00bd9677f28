-- ===== src/Decision/Readout.antt =====
-- decision/readout.py: the typed answer made from candidate-head probabilities.
use vllm_verifier.Base.{
  ℕ, ◌≡◌, true, false, ◌||◌, not, none, some, List, arith, length, all, get_elem?, ◌==◌,
}
use vllm_verifier.Errors.{
  Result, ok, err, ◌>>=◌, ◌>>◌, raise_if, value_error, index_error, >>=-eq-ok, raise_if-eq-ok,
}
use vllm_verifier.Models.{Question, choice, score, noul, Answer}
use vllm_verifier.Floats.{Floats, FloatLaws, in_unit}
use vllm_verifier.Answers.{max_of, new_noul, answer_choice, answer_score}
use vllm_verifier.Answers.Fits.{Fits, answer_choice-Fits, answer_score-Fits, new_noul-Fits}

module _ (fl : Floats) where
  open fl use {F, f_one, f_2e_5, ltb, abs, sub, fsum}

  -- `size`
  abbrev pub size_of : Question F → ℕ
  size_of (noul q) = 2
  size_of (choice q) = length q.criteria
  size_of (score q) = length q.criteria

  -- `probabilities[i]`
  abbrev pub number_at : List F → ℕ → Result F
  number_at ps i = elim (get_elem? ps i) [ none ↦ err index_error | some p ↦ ok p ]

  -- The answer of each type, behind the two tests.
  unfoldable pub answer_of : Question F → List F → Result (Answer F)
  answer_of (noul q) ps = do p ← number_at ps 1; new_noul fl p
  answer_of (choice q) ps = do confidence ← max_of fl ps; answer_choice fl q ps confidence
  answer_of (score q) ps = do confidence ← max_of fl ps; answer_score fl q ps confidence

  unfoldable pub candidate_answer : Question F → List F → Result (Answer F)
  candidate_answer q ps = do
    raise_if (not (length ps == size_of q) || not (all (in_unit fl) ps))
        (value_error "Invalid candidate probability vector")
    raise_if (ltb f_2e_5 (abs (sub (fsum ps) f_one)))
        (value_error "Candidate probabilities do not sum to one")
    answer_of q ps

  answer_of-Fits :
      FloatLaws fl
      → (q : Question F) (ps : List F) {a : Answer F} → length ps ≡ size_of q
      → answer_of q ps ≡ ok a
      → Fits fl q a
  unfolding answer_of
  answer_of-Fits laws (noul q) ps n e =
      let (p, _, last) = >>=-eq-ok (number_at ps 1) _ e in new_noul-Fits fl q p last
  answer_of-Fits laws (choice q) ps n e =
      let (k, _, last) = >>=-eq-ok (max_of fl ps) _ e in answer_choice-Fits fl laws q ps k last
  answer_of-Fits laws (score q) ps n e =
      let (k, _, last) = >>=-eq-ok (max_of fl ps) _ e in answer_score-Fits fl q ps k n last

  -- Given the laws of floating point, an answer made from candidate probabilities fits its
  -- question, and the probabilities that it is made from are one number in [0, 1] per candidate,
  -- with a sum within 2e-5 of one.
  pub candidate_answer-Fits :
      FloatLaws fl
      → (q : Question F) (ps : List F) (a : Answer F) → candidate_answer q ps ≡ ok a
      → Fits fl q a
        × (length ps ≡ size_of q)
        × (all (in_unit fl) ps ≡ true)
        × (ltb f_2e_5 (abs (sub (fsum ps) f_one)) ≡ false)
  unfolding candidate_answer
  candidate_answer-Fits laws q ps a h =
      let (u, good, h₁) =
        >>=-eq-ok (raise_if (not (length ps == size_of q) || not (all (in_unit fl) ps)) _) _ h in
      let (v, whole, h₂) = >>=-eq-ok (raise_if (ltb f_2e_5 (abs (sub (fsum ps) f_one))) _) _ h₁ in
      let passed = raise_if-eq-ok _ _ good in
      let n : length ps ≡ size_of q = ground (arith, passed) in
      (answer_of-Fits laws q ps n h₂, n, ground (arith, passed), raise_if-eq-ok _ _ whole)
