-- ===== src/Answers/Fits.antt =====
-- What a typed answer says about its question.
use vllm_verifier.Base.{
  ℕ, zero, suc, ◌≡◌, refl, sym, subst, ap, inl, inr, true, ◌&&◌, &&_true, List, [], ◌∷◌, String,
  some, arith, length, all, zip, keys, values, get_elem?, Bool-cases, ◌==◌,
}
use vllm_verifier.Errors.{ok, >>=-eq-ok, ok-injective}
use vllm_verifier.Models.{
  Choice, Score, Noul, Question, choice, score, noul, Answer, choice_answer, score_answer,
  noul_answer,
}
use vllm_verifier.Floats.{Floats, in_unit, FloatLaws}
use vllm_verifier.Answers.{
  decimal, numbered, zip_strict, weighted, argmax, item, new_choice, new_noul, answer_choice,
  answer_score,
}
use vllm_verifier.Answers.Argmax.{IsFirstMax, AreFinite, argmax-IsFirstMax}

module _ (fl : Floats) where
  open fl use {F, ltb, is_finite, fsum}

  -- The answer has the type of the question; its probabilities lie in the unit interval and are
  -- those of the criteria, in their order; the choice is the first criterion of the largest
  -- probability; the legend of a score numbers its criteria.
  abbrev pub Fits : Question F → Answer F → Type 0
  Fits (choice q) (choice_answer a) =
      (keys a.probabilities ≡ keys q.criteria)
      × (all (in_unit fl) (values a.probabilities) ≡ true)
      × (in_unit fl a.confidence ≡ true)
      × ((best : ℕ) × (p : F) × (get_elem? (keys q.criteria) best ≡ some a.choice)
          × IsFirstMax fl (values a.probabilities) best p)
  Fits (score q) (score_answer a) =
      (a.legend ≡ numbered 0 q.criteria)
      × (keys a.probabilities ≡ keys a.legend)
      × (all (in_unit fl) (values a.probabilities) ≡ true)
      × (in_unit fl a.confidence ≡ true)
      × (is_finite a.score ≡ true)
  Fits (noul q) (noul_answer p) = in_unit fl p ≡ true
  Fits _ _ = ⊥

  pub all-AreFinite : (ps : List F) → all (in_unit fl) ps ≡ true → AreFinite fl ps
  all-AreFinite [] h j x at = cc
  all-AreFinite (p ∷ ps) h zero x at =
      let (here, rest) = &&_true (in_unit fl p) (all (in_unit fl) ps) h in
      let same : p ≡ x = cc in subst (λ y. is_finite y ≡ true) same (ground arith)
  all-AreFinite (p ∷ ps) h (suc j) x at =
      let (here, rest) = &&_true (in_unit fl p) (all (in_unit fl) ps) h in
      all-AreFinite ps rest j x at

  pub keys-zip {ℓ} :
      {A : Type ℓ} (ks : List String) (xs : List A)
      → length ks ≡ length xs
      → (keys (zip ks xs) ≡ ks) × (values (zip ks xs) ≡ xs)
  keys-zip [] [] h = (refl, refl)
  keys-zip [] (x ∷ xs) h = absurd (omega arith)
  keys-zip (k ∷ ks) [] h = absurd (omega arith)
  keys-zip (k ∷ ks) (x ∷ xs) h =
      let (a, b) = keys-zip ks xs (omega arith) in (ap (λ l. k ∷ l) a, ap (λ l. x ∷ l) b)

  pub zip_strict-eq-ok :
      (ks : List String) (ps : List F) {d : List (String × F)}
      → zip_strict ks ps ≡ ok d
      → (keys d ≡ ks) × (values d ≡ ps)
  zip_strict-eq-ok ks ps {d} h = elim (Bool-cases (length ks == length ps)) [
    | inl same ↦
        let made : zip ks ps ≡ d = ground arith in
        subst (λ (x : List (String × F)). (keys x ≡ ks) × (values x ≡ ps)) made
          (keys-zip ks ps (ground arith))
    | inr other ↦ absurd (ground arith)
  ]

  new_choice-eq-ok :
      (c : String) (d : List (String × F)) (k : F) {a : Answer F}
      → new_choice fl c d k ≡ ok a
      → (all (in_unit fl) (values d) ≡ true)
        × (in_unit fl k ≡ true)
        × (choice_answer (record { choice = c; probabilities = d; confidence = k }) ≡ a)
  new_choice-eq-ok c d k h = elim (Bool-cases (all (in_unit fl) (values d) && in_unit fl k)) [
    | inl good ↦
        let (ps, conf) = &&_true (all (in_unit fl) (values d)) (in_unit fl k) good in
        (ps, conf, ok-injective (rw good at h))
    | inr bad ↦ absurd (cc (rw bad at h))
  ]

  item-eq-ok :
      (ks : List String) (i : ℕ) {c : String} → item fl ks i ≡ ok c → get_elem? ks i ≡ some c
  item-eq-ok ks i h = ground arith

  keys-numbered :
      {A : Type 0} {B : Type 0} (i : ℕ) (xs : List A) (ys : List B)
      → length xs ≡ length ys
      → keys (numbered i xs) ≡ keys (numbered i ys)
  keys-numbered i [] [] h = refl
  keys-numbered i [] (y ∷ ys) h = absurd (omega arith)
  keys-numbered i (x ∷ xs) [] h = absurd (omega arith)
  keys-numbered i (x ∷ xs) (y ∷ ys) h =
      ap (λ l. decimal i ∷ l) (keys-numbered (suc i) xs ys (omega arith))

  pub new_noul-Fits : (q : Noul F) (p : F) {a : Answer F} → new_noul fl p ≡ ok a → Fits (noul q) a
  new_noul-Fits q p {a} h = elim (Bool-cases (in_unit fl p)) [
    | inl good ↦ subst (Fits (noul q)) (ok-injective (rw good at h)) good
    | inr bad ↦ absurd (cc (rw bad at h))
  ]

  pub answer_score-Fits :
      (q : Score F) (ps : List F) (k : F) {a : Answer F}
      → length ps ≡ length q.criteria
      → answer_score fl q ps k ≡ ok a
      → Fits (score q) a
  unfolding answer_score
  answer_score-Fits q ps k {a} n h =
      elim (Bool-cases (
        is_finite (fsum (weighted fl 0 ps))
        && all (in_unit fl) (values (numbered 0 ps))
        && in_unit fl k)) [
          | inl good ↦
              let (front, conf) =
                &&_true
                  (is_finite (fsum (weighted fl 0 ps)) && all (in_unit fl) (values (numbered 0 ps)))
                  (in_unit fl k) good in
              let (fin, units) =
                &&_true (is_finite (fsum (weighted fl 0 ps)))
                  (all (in_unit fl) (values (numbered 0 ps))) front in
              subst (Fits (score q)) (ok-injective (rw good at h))
                (refl, keys-numbered 0 ps q.criteria n, units, conf, fin)
          | inr bad ↦ absurd (cc (rw bad at h))
        ]

  module _ (laws : FloatLaws fl) where
    choose-Fits :
        (q : Choice F) (ps : List F) (k : F) (d : List (String × F)) (best : ℕ) (c : String)
        {a : Answer F}
        → zip_strict (keys q.criteria) ps ≡ ok d
        → argmax fl ps ≡ ok best
        → item fl (keys q.criteria) best ≡ ok c
        → new_choice fl c d k ≡ ok a
        → Fits (choice q) a
    choose-Fits q ps k d best c {a} zipped found chosen made =
        let (same_keys, same_values) = zip_strict-eq-ok (keys q.criteria) ps zipped in
        let (units, conf, whole) = new_choice-eq-ok c d k made in
        let finite : AreFinite fl ps =
          all-AreFinite ps (subst (λ l. all (in_unit fl) l ≡ true) same_values units) in
        let (p, max) = argmax-IsFirstMax fl laws ps finite found in
        subst (Fits (choice q)) whole (
          same_keys,
          units,
          conf,
          (
            best,
            p,
            item-eq-ok (keys q.criteria) best chosen,
            subst (λ l. IsFirstMax fl l best p) (sym same_values) max,
          ),
        )

    pub answer_choice-Fits :
        (q : Choice F) (ps : List F) (k : F) {a : Answer F}
        → answer_choice fl q ps k ≡ ok a
        → Fits (choice q) a
    unfolding answer_choice
    answer_choice-Fits q ps k {a} h =
        let (d, zipped, h₁) = >>=-eq-ok (zip_strict (keys q.criteria) ps) _ h in
        let (best, found, h₂) = >>=-eq-ok (argmax fl ps) _ h₁ in
        let (c, chosen, h₃) = >>=-eq-ok (item fl (keys q.criteria) best) _ h₂ in
        choose-Fits q ps k d best c zipped found chosen h₃
