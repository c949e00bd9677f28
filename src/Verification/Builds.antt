-- ===== src/Verification/Builds.antt =====
-- From accepted probabilities the answer can always be built, so `verify` raises `InvalidOutput`
-- and nothing else.
use vllm_verifier.Base.{
  ℕ, suc, zero, ◌≡◌, ◌≤◌, ◌<◌, refl, sym, subst, ap, inl, inr, String, Option, some, none, true,
  false, &&_true, List, [], ◌∷◌, arith, length, Text, All, all, values, keys, get_elem?,
  get_elem?_of_lt, lt_of_get_elem?, Bool-cases, ◌==◌, not,
}
use vllm_verifier.Errors.{ok, >>=-eq-ok, traverse, raise_if, raise_if-eq-ok, ok-injective}
use vllm_verifier.Models.{
  pos, negsuc, Json, int, float, Question, choice, score, noul, Choice, Score,
}
use vllm_verifier.Floats.{Floats, FloatLaws, in_unit}
use vllm_verifier.Answers.{
  argmax, item, clamp, weighted, numbered, zip_strict, new_choice, answer_choice, answer_score,
}
use vllm_verifier.Answers.Argmax.{argmax-IsFirstMax}
use vllm_verifier.Answers.Fits.{all-AreFinite, zip_strict-eq-ok}
use vllm_verifier.Verification.Sound.{length-distribution}
use vllm_verifier.Verification.Rejects.{
  OnlyInvalid, OnlyInvalid-bind, OnlyInvalid-strict_json, OnlyInvalid-probability,
  OnlyInvalid-normalised, OnlyInvalid-listed, bad_total-zero, bad_total-near,
}
use vllm_verifier.Verification.{
  JsonReader, only_key, strict_json, probability, bad_total, divide, confidence_of, listed,
  noul_value, normalised, distribution, decide_raw, verify,
}

module _ (fl : Floats) (reader : JsonReader fl.F) where
  open fl use {
    F, f_zero, f_one, f_hundredth, abs, sub, fsum, eqb, ltb, leb, is_finite, quot, log, of_int,
  }

  -- The weighted sum of at most ten probabilities is a number.
  abbrev pub SumsAreFinite : Type 0
  SumsAreFinite =
      (ps : List F)
      → length ps ≤ 10
      → all (in_unit fl) ps ≡ true
      → is_finite (fsum (weighted fl 0 ps)) ≡ true

  -- A question has a criterion, and a score at most ten, as models.py demands.
  abbrev pub HasCriteria : Question F → Type 0
  HasCriteria (choice q) = 1 ≤ length q.criteria
  HasCriteria (score q) = (1 ≤ length q.criteria) × (length q.criteria ≤ 10)
  HasCriteria (noul q) = Unit

  module _ (laws : FloatLaws fl) where
    probability-in_unit :
        (v : Json F) {p : F} → probability fl reader v ≡ ok p → in_unit fl p ≡ true
    unfolding probability
    probability-in_unit (int (pos zero)) h =
        subst (λ p. in_unit fl p ≡ true) (ok-injective h) laws.of_int_zero
    probability-in_unit (int (pos (suc zero))) h =
        subst (λ p. in_unit fl p ≡ true) (ok-injective h) laws.of_int_one
    probability-in_unit (int (pos (suc (suc n)))) h = absurd (ground arith)
    probability-in_unit (float p) h = elim (Bool-cases (in_unit fl p)) [
      | inl good ↦ subst (λ p. in_unit fl p ≡ true) (ok-injective (rw good at h)) good
      | inr bad ↦ absurd (cc (rw bad at h))
    ]
    probability-in_unit (int (negsuc n)) h = cc
    probability-in_unit _ h = cc

    probabilities-in_unit :
        (vs : List (Json F)) {ps : List F}
        → traverse (probability fl reader) vs ≡ ok ps
        → all (in_unit fl) ps ≡ true
    probabilities-in_unit [] h = subst (λ ps. all (in_unit fl) ps ≡ true) (ok-injective h) refl
    probabilities-in_unit (v ∷ vs) h =
        let (p, one, rest) = >>=-eq-ok (probability fl reader v) _ h in
        let (ps, more, last) = >>=-eq-ok (traverse (probability fl reader) vs) _ rest in
        subst (λ ps. all (in_unit fl) ps ≡ true) (ok-injective last)
          (rw (probability-in_unit v one) (probabilities-in_unit vs more))

    shares-in_unit :
        (total : F) (ps : List F) {qs : List F}
        → is_finite total ≡ true
        → ltb f_zero total ≡ true
        → all (in_unit fl) ps ≡ true
        → All (λ p. leb p total ≡ true) ps
        → traverse (divide fl reader total) ps ≡ ok qs
        → all (in_unit fl) qs ≡ true
    shares-in_unit total [] fin positive units below h =
        subst (λ ps. all (in_unit fl) ps ≡ true) (ok-injective h) refl
    shares-in_unit total (p ∷ ps) fin positive units below h =
        let (here, there) = &&_true (in_unit fl p) (all (in_unit fl) ps) units in
        let (q, one, rest) = >>=-eq-ok (divide fl reader total p) _ h in
        let (qs, more, last) = >>=-eq-ok (traverse (divide fl reader total) ps) _ rest in
        let low : leb f_zero p ≡ true = ground arith in
        let share : quot p total ≡ q = quotient total p one in
        subst (λ ps. all (in_unit fl) ps ≡ true) (ok-injective last)
          (rw
            (subst (λ x. in_unit fl x ≡ true) share
              (laws.quot_in_unit p total fin low below.0 positive))
            (shares-in_unit total ps fin positive there below.1 more))
      where
        quotient : (t x : F) {y : F} → divide fl reader t x ≡ ok y → quot x t ≡ y
        quotient t x e = elim (Bool-cases (eqb t f_zero)) [
          | inl zero_total ↦ absurd (cc (rw zero_total at e))
          | inr fine ↦ ok-injective (rw fine at e)
        ]

    normalised-in_unit :
        (size : ℕ) (vs : List (Json F)) {ps : List F}
        → normalised fl reader size vs ≡ ok ps
        → all (in_unit fl) ps ≡ true
    unfolding normalised
    normalised-in_unit size vs h =
        let (u, _, h₁) = >>=-eq-ok (raise_if (not (length vs == size)) _) _ h in
        let (raw, read, h₂) = >>=-eq-ok (traverse (probability fl reader) vs) _ h₁ in
        let (v, good, h₃) = >>=-eq-ok (raise_if (bad_total fl reader (fsum raw)) _) _ h₂ in
        let units = probabilities-in_unit vs read in
        let positive =
          laws.pos_of_nonneg (fsum raw) (laws.fsum_nonneg raw units)
            (bad_total-zero fl reader (fsum raw) (raise_if-eq-ok _ _ good)) in
        let near : ltb f_hundredth (abs (sub (fsum raw) f_one)) ≡ false =
          bad_total-near fl reader (fsum raw) (raise_if-eq-ok _ _ good) in
        let finite = laws.near_one (fsum raw) (laws.fsum_nonneg raw units) near in
        shares-in_unit (fsum raw) raw finite positive units (laws.fsum_ge raw units) h₃

    clamp-in_unit : (x : F) → in_unit fl (clamp fl x) ≡ true
    clamp-in_unit x = elim (Bool-cases (ltb x f_one)) [
      | inl below ↦ elim (Bool-cases (ltb f_zero x)) [
        | inl above ↦ rw (below, above) (laws.between_in_unit x above below)
        | inr low ↦ rw (below, low) laws.zero_in_unit
      ]
      | inr large ↦ elim (Bool-cases (ltb f_zero f_one)) [
        | inl ordered ↦ rw (large, ordered) laws.one_in_unit
        | inr other ↦ rw (large, other) laws.zero_in_unit
      ]
    ]

    OnlyInvalid-confidence_of :
        (ps : List F) (size : ℕ) → 1 ≤ size → OnlyInvalid (confidence_of fl reader ps size)
    unfolding confidence_of
    OnlyInvalid-confidence_of ps size h = elim (Bool-cases (size == 1)) [
      | inl one ↦ rw one tt
      | inr more ↦
          let some_log : eqb (log (of_int (pos size))) f_zero ≡ false =
            laws.log_ne_zero size (ground arith) in
          rw more (rw some_log tt)
    ]

    confidence_of-in_unit :
        (ps : List F) (size : ℕ) {k : F}
        → confidence_of fl reader ps size ≡ ok k
        → in_unit fl k ≡ true
    unfolding confidence_of
    confidence_of-in_unit ps size {k} h = elim (Bool-cases (size == 1)) [
      | inl one ↦ subst (λ x. in_unit fl x ≡ true) (ok-injective (rw one at h)) laws.one_in_unit
      | inr more ↦
          let (ratio, _, last) =
            >>=-eq-ok (divide fl reader (log (of_int (pos size))) _) _ (rw more at h) in
          subst (λ x. in_unit fl x ≡ true) (ok-injective last) (clamp-in_unit (fl.sub f_one ratio))
    ]

    argmax_total : (ps : List F) → 1 ≤ length ps → OnlyInvalid (argmax fl ps)
    unfolding argmax
    argmax_total [] h = absurd (omega arith)
    argmax_total (p ∷ ps) h = tt

    item-some :
        (xs : List String) (i : ℕ) {x : String} → get_elem? xs i ≡ some x → item fl xs i ≡ ok x
    item-some xs i at = rw (at, item) refl

    item_total : (ks : List String) (i : ℕ) → i < length ks → OnlyInvalid (item fl ks i)
    item_total ks i h =
        let (c, at) = get_elem?_of_lt ks i h in subst OnlyInvalid (sym (item-some ks i at)) tt

    new_choice_total :
        (c : String) (d : List (String × F)) (k : F)
        → all (in_unit fl) (values d) ≡ true
        → in_unit fl k ≡ true
        → OnlyInvalid (new_choice fl c d k)
    new_choice_total c d k units conf = rw (units, conf) tt

    length-keys : {V : Type 0} (d : List (String × V)) → length (keys d) ≡ length d
    length-keys [] = refl
    length-keys ((k, v) ∷ d) = ap suc (length-keys d)

    OnlyInvalid-answer_choice :
        (q : Choice F) (ps : List F) (k : F)
        → 1 ≤ length q.criteria
        → length ps ≡ length q.criteria
        → all (in_unit fl) ps ≡ true
        → in_unit fl k ≡ true
        → OnlyInvalid (answer_choice fl q ps k)
    unfolding answer_choice
    OnlyInvalid-answer_choice q ps k some_key n units conf =
        let ks = keys q.criteria in
        let same : (length ks == length ps) ≡ true = ground (arith, length-keys q.criteria) in
        OnlyInvalid-bind (zip_strict ks ps) _ (rw same tt) λ d zipped.
          OnlyInvalid-bind (argmax fl ps) _ (argmax_total ps (omega arith)) λ best found.
            let (p, max) = argmax-IsFirstMax fl laws ps (all-AreFinite fl ps units) found in
            let room : best < length ks =
              omega (arith, length-keys q.criteria, lt_of_get_elem? ps best max.at) in
            OnlyInvalid-bind (item fl ks best) _ (item_total ks best room) λ c chosen.
              new_choice_total c d k (rw (zip_strict-eq-ok fl ks ps zipped).1 units) conf

    values-numbered : {A : Type 0} (i : ℕ) (xs : List A) → values (numbered i xs) ≡ xs
    values-numbered i [] = refl
    values-numbered i (x ∷ xs) = ap (λ l. x ∷ l) (values-numbered (suc i) xs)

    noul_value-OnlyInvalid : (o : Option (Json F)) → OnlyInvalid (noul_value fl reader o)
    unfolding noul_value
    noul_value-OnlyInvalid none = tt
    noul_value-OnlyInvalid (some v) = tt

    OnlyInvalid-answer_score :
        SumsAreFinite
        → (q : Score F) (ps : List F) (k : F) → length ps ≤ 10
        → all (in_unit fl) ps ≡ true
        → in_unit fl k ≡ true
        → OnlyInvalid (answer_score fl q ps k)
    unfolding answer_score
    OnlyInvalid-answer_score sums q ps k few units conf =
        rw (sums ps few units, values-numbered 0 ps, units, conf) tt

    OnlyInvalid-distribution :
        (size : ℕ) (raw : Json F) → OnlyInvalid (distribution fl reader size raw)
    unfolding distribution
    OnlyInvalid-distribution size raw =
        OnlyInvalid-bind (listed fl reader (only_key "probabilities" raw)) _
          (OnlyInvalid-listed fl reader (only_key "probabilities" raw))
          λ vs _. OnlyInvalid-normalised fl reader size vs

    distribution-in_unit :
        (size : ℕ) (raw : Json F) {ps : List F}
        → distribution fl reader size raw ≡ ok ps
        → all (in_unit fl) ps ≡ true
    unfolding distribution
    distribution-in_unit size raw h =
        let (vs, _, rest) = >>=-eq-ok (listed fl reader (only_key "probabilities" raw)) _ h in
        normalised-in_unit size vs rest

    decide_raw-OnlyInvalid :
        SumsAreFinite
        → (q : Question F) (raw : Json F) → HasCriteria q
        → OnlyInvalid (decide_raw fl reader q raw)
    unfolding decide_raw
    decide_raw-OnlyInvalid sums (choice q) raw h =
        let size = length q.criteria in
        OnlyInvalid-bind (distribution fl reader size raw) _ (OnlyInvalid-distribution size raw)
          λ ps made.
            OnlyInvalid-bind (confidence_of fl reader ps size) _
              (OnlyInvalid-confidence_of ps size h)
              λ k sure.
                OnlyInvalid-answer_choice q ps k h (length-distribution fl reader size raw made)
                  (distribution-in_unit size raw made) (confidence_of-in_unit ps size sure)
    decide_raw-OnlyInvalid sums (score q) raw h =
        let size = length q.criteria in
        OnlyInvalid-bind (distribution fl reader size raw) _ (OnlyInvalid-distribution size raw)
          λ ps made.
            OnlyInvalid-bind (confidence_of fl reader ps size) _
              (OnlyInvalid-confidence_of ps size h.0)
              λ k sure.
                OnlyInvalid-answer_score sums q ps k
                  (omega (arith, length-distribution fl reader size raw made, h.1))
                  (distribution-in_unit size raw made) (confidence_of-in_unit ps size sure)
    decide_raw-OnlyInvalid sums (noul q) raw h =
        OnlyInvalid-bind (noul_value fl reader (only_key "noul" raw)) _
          (noul_value-OnlyInvalid (only_key "noul" raw))
          λ v _.
            OnlyInvalid-bind (probability fl reader v) _ (OnlyInvalid-probability fl reader v)
              λ p read. rw (probability-in_unit v read) tt

    -- Given the laws of floating point, finite weighted sums of at most ten probabilities, and a
    -- question that has a criterion, and at most ten if it is a score, `verify` returns an answer or raises `InvalidOutput` on any text: no division
    -- by zero, no failed validation of an answer, no other exception.
    pub verify-OnlyInvalid :
        SumsAreFinite
        → (text : Text) (q : Question F) → HasCriteria q
        → OnlyInvalid (verify fl reader text q)
    unfolding verify
    verify-OnlyInvalid sums text q h =
        OnlyInvalid-bind (strict_json fl reader text) _ (OnlyInvalid-strict_json fl reader text)
          λ raw _. decide_raw-OnlyInvalid sums q raw h
