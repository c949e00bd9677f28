-- ===== src/Models/Limits.antt =====
-- What the validation of models.py grants to the code behind it: the limits of a request.
use vllm_verifier.Base.{
  ℕ, ◌≤◌, ◌≡◌, refl, subst, String, Bool, true, false, not, Option, List, All, codes, length,
  str_eq, arith, if◌then◌else◌, not-false,
}
use vllm_verifier.Errors.{validation_error, ok, err, >>=-eq-ok, raise_if-eq-ok, ok-injective}
use vllm_verifier.Models.{
  Json, Fields, end, field, Content, Question, choice, score, noul, SystemOneRequest, VisionRequest,
}
use vllm_verifier.Models.Contract.{all_finite, finite_json_lem, verdict}
use vllm_verifier.Models.Parsing.{
  has_length, is_identifier, check, get, has_only, content_or_none, optional, required, string_of,
  content_of, fields_of, items_of, options_of, levels_of, noul_criteria_of, tagged, choice_of,
  score_of, noul_of, as_validation, check_finite, question_keys, request_keys, vision_keys,
  question_of, questions_of, request_of, validate_request, strings_of, validate_vision,
}

-- `Identifier`: from one to 256 characters.
abbrev pub IsIdentifier : String → Type 0
IsIdentifier k = (1 ≤ length (codes k)) × (length (codes k) ≤ 256)

module _ {F : Type 0} where
  -- From one to 255 options with identifiers, from one to ten levels.
  abbrev pub IsLimited : Question F → Type 0
  IsLimited (choice q) =
      (1 ≤ length q.criteria) × (length q.criteria ≤ 255) × All (λ p. IsIdentifier p.0) q.criteria
  IsLimited (score q) = (1 ≤ length q.criteria) × (length q.criteria ≤ 10)
  IsLimited (noul q) = Unit

  pub record IsValidRequest (r : SystemOneRequest F) : Type 0 where
    pub model : IsIdentifier r.model
    pub some_question : 1 ≤ length r.questions
    pub questions : length r.questions ≤ 64
    pub limited : All (λ p. IsIdentifier p.0 × IsLimited p.1) r.questions

check-eq-ok : (b : Bool) {u : Unit {0}} → check b ≡ ok u → b ≡ true
check-eq-ok b h = not-false b (raise_if-eq-ok (not b) _ h)

has_length-eq-true : (lo hi n : ℕ) → has_length lo hi n ≡ true → (lo ≤ n) × (n ≤ hi)
has_length-eq-true lo hi n h = ground arith

module _ {F : Type 0} where
  options_of-IsIdentifier :
      (fs : Fields F) {cs : List (String × Option (Content F))}
      → options_of fs ≡ ok cs
      → All (λ p. IsIdentifier p.0) cs
  unfolding options_of
  options_of-IsIdentifier end h = subst (All _) (ok-injective h) tt
  options_of-IsIdentifier (field k v fs) h =
      let (u, named, r₁) = >>=-eq-ok (check (is_identifier k)) _ h in
      let (c, e₂, r₂) = >>=-eq-ok (content_or_none v) _ r₁ in
      let (cs, e₃, r₃) = >>=-eq-ok (options_of fs) _ r₂ in
      subst (All _) (ok-injective r₃)
        (has_length-eq-true 1 256 _ (check-eq-ok _ named), options_of-IsIdentifier fs e₃)

  choice_of-IsLimited :
      (fs : Fields F) (i : Option (Content F)) {q : Question F}
      → choice_of fs i ≡ ok q
      → IsLimited q
  choice_of-IsLimited fs i h =
      let (v, e₁, r₁) = >>=-eq-ok (required (get "criteria" fs)) _ h in
      let (criteria, e₂, r₂) = >>=-eq-ok (fields_of v) _ r₁ in
      let (cs, e₃, r₃) = >>=-eq-ok (options_of criteria) _ r₂ in
      let (u, sized, r₄) = >>=-eq-ok (check (has_length 1 255 (length cs))) _ r₃ in
      let (low, high) = has_length-eq-true 1 255 _ (check-eq-ok _ sized) in
      subst IsLimited (ok-injective r₄) (low, high, options_of-IsIdentifier criteria e₃)

  score_of-IsLimited :
      (fs : Fields F) (i : Option (Content F)) {q : Question F} → score_of fs i ≡ ok q → IsLimited q
  score_of-IsLimited fs i h =
      let (v, e₁, r₁) = >>=-eq-ok (required (get "criteria" fs)) _ h in
      let (criteria, e₂, r₂) = >>=-eq-ok (items_of v) _ r₁ in
      let (cs, e₃, r₃) = >>=-eq-ok (levels_of criteria) _ r₂ in
      let (u, sized, r₄) = >>=-eq-ok (check (has_length 1 10 (length cs))) _ r₃ in
      subst IsLimited (ok-injective r₄) (has_length-eq-true 1 10 _ (check-eq-ok _ sized))

  noul_of-IsLimited :
      (fs : Fields F) (i : Option (Content F)) {q : Question F} → noul_of fs i ≡ ok q → IsLimited q
  noul_of-IsLimited fs i h =
      let (c, e₁, r₁) = >>=-eq-ok (noul_criteria_of (get "criteria" fs)) _ h in
      subst IsLimited (ok-injective r₁) tt

  tagged-IsLimited :
      (tag : String) (fs : Fields F) (i : Option (Content F)) {q : Question F}
      → tagged tag fs i ≡ ok q
      → IsLimited q
  unfolding tagged
  tagged-IsLimited tag fs i {q} h =
      by_tag (str_eq tag "choice") (str_eq tag "score") (str_eq tag "noul") h
    where
      by_tag :
          (a b c : Bool)
          → (if a
              then choice_of fs i
              else if b
              then score_of fs i
              else if c
              then noul_of fs i
              else err validation_error)
            ≡ ok q
          → IsLimited q
      by_tag true b c e = choice_of-IsLimited fs i e
      by_tag false true c e = score_of-IsLimited fs i e
      by_tag false false true e = noul_of-IsLimited fs i e
      by_tag false false false e = cc

module _ {F : Type 0} (is_finite : F → Bool) where
  question_of-IsLimited :
      (v : Json F) {q : Question F} → question_of is_finite v ≡ ok q → IsLimited q
  unfolding question_of
  question_of-IsLimited v h =
      let (fs, e₁, r₁) = >>=-eq-ok (fields_of v) _ h in
      let (t, e₂, r₂) = >>=-eq-ok (required (get "type" fs)) _ r₁ in
      let (tag, e₃, r₃) = >>=-eq-ok (string_of t) _ r₂ in
      let (u₄, e₄, r₄) = >>=-eq-ok (check_finite is_finite v) _ r₃ in
      let (u₅, e₅, r₅) = >>=-eq-ok (check (has_only question_keys fs)) _ r₄ in
      let (i, e₆, r₆) = >>=-eq-ok (optional (get "instructions" fs)) _ r₅ in
      tagged-IsLimited tag fs i r₆

  questions_of-IsLimited :
      (fs : Fields F) {qs : List (String × Question F)}
      → questions_of is_finite fs ≡ ok qs
      → All (λ p. IsIdentifier p.0 × IsLimited p.1) qs
  unfolding questions_of
  questions_of-IsLimited end h = subst (All _) (ok-injective h) tt
  questions_of-IsLimited (field k v fs) h =
      let (u, named, r₁) = >>=-eq-ok (check (is_identifier k)) _ h in
      let (q, e₂, r₂) = >>=-eq-ok (question_of is_finite v) _ r₁ in
      let (qs, e₃, r₃) = >>=-eq-ok (questions_of is_finite fs) _ r₂ in
      subst (All _) (ok-injective r₃) (
        (has_length-eq-true 1 256 _ (check-eq-ok _ named), question_of-IsLimited v e₂),
        questions_of-IsLimited fs e₃,
      )

  pub request_of-IsValidRequest :
      (fs : Fields F) {r : SystemOneRequest F} → request_of is_finite fs ≡ ok r → IsValidRequest r
  unfolding request_of
  request_of-IsValidRequest fs h =
      let (m, e₁, r₁) = >>=-eq-ok (required (get "model" fs)) _ h in
      let (model, e₂, r₂) = >>=-eq-ok (string_of m) _ r₁ in
      let (u₃, named, r₃) = >>=-eq-ok (check (is_identifier model)) _ r₂ in
      let (s, e₄, r₄) = >>=-eq-ok (required (get "state" fs)) _ r₃ in
      let (state, e₅, r₅) = >>=-eq-ok (content_of s) _ r₄ in
      let (q, e₆, r₆) = >>=-eq-ok (required (get "questions" fs)) _ r₅ in
      let (items, e₇, r₇) = >>=-eq-ok (fields_of q) _ r₆ in
      let (qs, e₈, r₈) = >>=-eq-ok (questions_of is_finite items) _ r₇ in
      let (u₉, sized, r₉) = >>=-eq-ok (check (has_length 1 64 (length qs))) _ r₈ in
      let (low, high) = has_length-eq-true 1 64 _ (check-eq-ok _ sized) in
      subst IsValidRequest (ok-injective r₉) (record {
        model = has_length-eq-true 1 256 _ (check-eq-ok _ named);
        some_question = low;
        questions = high;
        limited = questions_of-IsLimited items e₈;
      })

  pub check_finite-eq-ok :
      (v : Json F) {u : Unit {0}} → check_finite is_finite v ≡ ok u → all_finite is_finite v ≡ true
  check_finite-eq-ok v {u} h =
      by_verdict (all_finite is_finite v)
        (subst (λ o. as_validation is_finite o ≡ ok u) (finite_json_lem is_finite v) h)
    where
      by_verdict : (b : Bool) → as_validation is_finite (verdict is_finite b) ≡ ok u → b ≡ true
      by_verdict true e = refl
      by_verdict false e = cc

  -- A request that `SystemOneRequest` accepts has a model name of 1 to 256 characters and 1 to 64
  -- questions whose names have 1 to 256 characters; each choice has 1 to 255 options with such
  -- names, and each score 1 to 10 levels. Every float at any depth of the accepted JSON is finite.
  pub validate_request-IsValidRequest :
      (v : Json F) (r : SystemOneRequest F)
      → validate_request is_finite v ≡ ok r
      → IsValidRequest r × (all_finite is_finite v ≡ true)
  unfolding validate_request
  validate_request-IsValidRequest v r h =
      let (u₁, finite, r₁) = >>=-eq-ok (check_finite is_finite v) _ h in
      let (fs, e₂, r₂) = >>=-eq-ok (fields_of v) _ r₁ in
      let (u₃, e₃, r₃) = >>=-eq-ok (check (has_only request_keys fs)) _ r₂ in
      (request_of-IsValidRequest fs r₃, check_finite-eq-ok v finite)

  -- The same for the request inside a vision request, which has one to four images.
  pub validate_vision-limits :
      (v : Json F) (r : VisionRequest F)
      → validate_vision is_finite v ≡ ok r
      → IsValidRequest r.base × (1 ≤ length r.images) × (length r.images ≤ 4)
  unfolding validate_vision
  validate_vision-limits v r h =
      let (u₁, finite, r₁) = >>=-eq-ok (check_finite is_finite v) _ h in
      let (fs, e₂, r₂) = >>=-eq-ok (fields_of v) _ r₁ in
      let (u₃, e₃, r₃) = >>=-eq-ok (check (has_only vision_keys fs)) _ r₂ in
      let (request, e₄, r₄) = >>=-eq-ok (request_of is_finite fs) _ r₃ in
      let (i, e₅, r₅) = >>=-eq-ok (required (get "images" fs)) _ r₄ in
      let (items, e₆, r₆) = >>=-eq-ok (items_of i) _ r₅ in
      let (images, e₇, r₇) = >>=-eq-ok (strings_of items) _ r₆ in
      let (u₈, sized, r₈) = >>=-eq-ok (check (has_length 1 4 (length images))) _ r₇ in
      let (low, high) = has_length-eq-true 1 4 _ (check-eq-ok _ sized) in
      subst (λ w. IsValidRequest w.base × (1 ≤ length w.images) × (length w.images ≤ 4))
        (ok-injective r₈) (request_of-IsValidRequest fs e₄, low, high)
