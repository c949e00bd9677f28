-- ===== src/App/Body.antt =====
-- The state of a request that app.py accepts.
use vllm_verifier.Base.{
  ◌≡◌, subst, ap, inl, inr, String, Bool, true, Option, none, some, str_eq, length, Bool-cases,
  &&_true,
}
use vllm_verifier.Errors.{ok, >>=-eq-ok, ok-injective}
use vllm_verifier.Models.{
  Json, null, bool, int, float, str, arr, obj, Fields, end, field, Content, SystemOneRequest,
  VisionRequest,
}
use vllm_verifier.Models.Contract.{all_finite, all_finite_fields}
use vllm_verifier.Models.Parsing.{
  get, content_of, required, fields_of, items_of, strings_of, check, has_only, has_length,
  is_identifier, string_of, vision_keys, check_finite, questions_of, request_of, validate_vision,
}
use vllm_verifier.Models.Limits.{check_finite-eq-ok}
use vllm_verifier.Prompts.{content_json}

some-injective {ℓ} : {A : Type ℓ} {a b : A} → some a ≡ some b → a ≡ b
some-injective h = cc

module _ {F : Type 0} (is_finite : F → Bool) where
  get_finite :
      (k : String) (fs : Fields F) {v : Json F}
      → all_finite_fields is_finite fs ≡ true
      → get k fs ≡ some v
      → all_finite is_finite v ≡ true
  unfolding all_finite
  get_finite k end h e = cc
  get_finite k (field j w fs) h e =
      let (first, rest) = &&_true (all_finite is_finite w) _ h in
      elim (Bool-cases (str_eq j k)) [
        | inl here ↦
            subst (λ w. all_finite is_finite w ≡ true) (some-injective (rw here at e)) first
        | inr later ↦ get_finite k fs rest (rw later at e)
      ]

  fields_finite :
      (v : Json F) {fs : Fields F}
      → fields_of v ≡ ok fs
      → all_finite is_finite v ≡ true
      → all_finite_fields is_finite fs ≡ true
  unfolding all_finite
  fields_finite (obj gs) e h =
      subst (λ gs. all_finite_fields is_finite gs ≡ true) (ok-injective e) h
  fields_finite null e h = cc
  fields_finite (bool b) e h = cc
  fields_finite (int i) e h = cc
  fields_finite (float x) e h = cc
  fields_finite (str s) e h = cc
  fields_finite (arr xs) e h = cc

  content_of-eq-ok : (v : Json F) {c : Content F} → content_of v ≡ ok c → v ≡ content_json c
  content_of-eq-ok (obj fs) e = ap content_json (ok-injective e)
  content_of-eq-ok (str s) e = ap content_json (ok-injective e)
  content_of-eq-ok (arr xs) e = ap content_json (ok-injective e)
  content_of-eq-ok null e = cc
  content_of-eq-ok (bool b) e = cc
  content_of-eq-ok (int i) e = cc
  content_of-eq-ok (float x) e = cc

  required-eq-ok : (o : Option (Json F)) {v : Json F} → required o ≡ ok v → o ≡ some v
  required-eq-ok none e = cc
  required-eq-ok (some v) e = ap some (ok-injective e)

  request_of-finite :
      (fs : Fields F) {r : SystemOneRequest F}
      → request_of is_finite fs ≡ ok r
      → all_finite_fields is_finite fs ≡ true
      → all_finite is_finite (content_json r.state) ≡ true
  unfolding request_of
  request_of-finite fs h finite =
      let (m, e₁, r₁) = >>=-eq-ok (required (get "model" fs)) _ h in
      let (model, e₂, r₂) = >>=-eq-ok (string_of m) _ r₁ in
      let (u₃, named, r₃) = >>=-eq-ok (check (is_identifier model)) _ r₂ in
      let (s, e₄, r₄) = >>=-eq-ok (required (get "state" fs)) _ r₃ in
      let (state, e₅, r₅) = >>=-eq-ok (content_of s) _ r₄ in
      let (q, e₆, r₆) = >>=-eq-ok (required (get "questions" fs)) _ r₅ in
      let (items, e₇, r₇) = >>=-eq-ok (fields_of q) _ r₆ in
      let (qs, e₈, r₈) = >>=-eq-ok (questions_of is_finite items) _ r₇ in
      let (u₉, sized, r₉) = >>=-eq-ok (check (has_length 1 64 (length qs))) _ r₈ in
      subst (λ (r : SystemOneRequest F). all_finite is_finite (content_json r.state) ≡ true)
        (ok-injective r₉)
        (subst (λ v. all_finite is_finite v ≡ true) (content_of-eq-ok s e₅)
          (get_finite "state" fs finite (required-eq-ok _ e₄)))

  pub validate_vision-finite :
      (v : Json F) {r : VisionRequest F}
      → validate_vision is_finite v ≡ ok r
      → all_finite is_finite (content_json r.state) ≡ true
  unfolding validate_vision
  validate_vision-finite v h =
      let (u₁, finite, r₁) = >>=-eq-ok (check_finite is_finite v) _ h in
      let (fs, e₂, r₂) = >>=-eq-ok (fields_of v) _ r₁ in
      let (u₃, e₃, r₃) = >>=-eq-ok (check (has_only vision_keys fs)) _ r₂ in
      let (request, e₄, r₄) = >>=-eq-ok (request_of is_finite fs) _ r₃ in
      let (i, e₅, r₅) = >>=-eq-ok (required (get "images" fs)) _ r₄ in
      let (items, e₆, r₆) = >>=-eq-ok (items_of i) _ r₅ in
      let (images, e₇, r₇) = >>=-eq-ok (strings_of items) _ r₆ in
      let (u₈, sized, r₈) = >>=-eq-ok (check (has_length 1 4 (length images))) _ r₇ in
      subst (λ (w : VisionRequest F). all_finite is_finite (content_json w.state) ≡ true)
        (ok-injective r₈)
        (request_of-finite fs e₄ (fields_finite v e₂ (check_finite-eq-ok is_finite v finite)))
