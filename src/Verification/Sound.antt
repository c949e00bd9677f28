-- ===== src/Verification/Sound.antt =====
-- What `verify` accepts: the answer fits the question.
use vllm_verifier.Base.{ℕ, ◌≡◌, ◌∙◌, List, arith, length, Text, ◌==◌, not}
use vllm_verifier.Errors.{ok, >>=-eq-ok, traverse, length-traverse, raise_if, raise_if-eq-ok}
use vllm_verifier.Models.{Json, Question, choice, score, noul, Answer}
use vllm_verifier.Floats.{Floats, FloatLaws}
use vllm_verifier.Answers.Fits.{Fits, new_noul-Fits, answer_choice-Fits, answer_score-Fits}
use vllm_verifier.Verification.{
  JsonReader, only_key, strict_json, probability, bad_total, divide, confidence_of, listed,
  noul_value, normalised, distribution, decide_raw, verify,
}

module _ (fl : Floats) (reader : JsonReader fl.F) where
  open fl use {F, fsum}

  pub length-normalised :
      (size : ℕ) (values : List (Json F)) {ps : List F}
      → normalised fl reader size values ≡ ok ps
      → length ps ≡ size
  unfolding normalised
  length-normalised size values h =
      let (u, same, h₁) = >>=-eq-ok (raise_if (not (length values == size)) _) _ h in
      let (raw, read, h₂) = >>=-eq-ok (traverse (probability fl reader) values) _ h₁ in
      let (v, good, h₃) = >>=-eq-ok (raise_if (bad_total fl reader (fsum raw)) _) _ h₂ in
      let equal : length values ≡ size =
        ground (arith, raise_if-eq-ok (not (length values == size)) _ same) in
      length-traverse (divide fl reader (fsum raw)) raw h₃
      ∙ length-traverse (probability fl reader) values read
      ∙ equal

  pub length-distribution :
      (size : ℕ) (raw : Json F) {ps : List F}
      → distribution fl reader size raw ≡ ok ps
      → length ps ≡ size
  unfolding distribution
  length-distribution size raw h =
      let (values, found, rest) = >>=-eq-ok (listed fl reader (only_key "probabilities" raw)) _ h in
      length-normalised size values rest

  module _ (laws : FloatLaws fl) where
    decide_raw-Fits :
        (q : Question F) (raw : Json F) {a : Answer F}
        → decide_raw fl reader q raw ≡ ok a
        → Fits fl q a
    unfolding decide_raw
    decide_raw-Fits (choice q) raw h =
        let (ps, _, h₁) = >>=-eq-ok (distribution fl reader (length q.criteria) raw) _ h in
        let (k, _, h₂) = >>=-eq-ok (confidence_of fl reader ps (length q.criteria)) _ h₁ in
        answer_choice-Fits fl laws q ps k h₂
    decide_raw-Fits (score q) raw h =
        let (ps, made, h₁) = >>=-eq-ok (distribution fl reader (length q.criteria) raw) _ h in
        let (k, _, h₂) = >>=-eq-ok (confidence_of fl reader ps (length q.criteria)) _ h₁ in
        answer_score-Fits fl q ps k (length-distribution (length q.criteria) raw made) h₂
    decide_raw-Fits (noul q) raw h =
        let (v, _, h₁) = >>=-eq-ok (noul_value fl reader (only_key "noul" raw)) _ h in
        let (p, _, h₂) = >>=-eq-ok (probability fl reader v) _ h₁ in new_noul-Fits fl q p h₂

    -- Given the laws of floating point, an answer that `verify` returns fits its question,
    -- whatever the text is.
    pub verify-Fits :
        (text : Text) (q : Question F) (a : Answer F) → verify fl reader text q ≡ ok a → Fits fl q a
    unfolding verify
    verify-Fits text q a h =
        let (raw, _, rest) = >>=-eq-ok (strict_json fl reader text) _ h in
        decide_raw-Fits q raw rest
