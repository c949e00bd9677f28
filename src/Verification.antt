-- ===== src/Verification.antt =====
-- verification.py (src/vllm_verifier/verification.py): the strict reading of a completion and the
-- typed answer made from it. `json.loads` and `str.isspace` are parameters: `scan` is the JSON
-- grammar, with `none` for its ValueError and RecursionError, and gives every object with its pairs
-- as they stand in the text; `json.loads` then passes each through `object_pairs_hook`, the inner
-- ones first.
pub mod Sound
pub mod Rejects
pub mod Builds
pub mod UniqueKeys
mod Tests
use vllm_verifier.Base.{
  ℕ, String, Bool, false, ◌&&◌, ◌||◌, not, Option, none, some, List, [], ◌∷◌, length, Text, codes,
  starts_with, ends_with, strip, slice, ◌==◌, str_eq, if◌then◌else◌,
}
use vllm_verifier.Errors.{
  Result, ok, err, ◌>>=◌, ◌>>◌, raise_if, invalid_output, is_value_error, zero_division, traverse,
}
use vllm_verifier.Models.{
  pos, Json, null, bool, int, float, str, arr, obj, Items, nil, cons, Fields, end, field, Question,
  choice, score, noul, Answer,
}
use vllm_verifier.Floats.{Floats, in_unit}
use vllm_verifier.Answers.{clamp, new_noul, answer_choice, answer_score}

-- What the code takes from Python's `json` and `str`.
pub record JsonReader (F : Type 0) : Type 0 where
  pub scan : Text → Option (Json F)
  pub is_space : ℕ → Bool

module _ {F : Type 0} where
  -- `key in result`
  unfoldable pub has_key : String → Fields F → Bool
  has_key k end = false
  has_key k (field j v fs) = str_eq j k || has_key k fs

  -- `result[key] = value`, for a key that is not there
  unfoldable pub put_last : Fields F → String → Json F → Fields F
  put_last end k v = field k v end
  put_last (field j w fs) k v = field j w (put_last fs k v)

  -- The loop of `_unique_object`.
  unfoldable pub unique_from : Fields F → Fields F → Result (Fields F)
  unique_from result end = ok result
  unique_from result (field k v pairs) =
      let rest = unique_from (put_last result k v) pairs in
      if has_key k result then err (invalid_output "duplicate JSON keys") else rest

  unfoldable pub unique_object : Fields F → Result (Fields F)
  unfolding unique_from has_key put_last
  unique_object pairs = unique_from end pairs

  -- `json.loads` passes each object through the hook.
  unfoldable mutual
    pub hook : Json F → Result (Json F)
    hook (arr xs) = do ys ← hook_items xs; ok (arr ys)
    hook (obj fs) = do gs ← hook_fields fs; hs ← unique_object gs; ok (obj hs)
    hook null = ok null
    hook (bool b) = ok (bool b)
    hook (int i) = ok (int i)
    hook (float x) = ok (float x)
    hook (str s) = ok (str s)

    pub hook_items : Items F → Result (Items F)
    hook_items nil = ok nil
    hook_items (cons x xs) = do y ← hook x; ys ← hook_items xs; ok (cons y ys)

    pub hook_fields : Fields F → Result (Fields F)
    hook_fields end = ok end
    hook_fields (field k v fs) = do w ← hook v; gs ← hook_fields fs; ok (field k w gs)

  -- The elements of a JSON array.
  abbrev pub elements : Items F → List (Json F)
  elements nil = []
  elements (cons x xs) = x ∷ elements xs

  -- `raw` is a dict with the one key `k`: its value.
  unfoldable pub only_key : String → Json F → Option (Json F)
  only_key k (obj (field j v end)) = if str_eq j k then some v else none
  only_key k _ = none

-- The Markdown fence around a text, if it has one.
unfoldable pub unfence : Text → Text
unfence text =
    if starts_with (codes "```json\n") text && ends_with (codes "\n```") text
    then slice 8 4 text
    else if starts_with (codes "```\n") text && ends_with (codes "\n```") text
    then slice 4 4 text
    else text

-- `except (ValueError, RecursionError) as exc: raise InvalidOutput(...)`
abbrev pub as_invalid {ℓ} : {A : Type ℓ} → Result A → Result A
as_invalid (ok a) = ok a
as_invalid (err e) =
    if is_value_error e then err (invalid_output "expected one JSON object") else err e

module _ (fl : Floats) (reader : JsonReader fl.F) where
  open fl use {
    F, f_zero, f_one, f_hundredth, of_int, ltb, leb, eqb, is_finite, sub, mul, quot, neg, abs, log,
    fsum,
  }

  -- `json.loads(text, object_pairs_hook=_unique_object)`
  unfoldable pub loads : Text → Result (Json F)
  unfolding hook
  loads text = elim (reader.scan text) [
    | none ↦ err (invalid_output "JSON syntax")
    | some raw ↦ hook raw
  ]

  unfoldable pub strict_json : Text → Result (Json F)
  unfolding unfence
  strict_json text = as_invalid (loads (unfence (strip reader.is_space text)))

  -- `_probability`; a `bool` is no `int` here, and only 0 and 1 are ints in range.
  unfoldable pub probability : Json F → Result F
  probability (int (pos n)) =
      if n == 0 || n == 1
      then ok (of_int (pos n))
      else err (invalid_output "probabilities must be finite numbers between zero and one")
  probability (float p) =
      if in_unit fl p
      then ok p
      else err (invalid_output "probabilities must be finite numbers between zero and one")
  probability _ = err (invalid_output "probabilities must be finite numbers between zero and one")

  -- `abs(total - 1.0) > 0.01 or total == 0`
  abbrev pub bad_total : F → Bool
  bad_total total = ltb f_hundredth (abs (sub total f_one)) || eqb total f_zero

  -- `value / total`
  abbrev pub divide : F → F → Result F
  divide total value = if eqb total f_zero then err zero_division else ok (quot value total)

  -- `p * math.log(p) for p in probabilities if p > 0`
  unfoldable pub entropy_terms : List F → List F
  entropy_terms [] = []
  entropy_terms (p ∷ ps) =
      let rest = entropy_terms ps in if ltb f_zero p then mul p (log p) ∷ rest else rest

  -- `entropy / math.log(size)` under the conditional of `confidence`
  unfoldable pub confidence_of : List F → ℕ → Result F
  unfolding entropy_terms
  confidence_of ps size =
      let entropy = neg (fsum (entropy_terms ps)) in
      if size == 1
      then ok f_one
      else do ratio ← divide (log (of_int (pos size))) entropy; ok (clamp fl (sub f_one ratio))

  -- `raw["probabilities"]`, which has to be a list
  unfoldable pub listed : Option (Json F) → Result (List (Json F))
  listed (some (arr xs)) = ok (elements xs)
  listed (some _) = err (invalid_output "one probability is required per criterion, in order")
  listed none = err (invalid_output "expected only probabilities")

  -- From the listed values to the normalised probabilities of `size` criteria.
  unfoldable pub normalised : ℕ → List (Json F) → Result (List F)
  normalised size values = do
    raise_if (not (length values == size))
        (invalid_output "one probability is required per criterion, in order")
    ps ← traverse probability values
    raise_if (bad_total (fsum ps))
        (invalid_output "probabilities must sum to one (rounding tolerance 0.01)")
    traverse (divide (fsum ps)) ps

  unfoldable pub distribution : ℕ → Json F → Result (List F)
  distribution size raw = do values ← listed (only_key "probabilities" raw); normalised size values

  -- `raw["noul"]`
  unfoldable pub noul_value : Option (Json F) → Result (Json F)
  noul_value none = err (invalid_output "expected only noul")
  noul_value (some v) = ok v

  -- `verify` behind `raw = strict_json(text)`.
  unfoldable pub decide_raw : Question F → Json F → Result (Answer F)
  unfolding only_key
  decide_raw (noul q) raw = do
    v ← noul_value (only_key "noul" raw)
    p ← probability v
    new_noul fl p
  decide_raw (choice q) raw = do
    ps ← distribution (length q.criteria) raw
    confidence ← confidence_of ps (length q.criteria)
    answer_choice fl q ps confidence
  decide_raw (score q) raw = do
    ps ← distribution (length q.criteria) raw
    confidence ← confidence_of ps (length q.criteria)
    answer_score fl q ps confidence

  unfoldable pub verify : Text → Question F → Result (Answer F)
  verify text question = do raw ← strict_json text; decide_raw question raw
