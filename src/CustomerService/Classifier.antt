-- ===== src/CustomerService/Classifier.antt =====
-- classifier.py of examples/customer_service: the checks on a response of the decision service, the
-- ranking, and the thresholds. The service and its JSON are a parameter, and so is floating point.
use Prim.Native.String.{◌++◌ as ◌<>◌}
use vllm_verifier.Base.{
  ℕ, String, Bool, true, ◌||◌, ◌&&◌, not, Option, none, some, List, [], ◌∷◌, map, take, get_elem?,
  all, keys, values, elem, insert, str_eq, if◌then◌else◌,
}
use vllm_verifier.Errors.{
  Result, ok, err, ◌>>=◌, ◌>>◌, raise_if, value_error, index_error, traverse,
}
use vllm_verifier.CustomerService.Catalog.{Intent, Category, Catalog, intent_of}
use vllm_verifier.CustomerService.Actions.{select}
use vllm_verifier.CustomerService.Dialogue.{CandidateIntent, Classification}

-- The tests on the floats of a response.
pub record Weights : Type 1 where
  pub F : Type 0
  -- `isinstance(value, (int, float))`, finite and between 0 and 1, of a value of JSON
  pub in_range : F → Bool
  -- `math.isclose(sum(values), 1, abs_tol=0.02)`
  pub sums_to_one : List F → Bool
  pub ltb : F → F → Bool
  pub sub : F → F → F
  -- 0.30 and 0.05
  pub least_probability : F
  pub least_margin : F

module _ (weights : Weights) where
  open weights use {F, in_range, sums_to_one, ltb, sub, least_probability, least_margin}

  -- The JSON of the service: the probabilities, if both fields are there, and the model, if it is a `str`.
  pub record ServiceReply : Type 0 where
    pub probabilities : Option (List (String × F))
    pub served_model : Option String

  -- The request to the service, which may fail.
  abbrev pub Ask : Type 0
  Ask = (state : String) (options : List (String × String)) → Result ServiceReply

  abbrev pub expected_field {ℓ} : {A : Type ℓ} → String → Option A → Result A
  expected_field message none = err (value_error message)
  expected_field message (some a) = ok a

  -- `set(a) == set(b)`
  abbrev pub same_keys : List String → List String → Bool
  same_keys a b = all (λ x. elem x b) a && all (λ x. elem x a) b

  -- A stable sort, the largest first.
  abbrev pub rank_one : String × F → List (String × F) → List (String × F)
  rank_one p [] = p ∷ []
  rank_one p (q ∷ ranked) =
      let rest = rank_one p ranked in if ltb p.1 q.1 then q ∷ rest else p ∷ q ∷ ranked

  abbrev pub rank : List (String × F) → List (String × F)
  rank [] = []
  rank (p ∷ ps) = rank_one p (rank ps)

  module _ (ask : Ask) where
    -- `_choose`
    unfoldable pub choose_option : String → List (String × String) → Result (List (String × F))
    choose_option state options = do
      reply ← ask state options
      ps ← expected_field "Classifier returned a malformed response" reply.probabilities
      model ← expected_field "Classifier returned an invalid model identifier" reply.served_model
      raise_if (not (same_keys (keys ps) (keys options)))
          (value_error "Classifier returned unexpected candidate IDs")
      raise_if (not (all in_range (values ps)) || not (sums_to_one (values ps)))
          (value_error "Classifier returned invalid probabilities")
      ok (rank ps)

    -- `ranked[i]`
    abbrev pub ranked_at : List (String × F) → ℕ → Result (String × F)
    ranked_at ranked i = elim (get_elem? ranked i) [ none ↦ err index_error | some p ↦ ok p ]

    -- The first is too improbable, or too near to the second.
    abbrev pub is_uncertain : List (String × F) → Result Bool
    is_uncertain ranked = do
      first ← ranked_at ranked 0
      if ltb first.1 least_probability
          then ok true
          else (do second ← ranked_at ranked 1; ok (ltb (sub first.1 second.1) least_margin))

    abbrev pub either_uncertain : List (String × F) → List (String × F) → Result Bool
    either_uncertain groups ranked = do
      vague ← is_uncertain groups
      if vague then ok true else is_uncertain ranked

    module _ (catalog : Catalog) where
      -- `groups`
      abbrev pub group_options : List (String × String)
      group_options = insert "out_of_scope" "쇼핑 고객센터와 무관한 요청, 의미 불명, 정보 부족 / unrelated or unclear" (
          map (λ (p : String × Category). (p.0, p.1.label <> (": " <> p.1.description)))
            catalog.categories)

      -- `candidates`, of a category
      abbrev pub intent_options : String → List (String × String)
      intent_options category =
          map (λ (p : String × Intent). (p.0, p.1.label <> (": " <> p.1.description)))
            (select (λ (p : String × Intent). str_eq p.1.category category) catalog.intents)

      -- `top`, for one of the first three
      abbrev pub candidate_of : String × F → Result CandidateIntent
      candidate_of p = do
        intent ← intent_of catalog p.0
        ok (record { id = p.0; label = intent.label })

      -- Behind both choices.
      unfoldable pub decided : List (String × F) → List (String × F) → Result Classification
      decided groups ranked = do
        top ← traverse candidate_of (take 3 ranked)
        uncertain ← either_uncertain groups ranked
        first ← ranked_at ranked 0
        ok (record { intent = if uncertain then none else some first.0; candidates = top })

      unfoldable pub classify : (text context : String) → Result Classification
      classify text context =
          let state =
            "Latest customer message: "
            <> (text
                <> ("\nPrevious task (context only): "
                    <> (if str_eq context "" then "none" else context))) in
          do
            groups ← choose_option state group_options
            category ← ranked_at groups 0
            if str_eq category.0 "out_of_scope"
                then ok (record { intent = none; candidates = [] })
                else (do
                  ranked ← choose_option state (intent_options category.0)
                  decided groups ranked)
