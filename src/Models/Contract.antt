-- ===== src/Models/Contract.antt =====
-- `Contract.finite_json` of models.py (src/vllm_verifier/models.py): the search of a JSON value for
-- numbers that are not finite. The list `pending` stands with its last element first, and the fuel is
-- the number of its values.
use vllm_verifier.Base.{
  ℕ, zero, suc, ◌+◌, ◌≤◌, ◌≡◌, refl, sym, ap, ◌∙◌, inl, inr, Bool, true, ◌&&◌, not, Option, none,
  some, List, [], ◌∷◌, all, sum_by, arith, if◌then◌else◌, Bool-cases,
}
use vllm_verifier.Errors.{Exception, Result, ok, err, value_error}
use vllm_verifier.Models.{
  Json, null, bool, int, float, str, arr, obj, Items, nil, cons, Fields, end, field,
}

and_true : (b : Bool) → (b && true) ≡ b
and_true b = ground arith

abbrev pub not_finite : Exception
not_finite = value_error "non-finite JSON numbers are not supported"

module _ {F : Type 0} where
  -- `pending.extend(item)`
  abbrev pub extend_items : Items F → List (Json F) → List (Json F)
  extend_items nil pending = pending
  extend_items (cons x xs) pending = extend_items xs (x ∷ pending)

  -- `pending.extend(item.values())`
  abbrev pub extend_values : Fields F → List (Json F) → List (Json F)
  extend_values end pending = pending
  extend_values (field k v fs) pending = extend_values fs (v ∷ pending)

-- How many values a value consists of.
unfoldable mutual
  pub count : {F : Type 0} → Json F → ℕ
  count (arr xs) = suc (count_items xs)
  count (obj fs) = suc (count_fields fs)
  count _ = 1

  pub count_items : {F : Type 0} → Items F → ℕ
  count_items nil = 0
  count_items (cons x xs) = count x + count_items xs

  pub count_fields : {F : Type 0} → Fields F → ℕ
  count_fields end = 0
  count_fields (field k v fs) = count v + count_fields fs

module _ {F : Type 0} (is_finite : F → Bool) where
  -- `while pending`; `none` if the fuel runs out.
  unfoldable pub search_pending : ℕ → List (Json F) → Option (Result (Unit {0}))
  search_pending n [] = some (ok tt)
  search_pending zero (item ∷ pending) = none
  search_pending (suc n) (float x ∷ pending) =
      let rest = search_pending n pending in
      if not (is_finite x) then some (err not_finite) else rest
  search_pending (suc n) (obj fs ∷ pending) = search_pending n (extend_values fs pending)
  search_pending (suc n) (arr xs ∷ pending) = search_pending n (extend_items xs pending)
  search_pending (suc n) (_ ∷ pending) = search_pending n pending

  unfoldable pub finite_json : Json F → Option (Result (Unit {0}))
  finite_json value = search_pending (count value) (value ∷ [])

  -- The same test by recursion on the value.
  unfoldable mutual
    pub all_finite : Json F → Bool
    all_finite (float x) = is_finite x
    all_finite (arr xs) = all_finite_items xs
    all_finite (obj fs) = all_finite_fields fs
    all_finite _ = true

    pub all_finite_items : Items F → Bool
    all_finite_items nil = true
    all_finite_items (cons x xs) = all_finite x && all_finite_items xs

    pub all_finite_fields : Fields F → Bool
    all_finite_fields end = true
    all_finite_fields (field k v fs) = all_finite v && all_finite_fields fs

  count-extend_items :
      (xs : Items F) (pending : List (Json F))
      → sum_by count (extend_items xs pending) ≡ count_items xs + sum_by count pending
  unfolding count
  count-extend_items nil pending = omega arith
  count-extend_items (cons x xs) pending = omega (arith, count-extend_items xs (x ∷ pending))

  count-extend_values :
      (fs : Fields F) (pending : List (Json F))
      → sum_by count (extend_values fs pending) ≡ count_fields fs + sum_by count pending
  unfolding count
  count-extend_values end pending = omega arith
  count-extend_values (field k v fs) pending = omega (arith, count-extend_values fs (v ∷ pending))

  all-extend_items :
      (xs : Items F) (pending : List (Json F))
      → all all_finite (extend_items xs pending) ≡ (all_finite_items xs && all all_finite pending)
  unfolding all_finite
  all-extend_items nil pending = refl
  all-extend_items (cons x xs) pending = rw (all-extend_items xs (x ∷ pending)) (ground arith)

  all-extend_values :
      (fs : Fields F) (pending : List (Json F))
      → all all_finite (extend_values fs pending) ≡ (all_finite_fields fs && all all_finite pending)
  unfolding all_finite
  all-extend_values end pending = refl
  all-extend_values (field k v fs) pending = rw (all-extend_values fs (v ∷ pending)) (ground arith)

  abbrev pub verdict : Bool → Option (Result (Unit {0}))
  verdict finite = some (if finite then ok tt else err not_finite)

  search_pending_lem :
      (n : ℕ) (pending : List (Json F))
      → sum_by count pending ≤ n
      → search_pending n pending ≡ verdict (all all_finite pending)
  unfolding search_pending count all_finite
  search_pending_lem n [] h = refl
  search_pending_lem zero (null ∷ pending) h = absurd (omega arith)
  search_pending_lem zero (bool b ∷ pending) h = absurd (omega arith)
  search_pending_lem zero (int i ∷ pending) h = absurd (omega arith)
  search_pending_lem zero (str s ∷ pending) h = absurd (omega arith)
  search_pending_lem zero (float x ∷ pending) h = absurd (omega arith)
  search_pending_lem zero (arr xs ∷ pending) h = absurd (omega arith)
  search_pending_lem zero (obj fs ∷ pending) h = absurd (omega arith)
  search_pending_lem (suc n) (float x ∷ pending) h = elim (Bool-cases (is_finite x)) [
    | inl good ↦ rw good (search_pending_lem n pending (omega arith))
    | inr bad ↦ rw bad refl
  ]
  search_pending_lem (suc n) (arr xs ∷ pending) h = rw (sym (all-extend_items xs pending)) (
      search_pending_lem n (extend_items xs pending) (omega (arith, count-extend_items xs pending)))
  search_pending_lem (suc n) (obj fs ∷ pending) h = rw (sym (all-extend_values fs pending)) (
      search_pending_lem n (extend_values fs pending)
        (omega (arith, count-extend_values fs pending)))
  search_pending_lem (suc n) (null ∷ pending) h = search_pending_lem n pending (omega arith)
  search_pending_lem (suc n) (bool b ∷ pending) h = search_pending_lem n pending (omega arith)
  search_pending_lem (suc n) (int i ∷ pending) h = search_pending_lem n pending (omega arith)
  search_pending_lem (suc n) (str s ∷ pending) h = search_pending_lem n pending (omega arith)

  -- The loop of `finite_json` ends on every value, and it accepts the value exactly if the recursive
  -- test does, which asks that each float at any depth is finite; otherwise it raises its ValueError.
  pub finite_json_lem : (value : Json F) → finite_json value ≡ verdict (all_finite value)
  unfolding finite_json
  finite_json_lem value =
      search_pending_lem (count value) (value ∷ []) (omega arith)
      ∙ ap verdict (and_true (all_finite value))
