-- ===== src/Verification/Rejects.antt =====
-- What `verify` raises: `InvalidOutput`, and nothing else.
use vllm_verifier.Base.{
  ℕ, ◌≡◌, refl, inl, inr, String, Option, some, none, Bool, true, false, ◌||◌, List, [], ◌∷◌, arith,
  length, Text, All, strip, Bool-cases, ◌==◌, not,
}
use vllm_verifier.Errors.{
  invalid_output, Result, ok, err, ◌>>=◌, traverse, raise_if, raise_if-eq-ok,
}
use vllm_verifier.Models.{
  pos, negsuc, Json, null, bool, int, float, str, arr, obj, Items, nil, cons, Fields, end, field,
}
use vllm_verifier.Floats.{Floats, in_unit}
use vllm_verifier.Verification.{
  JsonReader, strict_json, probability, bad_total, divide, listed, normalised, hook, hook_items,
  hook_fields, unique_object, unique_from, has_key, put_last, unfence, loads, as_invalid,
}

-- A result that is a value, or raises `InvalidOutput`.
abbrev pub OnlyInvalid {ℓ} : {A : Type ℓ} → Result A → Type 0
OnlyInvalid (ok a) = Unit
OnlyInvalid (err (invalid_output m)) = Unit
OnlyInvalid (err _) = ⊥

pub OnlyInvalid-bind {ℓ κ} :
    {A : Type ℓ} {B : Type κ} (m : Result A) (f : A → Result B)
    → OnlyInvalid m
    → ((a : A) → m ≡ ok a → OnlyInvalid (f a))
    → OnlyInvalid (m >>= f)
OnlyInvalid-bind (ok a) f h k = k a refl
OnlyInvalid-bind (err (invalid_output m)) f h k = tt
OnlyInvalid-bind (err _) f h k = h

OnlyInvalid-traverse {ℓ κ} :
    {A : Type ℓ} {B : Type κ} (f : A → Result B) (xs : List A)
    → All (λ x. OnlyInvalid (f x)) xs
    → OnlyInvalid (traverse f xs)
OnlyInvalid-traverse f [] h = tt
OnlyInvalid-traverse f (x ∷ xs) h =
    OnlyInvalid-bind (f x) _ h.0
      λ y _. OnlyInvalid-bind (traverse f xs) _ (OnlyInvalid-traverse f xs h.1) λ ys _. tt

pub OnlyInvalid-raise_if : (b : Bool) (m : String) → OnlyInvalid (raise_if b (invalid_output m))
OnlyInvalid-raise_if true m = tt
OnlyInvalid-raise_if false m = tt

module _ {F : Type 0} where
  OnlyInvalid-unique_from : (result pairs : Fields F) → OnlyInvalid (unique_from result pairs)
  unfolding unique_from
  OnlyInvalid-unique_from result end = tt
  OnlyInvalid-unique_from result (field k v pairs) = elim (Bool-cases (has_key k result)) [
    | inl twice ↦ rw twice tt
    | inr once ↦ rw once (OnlyInvalid-unique_from (put_last result k v) pairs)
  ]

  OnlyInvalid-unique_object : (fs : Fields F) → OnlyInvalid (unique_object fs)
  unfolding unique_object
  OnlyInvalid-unique_object fs = OnlyInvalid-unique_from end fs

  mutual
    unfolding hook

    OnlyInvalid-hook : (j : Json F) → OnlyInvalid (hook j)
    OnlyInvalid-hook null = tt
    OnlyInvalid-hook (bool b) = tt
    OnlyInvalid-hook (int i) = tt
    OnlyInvalid-hook (float x) = tt
    OnlyInvalid-hook (str s) = tt
    OnlyInvalid-hook (arr xs) =
        OnlyInvalid-bind (hook_items xs) _ (OnlyInvalid-hook_items xs) λ ys _. tt
    OnlyInvalid-hook (obj fs) =
        OnlyInvalid-bind (hook_fields fs) _ (OnlyInvalid-hook_fields fs)
          λ gs _. OnlyInvalid-bind (unique_object gs) _ (OnlyInvalid-unique_object gs) λ hs _. tt

    OnlyInvalid-hook_items : (xs : Items F) → OnlyInvalid (hook_items xs)
    OnlyInvalid-hook_items nil = tt
    OnlyInvalid-hook_items (cons x xs) =
        OnlyInvalid-bind (hook x) _ (OnlyInvalid-hook x)
          λ y _. OnlyInvalid-bind (hook_items xs) _ (OnlyInvalid-hook_items xs) λ ys _. tt

    OnlyInvalid-hook_fields : (fs : Fields F) → OnlyInvalid (hook_fields fs)
    OnlyInvalid-hook_fields end = tt
    OnlyInvalid-hook_fields (field k v fs) =
        OnlyInvalid-bind (hook v) _ (OnlyInvalid-hook v)
          λ w _. OnlyInvalid-bind (hook_fields fs) _ (OnlyInvalid-hook_fields fs) λ gs _. tt

OnlyInvalid-as_invalid {ℓ} :
    {A : Type ℓ} (m : Result A) → OnlyInvalid m → OnlyInvalid (as_invalid m)
OnlyInvalid-as_invalid (ok a) h = tt
OnlyInvalid-as_invalid (err (invalid_output m)) h = tt
OnlyInvalid-as_invalid (err _) h = absurd h

module _ (fl : Floats) (reader : JsonReader fl.F) where
  open fl use {F, f_zero, f_one, f_hundredth, abs, sub, fsum, eqb, ltb, leb, is_finite, quot}

  pub OnlyInvalid-strict_json : (text : Text) → OnlyInvalid (strict_json fl reader text)
  unfolding strict_json loads
  OnlyInvalid-strict_json text =
      OnlyInvalid-as_invalid (loads fl reader t) (scanned (reader.scan t) refl)
    where
      t : Text
      t = unfence (strip reader.is_space text)

      scanned : (o : Option (Json F)) → reader.scan t ≡ o → OnlyInvalid (loads fl reader t)
      scanned none e = rw (e, loads) tt
      scanned (some raw) e = rw (e, loads) (OnlyInvalid-hook raw)

  pub OnlyInvalid-probability : (v : Json F) → OnlyInvalid (probability fl reader v)
  unfolding probability
  OnlyInvalid-probability (int (pos n)) = elim (Bool-cases (n == 0 || n == 1)) [
    | inl good ↦ rw good tt
    | inr bad ↦ rw bad tt
  ]
  OnlyInvalid-probability (float p) = elim (Bool-cases (in_unit fl p)) [
    | inl good ↦ rw good tt
    | inr bad ↦ rw bad tt
  ]
  OnlyInvalid-probability (int (negsuc n)) = tt
  OnlyInvalid-probability _ = tt

  probabilities-OnlyInvalid :
      (vs : List (Json F)) → All (λ v. OnlyInvalid (probability fl reader v)) vs
  probabilities-OnlyInvalid [] = tt
  probabilities-OnlyInvalid (v ∷ vs) = (OnlyInvalid-probability v, probabilities-OnlyInvalid vs)

  divide_defined :
      (total : F) (ps : List F)
      → eqb total f_zero ≡ false
      → All (λ p. OnlyInvalid (divide fl reader total p)) ps
  divide_defined total [] h = tt
  divide_defined total (p ∷ ps) h = (rw h tt, divide_defined total ps h)

  pub bad_total-zero : (total : F) → bad_total fl reader total ≡ false → eqb total f_zero ≡ false
  bad_total-zero total h = ground arith

  pub bad_total-near :
      (total : F)
      → bad_total fl reader total ≡ false
      → ltb f_hundredth (abs (sub total f_one)) ≡ false
  bad_total-near total h = ground arith

  pub OnlyInvalid-normalised :
      (size : ℕ) (vs : List (Json F)) → OnlyInvalid (normalised fl reader size vs)
  unfolding normalised
  OnlyInvalid-normalised size vs =
      OnlyInvalid-bind (raise_if (not (length vs == size)) _) _
        (OnlyInvalid-raise_if (not (length vs == size)) _)
        λ _ _.
          OnlyInvalid-bind (traverse (probability fl reader) vs) _
            (OnlyInvalid-traverse (probability fl reader) vs (probabilities-OnlyInvalid vs))
            λ ps _.
              OnlyInvalid-bind (raise_if (bad_total fl reader (fsum ps)) _) _
                (OnlyInvalid-raise_if (bad_total fl reader (fsum ps)) _)
                λ _ good.
                  OnlyInvalid-traverse (divide fl reader (fsum ps)) ps (
                    divide_defined (fsum ps) ps
                      (bad_total-zero (fsum ps) (raise_if-eq-ok _ _ good)))

  pub OnlyInvalid-listed : (o : Option (Json F)) → OnlyInvalid (listed fl reader o)
  unfolding listed
  OnlyInvalid-listed none = tt
  OnlyInvalid-listed (some (arr xs)) = tt
  OnlyInvalid-listed (some _) = tt
