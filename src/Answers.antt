-- ===== src/Answers.antt =====
-- The typed answers that verification.py and decision/readout.py both build, with the checks that
-- pydantic makes of `ChoiceAnswer`, `ScoreAnswer` and `NoulAnswer` (models.py).
pub mod Argmax
pub mod Fits
pub mod Numerals
use Prim.Native.Nat.{◌/◌, ◌%◌}
use Prim.Native.String.{◌++◌ as ◌<>◌}
use vllm_verifier.Base.{
  ℕ, zero, suc, String, ◌&&◌, none, some, List, [], ◌∷◌, length, get_elem?, all, zip, values, keys,
  ltb as ltb_ℕ, ◌==◌, if◌then◌else◌,
}
use vllm_verifier.Errors.{Result, ok, err, ◌>>=◌, value_error, validation_error, index_error}
use vllm_verifier.Models.{
  pos, Content, Choice, Score, Answer, choice_answer, score_answer, noul_answer,
}
use vllm_verifier.Floats.{Floats, in_unit}

abbrev pub digit : ℕ → String
digit zero = "0"
digit (suc zero) = "1"
digit (suc (suc zero)) = "2"
digit (suc (suc (suc zero))) = "3"
digit (suc (suc (suc (suc zero)))) = "4"
digit (suc (suc (suc (suc (suc zero))))) = "5"
digit (suc (suc (suc (suc (suc (suc zero)))))) = "6"
digit (suc (suc (suc (suc (suc (suc (suc zero))))))) = "7"
digit (suc (suc (suc (suc (suc (suc (suc (suc zero)))))))) = "8"
digit _ = "9"

unfoldable pub decimal_fuel : ℕ → ℕ → String
decimal_fuel zero n = digit n
decimal_fuel (suc f) n =
    let more = decimal_fuel f (n / 10) <> digit (n % 10) in if ltb_ℕ n 10 then digit n else more

-- `str(i)` of a number: it has at most `i + 1` digits.
unfoldable pub decimal : ℕ → String
unfolding decimal_fuel
decimal i = decimal_fuel i i

-- `{str(i): x for i, x in enumerate(xs, i)}`
abbrev pub numbered {ℓ} : {A : Type ℓ} → ℕ → List A → List (String × A)
numbered i [] = []
numbered i (x ∷ xs) = (decimal i, x) ∷ numbered (suc i) xs

-- `dict(zip(ks, xs, strict=True))`
abbrev pub zip_strict {ℓ} : {A : Type ℓ} → List String → List A → Result (List (String × A))
zip_strict ks xs =
    if length ks == length xs
    then ok (zip ks xs)
    else err (value_error "zip() arguments have different lengths")

module _ (fl : Floats) where
  open fl use {F, f_zero, f_one, of_int, ltb, mul, fsum}

  -- The loop of `max(range(n), key=ps.__getitem__)` after its first item: the first maximum stays.
  unfoldable pub argmax_from : ℕ → F → ℕ → List F → ℕ
  argmax_from best b i [] = best
  argmax_from best b i (p ∷ ps) =
      argmax_from (if ltb b p then i else best) (if ltb b p then p else b) (suc i) ps

  unfoldable pub argmax : List F → Result ℕ
  argmax [] = err (value_error "max() iterable argument is empty")
  argmax (p ∷ ps) = ok (argmax_from 0 p 1 ps)

  -- `max(b, *ps)`
  unfoldable pub max_from : F → List F → F
  max_from b [] = b
  max_from b (p ∷ ps) = max_from (if ltb b p then p else b) ps

  unfoldable pub max_of : List F → Result F
  max_of [] = err (value_error "max() iterable argument is empty")
  max_of (p ∷ ps) = ok (max_from p ps)

  -- `xs[i]`
  abbrev pub item : List String → ℕ → Result String
  item xs i = elim (get_elem? xs i) [ none ↦ err index_error | some x ↦ ok x ]

  -- `max(0.0, min(1.0, x))`: Python keeps its first argument unless the second one is better.
  abbrev pub clamp : F → F
  clamp x = let low = if ltb x f_one then x else f_one in if ltb f_zero low then low else f_zero

  -- `math.fsum(i * p for i, p in enumerate(ps))`
  abbrev pub weighted : ℕ → List F → List F
  weighted i [] = []
  weighted i (p ∷ ps) = mul (of_int (pos i)) p ∷ weighted (suc i) ps

  -- `NoulAnswer(noul=p)`
  abbrev pub new_noul : F → Result (Answer F)
  new_noul p = if in_unit fl p then ok (noul_answer p) else err validation_error

  -- `ChoiceAnswer(choice=c, probabilities=d, confidence=k)`
  abbrev pub new_choice : String → List (String × F) → F → Result (Answer F)
  new_choice c d k =
      if all (in_unit fl) (values d) && in_unit fl k
      then ok (choice_answer (record { choice = c; probabilities = d; confidence = k }))
      else err validation_error

  -- `ScoreAnswer(score=s, probabilities=d, confidence=k, legend=l)`
  abbrev pub new_score : F → List (String × F) → F → List (String × Content F) → Result (Answer F)
  new_score s d k l =
      if fl.is_finite s && all (in_unit fl) (values d) && in_unit fl k
      then ok (score_answer (record { score = s; probabilities = d; confidence = k; legend = l }))
      else err validation_error

  -- The `ChoiceAnswer` of both modules: `chosen` is computed before it.
  unfoldable pub answer_choice : Choice F → List F → F → Result (Answer F)
  answer_choice q ps confidence = do
    distribution ← zip_strict (keys q.criteria) ps
    best ← argmax ps
    chosen ← item (keys q.criteria) best
    new_choice chosen distribution confidence

  -- The `ScoreAnswer` of both modules.
  unfoldable pub answer_score : Score F → List F → F → Result (Answer F)
  answer_score q ps confidence =
      new_score (fsum (weighted 0 ps)) (numbered 0 ps) confidence (numbered 0 q.criteria)
