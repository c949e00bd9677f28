-- ===== src/Verification/Tests.antt =====
-- The verifier on concrete texts.
use vllm_verifier.Base.{ℕ, ◌≡◌, refl, [], ◌∷◌, arith, some, strip}
use vllm_verifier.Errors.{ok}
use vllm_verifier.Models.{Answer, choice, choice_answer, Json, obj, field, end, float}
use vllm_verifier.Answers.{answer_choice, argmax, argmax_from}
use vllm_verifier.Answers.Fits.{Fits}
use vllm_verifier.Samples.{milli, milli_laws, milli_reader, plan}
use vllm_verifier.Verification.{
  verify, strict_json, loads, unique_object, decide_raw, noul_value, probability, distribution,
  listed, normalised, confidence_of, entropy_terms, has_key, hook, only_key, put_last, unfence,
  unique_from,
}
use vllm_verifier.Verification.Sound.{verify-Fits}
use vllm_verifier.Verification.Rejects.{OnlyInvalid}
use vllm_verifier.Verification.UniqueKeys.{HasUniqueKeys, strict_json-HasUniqueKeys}
use vllm_verifier.Verification.Builds.{verify-OnlyInvalid}

-- What the verifier makes of the probabilities 0.3 and 0.7.
abbrev no_answer : Answer ℕ
no_answer =
    choice_answer
      (record { choice = "no"; probabilities = ("yes", 300) ∷ ("no", 700) ∷ []; confidence = 1000 })

accepts : verify milli milli_reader (300 ∷ 700 ∷ []) (choice plan) ≡ ok no_answer
unfolding verify strict_json loads unique_object decide_raw noul_value probability distribution
    listed normalised confidence_of entropy_terms has_key hook only_key put_last unfence unique_from
    answer_choice argmax argmax_from
accepts = refl

verify-Fits_example : Fits milli (choice plan) no_answer
verify-Fits_example =
    verify-Fits milli milli_reader milli_laws (300 ∷ 700 ∷ []) (choice plan) no_answer accepts

verify-OnlyInvalid_example : OnlyInvalid (verify milli milli_reader (300 ∷ 900 ∷ []) (choice plan))
verify-OnlyInvalid_example =
    verify-OnlyInvalid milli milli_reader milli_laws (λ ps few h. refl) (300 ∷ 900 ∷ [])
      (choice plan) (omega arith)

abbrev noul_object : Json ℕ
noul_object = obj (field "noul" (float 250) end)

reads : strict_json milli milli_reader (32 ∷ 250 ∷ []) ≡ ok noul_object
unfolding strict_json loads unique_object has_key hook put_last unfence unique_from
reads = refl

strict_json-HasUniqueKeys_example :
    (milli_reader.scan (unfence (strip milli_reader.is_space (32 ∷ 250 ∷ []))) ≡ some noul_object)
    × HasUniqueKeys noul_object
strict_json-HasUniqueKeys_example =
    strict_json-HasUniqueKeys milli milli_reader (32 ∷ 250 ∷ []) noul_object reads
