-- ===== src/Samples.antt =====
-- A concrete setting for the examples: floats in thousandths, a reader of two-number texts, a
-- tokenizer and a runtime.
use Prim.Native.Nat.{◌/◌}
use vllm_verifier.Base.{
  ℕ, suc, ◌+◌, ◌-◌, ◌*◌, min, ◌≤◌, ◌≡◌, refl, true, none, some, List, [], ◌∷◌, map, arith, Text,
  All, codes, ltb, leb, ◌==◌, if◌then◌else◌,
}
use vllm_verifier.Errors.{ok}
use vllm_verifier.Models.{
  pos, negsuc, null, float, arr, obj, cons, nil, end, field, Completion, Choice, Score, Noul,
  Question, choice, score, noul, text, SystemOneRequest,
}
use vllm_verifier.Verification.{JsonReader}
use vllm_verifier.Prompts.{JsonWriter}
use vllm_verifier.Engine.{EngineConfig, IsConfig, WorkItem, Runtime, DecisionEngine}
use vllm_verifier.Floats.{Floats, FloatLaws}

-- `math.fsum` of thousandths
abbrev pub total : List ℕ → ℕ
total [] = 0
total (p ∷ ps) = p + total ps

-- Numbers in thousandths; the distance stands for the difference, of which the code takes the
-- absolute value or clamps it.
abbrev pub milli : Floats
milli = record {
  F = ℕ;
  f_zero = 0;
  f_one = 1000;
  f_hundredth = 10;
  f_2e_5 = 0;
  of_int = λ i. elim i [ pos n ↦ n * 1000 | negsuc n ↦ 0 ];
  ltb = ltb;
  leb = leb;
  eqb = ◌==◌;
  is_finite = λ x. true;
  sub = λ a b. (a - b) + (b - a);
  mul = λ a b. a * b / 1000;
  quot = λ a b. min 1000 (a * 1000 / b);
  neg = λ a. a;
  abs = λ a. a;
  log = λ a. if leb a 1000 then 0 else 693;
  fsum = total;
}

total-ge : (t : ℕ) (ps : List ℕ) → total ps ≤ t → All (λ p. leb p t ≡ true) ps
total-ge t [] h = tt
total-ge t (p ∷ ps) h = (ground arith, total-ge t ps (omega arith))

pub milli_laws : FloatLaws milli
milli_laws = record {
  not_lt_trans = λ a b c fin h k. ground arith;
  lt_asymm = λ a b h. ground arith;
  zero_in_unit = refl;
  one_in_unit = refl;
  pos_of_nonneg = λ a h k. ground arith;
  fsum_nonneg = λ ps h. ground arith;
  fsum_ge = λ ps h. total-ge (total ps) ps (omega arith);
  near_one = λ t low near. refl;
  quot_in_unit = λ p t fin low le po. ground arith;
  between_in_unit = λ a h k. ground arith;
  log_ne_zero = λ n h. ground arith;
  of_int_zero = refl;
  of_int_one = refl;
}

-- A text of one number is an object with `noul`, one of two numbers an object with `probabilities`.
abbrev pub milli_reader : JsonReader ℕ
milli_reader = record {
  scan = λ t. elim t [
    | [] ↦ none
    | p ∷ ps ↦ elim ps [
      | [] ↦ some (obj (field "noul" (float p) end))
      | q ∷ qs ↦ elim qs [
        | [] ↦ some (obj (field "probabilities" (arr (cons (float p) (cons (float q) nil))) end))
        | _ ↦ none
      ]
    ]
  ];
  is_space = λ c. c == 32;
}

abbrev pub milli_writer : JsonWriter ℕ
milli_writer = record {
  dumps = λ j. codes "{}";
  dumps_compact = λ j. codes "{}";
  dump_question = λ q. null;
}

abbrev pub plan : Choice ℕ
plan = record { instructions = none; criteria = ("yes", none) ∷ ("no", none) ∷ [] }

abbrev pub grade : Score ℕ
grade = record { instructions = none; criteria = text "low" ∷ text "high" ∷ [] }

abbrev pub doubt : Noul ℕ
doubt = record { instructions = none; criteria = none }

abbrev pub good_text : Question ℕ → Text
good_text (noul q) = 250 ∷ []
good_text _ = 400 ∷ 600 ∷ []

-- In its first call the runtime writes nothing that can be read.
abbrev pub completion_of : ℕ → WorkItem ℕ → Completion
completion_of calls job = record {
  text = if calls == 0 then [] else good_text job.question;
  usage = record { input_tokens = 3; output_tokens = 2 };
  finish_reason = "stop";
}

abbrev pub toy_runtime : Runtime ℕ
toy_runtime = record {
  State = ℕ;
  encode = λ ms. ok (7 ∷ 8 ∷ 9 ∷ []);
  generate = λ calls jobs. (ok (map (completion_of calls) jobs), suc calls);
}

abbrev pub small_config : EngineConfig
small_config = record {
  max_batch_questions = 2;
  max_batch_tokens = 1000;
  max_model_len = 300;
  output_tokens = 256;
  validation_retries = 1;
  max_requests = 4;
}

pub small_config-IsConfig : IsConfig small_config
small_config-IsConfig = record {
  questions_ge = omega arith;
  questions_le = omega arith;
  tokens_ge = omega arith;
  model_len_ge = omega arith;
  output_ge = omega arith;
  output_le = omega arith;
  retries_le = omega arith;
  requests_ge = omega arith;
  requests_le = omega arith;
}

abbrev pub toy_engine : DecisionEngine
toy_engine = record {
  floats = milli;
  reader = milli_reader;
  writer = milli_writer;
  runtime = toy_runtime;
  model = "toy";
  config = small_config;
}

-- Two requests, of two questions and of one.
abbrev pub two_requests : List (SystemOneRequest ℕ)
two_requests =
    record {
      model = "jev-latest";
      state = text "a state";
      questions = ("plan", choice plan) ∷ ("doubt", noul doubt) ∷ [];
    }
    ∷ record { model = "toy"; state = text "another"; questions = ("grade", score grade) ∷ [] }
    ∷ []

abbrev pub some_job : WorkItem ℕ
some_job = record {
  request_index = 0;
  question_id = "plan";
  question = choice plan;
  token_ids = 7 ∷ 8 ∷ 9 ∷ [];
  output_tokens = 256;
  attempt = 0;
}
