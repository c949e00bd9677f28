-- ===== src/Models.antt =====
-- models.py (src/vllm_verifier/models.py): JSON values, questions, requests, answers and usage.
pub mod Contract
pub mod Parsing
pub mod Limits
use vllm_verifier.Base.{ℕ, ◌+◌, String, Bool, Option, List}

-- An integer of JSON: `negsuc n` is -(n + 1).
pub data ℤ : Type 0 where
  pos : ℕ → ℤ
  negsuc : ℕ → ℤ

-- `JsonValue`, over the floats `F`. An object is the list of its items.
mutual
  pub data Json (F : Type 0) : Type 0 where
    null : Json F
    bool : Bool → Json F
    int : ℤ → Json F
    float : F → Json F
    str : String → Json F
    arr : Items F → Json F
    obj : Fields F → Json F

  pub data Items (F : Type 0) : Type 0 where
    nil : Items F
    cons : Json F → Items F → Items F

  pub data Fields (F : Type 0) : Type 0 where
    end : Fields F
    field : String → Json F → Fields F → Fields F

module _ (F : Type 0) where
  -- `Content = str | dict | list`
  pub data Content : Type 0 where
    text : String → Content
    object : Fields F → Content
    array : Items F → Content

  pub record NoulCriteria : Type 0 where
    pub true_criterion : Option Content
    pub false_criterion : Option Content

  pub record Choice : Type 0 where
    pub instructions : Option Content
    pub criteria : List (String × Option Content)

  pub record Score : Type 0 where
    pub instructions : Option Content
    pub criteria : List Content

  pub record Noul : Type 0 where
    pub instructions : Option Content
    pub criteria : Option NoulCriteria

  pub data Question : Type 0 where
    choice : Choice → Question
    score : Score → Question
    noul : Noul → Question

  pub record SystemOneRequest : Type 0 where
    pub model : String
    pub state : Content
    pub questions : List (String × Question)

  pub record ChoiceAnswer : Type 0 where
    pub choice : String
    pub probabilities : List (String × F)
    pub confidence : F

  pub record ScoreAnswer : Type 0 where
    pub score : F
    pub probabilities : List (String × F)
    pub confidence : F
    pub legend : List (String × Content)

  pub data Answer : Type 0 where
    choice_answer : ChoiceAnswer → Answer
    score_answer : ScoreAnswer → Answer
    noul_answer : F → Answer

pub record Usage : Type 0 where
  pub input_tokens : ℕ
  pub output_tokens : ℕ

-- `Usage()`
abbrev pub no_usage : Usage
no_usage = record { input_tokens = 0; output_tokens = 0 }

-- `Usage.add`
abbrev pub add_usage : Usage → Usage → Usage
add_usage u v = record {
  input_tokens = u.input_tokens + v.input_tokens;
  output_tokens = u.output_tokens + v.output_tokens;
}

module _ (F : Type 0) where
  pub record SystemOneResponse : Type 0 where
    pub model : String
    pub answers : List (String × Answer F)
    pub usage : Usage

  -- `VisionRequest(SystemOneRequest)`
  pub record VisionRequest : Type 0 where
    pub base : SystemOneRequest F
    pub open base use *
    pub images : List String

  pub record VisionResponse : Type 0 where
    pub base : SystemOneResponse
    pub open base use *
    pub observation : String

-- `Completion` of backend.py
pub record Completion : Type 0 where
  pub text : List ℕ
  pub usage : Usage
  pub finish_reason : String
