-- ===== src/Decision/Rows.antt =====
-- `content` and `records` of decision/runtime.py: the rows that the candidate model reads.
use Prim.Native.String.{◌++◌ as ◌<>◌}
use vllm_verifier.Base.{
  ℕ, String, Bool, Option, none, some, List, [], ◌∷◌, ◌++◌, length, enumerate, ltb,
}
use vllm_verifier.Errors.{Result, ok, ◌>>=◌, ◌>>◌, raise_if, value_error, traverse}
use vllm_verifier.Models.{
  Content, text, Question, choice, score, noul, NoulCriteria, SystemOneRequest,
}

-- What the code takes from `json` and `str`.
pub record RowWriter (F : Type 0) : Type 0 where
  -- `json.dumps(value, ensure_ascii=False, sort_keys=True, separators=(",", ":"))`
  pub dumps_sorted : Content F → String
  -- `not result.strip()`
  pub is_blank : String → Bool

pub data Candidates : Type 0 where
  criteria options : List (String × String) → Candidates
  levels : List (ℕ × String) → Candidates

pub record Row : Type 0 where
  pub id : String
  pub state_text : String
  pub kind : String
  pub question_text : String
  pub candidates : Candidates

module _ {F : Type 0} (writer : RowWriter F) where
  open writer use {dumps_sorted, is_blank}

  abbrev pub text_or : Option (Content F) → String → String
  text_or none default = default
  text_or (some (text t)) default = t
  text_or (some value) default = dumps_sorted value

  unfoldable pub content : Option (Content F) → String → Result String
  content value default = do
    raise_if (is_blank (text_or value default))
        (value_error "Decision input text must not be empty")
    ok (text_or value default)

  -- A criterion of a noul question, if it is there.
  abbrev pub criterion : String → Option (Content F) → Result (List (String × String))
  criterion key none = ok []
  criterion key (some value) = do t ← content (some value) ""; ok ((key, t) ∷ [])

  abbrev pub noul_criteria : Option (NoulCriteria F) → Result (List (String × String))
  noul_criteria none = ok []
  noul_criteria (some c) = do
    negative ← criterion "false_criterion" c.false_criterion
    positive ← criterion "true_criterion" c.true_criterion
    ok (negative ++ positive)

  abbrev pub option_text : String × Option (Content F) → Result (String × String)
  option_text (key, none) = ok (key, key)
  option_text (key, some value) = do t ← content (some value) ""; ok (key, key <> (": " <> t))

  abbrev pub level_text : ℕ × Content F → Result (ℕ × String)
  level_text (i, value) = do t ← content (some value) ""; ok (i, t)

  abbrev pub few : ℕ → Result (Unit {0})
  few n =
      raise_if (ltb n 2) (value_error "Kai requires at least two Choice candidates or Score levels")

  -- The loop over the questions, for one of them.
  unfoldable pub row_of : String → String × Question F → Result Row
  row_of state (qid, noul q) = do
    t ← content q.instructions "Evaluate the candidates against the state."
    found ← noul_criteria q.criteria
    ok (record {
      id = qid;
      state_text = state;
      kind = "Noul";
      question_text = t;
      candidates = criteria found;
    })
  row_of state (qid, choice q) = do
    t ← content q.instructions "Evaluate the candidates against the state."
    few (length q.criteria)
    found ← traverse option_text q.criteria
    ok (record {
      id = qid;
      state_text = state;
      kind = "Choice";
      question_text = t;
      candidates = options found;
    })
  row_of state (qid, score q) = do
    t ← content q.instructions "Evaluate the candidates against the state."
    few (length q.criteria)
    found ← traverse level_text (enumerate 0 q.criteria)
    ok (record {
      id = qid;
      state_text = state;
      kind = "Score";
      question_text = t;
      candidates = levels found;
    })

  unfoldable pub records : SystemOneRequest F → Result (List Row)
  records request = do
    state ← content (some request.state) ""
    traverse (row_of state) request.questions
