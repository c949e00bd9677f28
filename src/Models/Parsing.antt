-- ===== src/Models/Parsing.antt =====
-- The validation of a request's JSON that the classes of models.py (src/vllm_verifier/models.py)
-- declare: strict types, no other keys, the limits on lengths, and `finite_json` first. An object is
-- a Python dictionary, so no key stands twice. All errors of pydantic are one `ValidationError`.
use vllm_verifier.Base.{
  ℕ, String, Bool, true, ◌&&◌, not, Option, none, some, List, [], ◌∷◌, codes, elem, leb, length,
  str_eq, if◌then◌else◌,
}
use vllm_verifier.Errors.{Result, ok, err, ◌>>=◌, ◌>>◌, raise_if, validation_error}
use vllm_verifier.Models.{
  Json, null, str, arr, obj, Items, nil, cons, Fields, end, field, Content, text, object, array,
  NoulCriteria, Question, choice, score, noul, SystemOneRequest, VisionRequest,
}
use vllm_verifier.Models.Contract.{finite_json}

-- `Field(min_length=lo, max_length=hi)`
abbrev pub has_length : ℕ → ℕ → ℕ → Bool
has_length lo hi n = leb lo n && leb n hi

-- `Identifier`
abbrev pub is_identifier : String → Bool
is_identifier k = has_length 1 256 (length (codes k))

abbrev pub check : Bool → Result (Unit {0})
check passed = raise_if (not passed) validation_error

-- The fields of a question and of the two requests.
abbrev pub question_keys : List String
question_keys = "type" ∷ "instructions" ∷ "criteria" ∷ []

abbrev pub request_keys : List String
request_keys = "model" ∷ "state" ∷ "questions" ∷ []

abbrev pub vision_keys : List String
vision_keys = "model" ∷ "state" ∷ "questions" ∷ "images" ∷ []

module _ {F : Type 0} where
  -- The value of a key.
  abbrev pub get : String → Fields F → Option (Json F)
  get k end = none
  get k (field j v fs) = if str_eq j k then some v else get k fs

  -- `extra="forbid"`
  abbrev pub has_only : List String → Fields F → Bool
  has_only known end = true
  has_only known (field k v fs) = elem k known && has_only known fs

  -- `Content`
  abbrev pub content_of : Json F → Result (Content F)
  content_of (str s) = ok (text s)
  content_of (obj fs) = ok (object fs)
  content_of (arr xs) = ok (array xs)
  content_of _ = err validation_error

  -- `Content | None`
  abbrev pub content_or_none : Json F → Result (Option (Content F))
  content_or_none null = ok none
  content_or_none v = do c ← content_of v; ok (some c)

  -- `Content | None = None`
  abbrev pub optional : Option (Json F) → Result (Option (Content F))
  optional none = ok none
  optional (some v) = content_or_none v

  -- A field without a default.
  abbrev pub required : Option (Json F) → Result (Json F)
  required none = err validation_error
  required (some v) = ok v

  abbrev pub string_of : Json F → Result String
  string_of (str s) = ok s
  string_of _ = err validation_error

  abbrev pub fields_of : Json F → Result (Fields F)
  fields_of (obj fs) = ok fs
  fields_of _ = err validation_error

  abbrev pub items_of : Json F → Result (Items F)
  items_of (arr xs) = ok xs
  items_of _ = err validation_error

  -- The items of `dict[Identifier, Content | None]`.
  unfoldable pub options_of : Fields F → Result (List (String × Option (Content F)))
  options_of end = ok []
  options_of (field k v fs) = do
    check (is_identifier k)
    c ← content_or_none v
    cs ← options_of fs
    ok ((k, c) ∷ cs)

  -- `list[Content]`
  unfoldable pub levels_of : Items F → Result (List (Content F))
  levels_of nil = ok []
  levels_of (cons v xs) = do c ← content_of v; cs ← levels_of xs; ok (c ∷ cs)

  -- `list[str]`
  unfoldable pub strings_of : Items F → Result (List String)
  strings_of nil = ok []
  strings_of (cons v xs) = do s ← string_of v; ss ← strings_of xs; ok (s ∷ ss)

  -- `NoulCriteria | None = None`
  abbrev pub noul_criteria_of : Option (Json F) → Result (Option (NoulCriteria F))
  noul_criteria_of none = ok none
  noul_criteria_of (some null) = ok none
  noul_criteria_of (some v) = do
    fs ← fields_of v
    check (has_only ("true" ∷ "false" ∷ []) fs)
    yes_content ← optional (get "true" fs)
    no_content ← optional (get "false" fs)
    ok (some (record { true_criterion = yes_content; false_criterion = no_content }))

  abbrev pub choice_of : Fields F → Option (Content F) → Result (Question F)
  choice_of fs instructions = do
    v ← required (get "criteria" fs)
    criteria ← fields_of v
    cs ← options_of criteria
    check (has_length 1 255 (length cs))
    ok (choice (record { instructions = instructions; criteria = cs }))

  abbrev pub score_of : Fields F → Option (Content F) → Result (Question F)
  score_of fs instructions = do
    v ← required (get "criteria" fs)
    criteria ← items_of v
    cs ← levels_of criteria
    check (has_length 1 10 (length cs))
    ok (score (record { instructions = instructions; criteria = cs }))

  abbrev pub noul_of : Fields F → Option (Content F) → Result (Question F)
  noul_of fs instructions = do
    criteria ← noul_criteria_of (get "criteria" fs)
    ok (noul (record { instructions = instructions; criteria = criteria }))

  -- `Field(discriminator="type")`
  unfoldable pub tagged : String → Fields F → Option (Content F) → Result (Question F)
  tagged tag fs instructions =
      if str_eq tag "choice"
      then choice_of fs instructions
      else if str_eq tag "score"
      then score_of fs instructions
      else if str_eq tag "noul"
      then noul_of fs instructions
      else err validation_error

module _ {F : Type 0} (is_finite : F → Bool) where
  -- A `ValueError` of the validator is a validation error; that the fuel lasts is a theorem.
  abbrev pub as_validation : Option (Result (Unit {0})) → Result (Unit {0})
  as_validation (some (ok passed)) = ok passed
  as_validation _ = err validation_error

  -- The validator of `Contract`, which every class runs first.
  abbrev pub check_finite : Json F → Result (Unit {0})
  check_finite v = as_validation (finite_json is_finite v)

  unfoldable pub question_of : Json F → Result (Question F)
  question_of v = do
    fs ← fields_of v
    t ← required (get "type" fs)
    tag ← string_of t
    check_finite v
    check (has_only question_keys fs)
    instructions ← optional (get "instructions" fs)
    tagged tag fs instructions

  -- The items of `dict[Identifier, Question]`.
  unfoldable pub questions_of : Fields F → Result (List (String × Question F))
  questions_of end = ok []
  questions_of (field k v fs) = do
    check (is_identifier k)
    q ← question_of v
    qs ← questions_of fs
    ok ((k, q) ∷ qs)

  -- The fields of `SystemOneRequest`.
  unfoldable pub request_of : Fields F → Result (SystemOneRequest F)
  request_of fs = do
    m ← required (get "model" fs)
    model ← string_of m
    check (is_identifier model)
    s ← required (get "state" fs)
    state ← content_of s
    q ← required (get "questions" fs)
    items ← fields_of q
    qs ← questions_of items
    check (has_length 1 64 (length qs))
    ok (record { model = model; state = state; questions = qs })

  -- `SystemOneRequest.model_validate`
  unfoldable pub validate_request : Json F → Result (SystemOneRequest F)
  validate_request v = do
    check_finite v
    fs ← fields_of v
    check (has_only request_keys fs)
    request_of fs

  -- `VisionRequest.model_validate`
  unfoldable pub validate_vision : Json F → Result (VisionRequest F)
  validate_vision v = do
    check_finite v
    fs ← fields_of v
    check (has_only vision_keys fs)
    request ← request_of fs
    i ← required (get "images" fs)
    items ← items_of i
    images ← strings_of items
    check (has_length 1 4 (length images))
    ok (record { base = request; images = images })
