-- ===== src/Backend.antt =====
-- backend.py (src/vllm_verifier/backend.py): the completion backend over HTTP. The client of httpx
-- and `json.loads` are parameters; `ready` and `close` are left out.
pub mod Protocol
mod Tests
use vllm_verifier.Base.{
  ℕ, ◌+◌, String, Bool, true, false, ◌&&◌, ◌||◌, not, Option, none, some, List, [], ◌∷◌, ◌++◌,
  length, codes, ltb, leb, ◌==◌, str_eq, if◌then◌else◌,
}
use vllm_verifier.Errors.{
  Exception, value_error, invalid_output, validation_error, key_error, index_error, type_error,
  Result, ok, err, ◌>>=◌, ◌>>◌, raise_if, service,
}
use vllm_verifier.Models.{
  Json, null, bool, int, float, str, arr, obj, Items, nil, cons, Fields, end, field, ℤ, pos, Usage,
  Completion,
}
use vllm_verifier.Prompts.{Message}

-- The protocol `Backend`, as far as the service calls it.
pub record Backend : Type 1 where
  pub State : Type 0
  pub complete : State → List Message → Result Completion × State

-- How the chunks of a response end.
pub data StreamEnd : Type 0 where
  finished stream_timeout stream_error : StreamEnd

-- What the client makes of a request: an `httpx.TimeoutException`, another `httpx.HTTPError`, or a
-- response with its chunks.
pub data Exchange : Type 0 where
  timed_out : Exchange
  failed : Exchange
  response : (status_code : ℕ) → (chunks : List (List ℕ)) → StreamEnd → Exchange

-- What the code takes from httpx and `json`: `loads` is `none` for a ValueError or RecursionError,
-- and gives objects without repeated keys.
pub record HttpClient (F : Type 0) : Type 1 where
  pub State : Type 0
  pub post : State → List Message → Exchange × State
  pub loads : List ℕ → Option (Json F)

-- `2 * 1024 * 1024`
abbrev pub max_response_bytes : ℕ
max_response_bytes = 2097152

abbrev pub upstream_timeout : Exception
upstream_timeout = service 504 "upstream_timeout" "Inference server timed out"

abbrev pub upstream_unavailable : Exception
upstream_unavailable = service 502 "upstream_unavailable" "Inference server is unavailable"

abbrev pub protocol_error : Exception
protocol_error = service 502 "upstream_protocol_error" "Invalid inference server response"

-- `async for chunk in response.aiter_bytes(...)`
unfoldable pub read_chunks : (body : List ℕ) → List (List ℕ) → StreamEnd → Result (List ℕ)
read_chunks body [] finished = ok body
read_chunks body [] stream_timeout = err upstream_timeout
read_chunks body [] stream_error = err upstream_unavailable
read_chunks body (chunk ∷ chunks) e =
    let rest = read_chunks (body ++ chunk) chunks e in
    if ltb max_response_bytes (length (body ++ chunk))
    then err (service 502 "upstream_response_too_large" "Response exceeded limit")
    else rest

-- The two tests of the status.
unfoldable pub check_status : ℕ → Result (Unit {0})
check_status status = do
  raise_if (status == 429 || status == 503 || status == 529)
      (service 529 "upstream_overloaded" "Inference server is overloaded")
  raise_if (not (leb 200 status && leb status 299))
      (service 502 "upstream_error" "Inference server rejected the request")

module _ {F : Type 0} where
  -- `value[key]`, for a string key
  abbrev pub value_of : String → Fields F → Result (Json F)
  value_of k end = err key_error
  value_of k (field j v fs) = if str_eq j k then ok v else value_of k fs

  abbrev pub member : String → Json F → Result (Json F)
  member k (obj fs) = value_of k fs
  member k _ = err type_error

  -- `value[0]`
  abbrev pub first_item : Json F → Result (Json F)
  first_item (arr nil) = err index_error
  first_item (arr (cons x xs)) = ok x
  first_item (str String.[]) = err index_error
  first_item (str (String.◌∷◌ c s)) = ok (str (String.◌∷◌ c String.[]))
  first_item (obj fs) = err key_error
  first_item _ = err type_error

  -- `isinstance(value, str)`
  abbrev pub as_text : Json F → Result String
  as_text (str s) = ok s
  as_text _ = err (value_error "missing completion")

  -- The strict validation of a field of `Usage`.
  abbrev pub as_count : Json F → Result ℕ
  as_count (int (pos n)) = ok n
  as_count _ = err validation_error

  -- The `try` body of `VLLMBackend.complete`.
  unfoldable pub parse_completion : Json F → Result Completion
  parse_completion raw = do
    choices ← member "choices" raw
    choice ← first_item choices
    message ← member "message" choice
    content_value ← member "content" message
    finish_value ← member "finish_reason" choice
    content ← as_text content_value
    finish ← as_text finish_value
    usage ← member "usage" raw
    prompt ← member "prompt_tokens" usage
    completion ← member "completion_tokens" usage
    input_tokens ← as_count prompt
    output_tokens ← as_count completion
    ok (record {
      text = codes content;
      usage = record { input_tokens = input_tokens; output_tokens = output_tokens };
      finish_reason = finish;
    })

-- `except (ValueError, KeyError, IndexError, TypeError, ValidationError)`
unfoldable pub as_protocol_error {ℓ} : {A : Type ℓ} → Result A → Result A
as_protocol_error (ok a) = ok a
as_protocol_error (err (value_error m)) = err protocol_error
as_protocol_error (err (invalid_output m)) = err protocol_error
as_protocol_error (err validation_error) = err protocol_error
as_protocol_error (err key_error) = err protocol_error
as_protocol_error (err index_error) = err protocol_error
as_protocol_error (err type_error) = err protocol_error
as_protocol_error (err other) = err other

module _ {F : Type 0} (client : HttpClient F) where
  -- `json.loads(data)` under the last `except` clause of `_request_json`.
  abbrev pub decode : Option (Json F) → Result (Json F)
  decode none = err protocol_error
  decode (some raw) = ok raw

  -- `_request_json`, from what the client makes of the request.
  unfoldable pub request_json : Exchange → Result (Json F)
  request_json timed_out = err upstream_timeout
  request_json failed = err upstream_unavailable
  request_json (response status_code chunks e) = do
    check_status status_code
    body ← read_chunks [] chunks e
    decode (client.loads body)

  -- `VLLMBackend.complete`
  unfoldable pub complete : client.State → List Message → Result Completion × client.State
  complete s messages =
      let (exchange, s') = client.post s messages in
      (do raw ← request_json exchange; as_protocol_error (parse_completion raw), s')

  abbrev pub vllm_backend : Backend
  vllm_backend = record { State = client.State; complete = complete }
