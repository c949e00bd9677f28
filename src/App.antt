-- ===== src/App.antt =====
-- app.py (src/vllm_verifier/app.py): the routes, the handlers of exceptions, the deadline and the
-- lifespan. FastAPI calls a handler with the validated body; the texts of the descriptions, the details
-- of a validation error and the metrics are left out.
pub mod Body
pub mod Replies
pub mod Served
mod Tests
use Prim.Native.String.{◌++◌ as ◌<>◌}
use vllm_verifier.Base.{
  ℕ, String, Bool, true, false, Option, none, some, List, [], ◌∷◌, ◌++◌, Text, map, elem, ◌==◌,
  str_eq, if◌then◌else◌,
}
use vllm_verifier.Errors.{Exception, service_error, ServiceError, Result, ok, err, service}
use vllm_verifier.Models.{
  Json, Completion, SystemOneRequest, SystemOneResponse, VisionRequest, VisionResponse,
}
use vllm_verifier.Models.Parsing.{validate_request, validate_vision}
use vllm_verifier.Floats.{Floats}
use vllm_verifier.Verification.{JsonReader}
use vllm_verifier.Prompts.{JsonWriter, Message}
use vllm_verifier.Vision.{ImageLibrary}
use vllm_verifier.Service.Tasks.{ServiceSettings, TaskEvent, evaluate_tasks}
use vllm_verifier.Service.Observe.{evaluate_vision}

-- The body of a reply; the last one is that of an error.
pub data ReplyBody (F : Type 0) : Type 0 where
  decision : SystemOneResponse F → ReplyBody F
  observation : VisionResponse F → ReplyBody F
  refusal : (code message request_id : String) → ReplyBody F

-- A response, with its status and its `Retry-After`.
pub record HttpReply (F : Type 0) : Type 0 where
  pub status : ℕ
  pub retry_after : Option String
  pub body : ReplyBody F

-- An exception without a handler is left to the server.
pub data Handled (F : Type 0) : Type 0 where
  replied : HttpReply F → Handled F
  unhandled : Exception → Handled F

-- The two routes that decide, with the body as FastAPI reads it: `none` if it is not JSON.
pub data Call (F : Type 0) : Type 0 where
  system_one vision_one : Option (Json F) → Call F

module _ {F : Type 0} where
  -- `service_error`
  abbrev pub service_error_reply : String → ServiceError → HttpReply F
  service_error_reply request_id e = record {
    status = e.status;
    retry_after = if e.status == 529 then some "1" else none;
    body = refusal e.code e.message request_id;
  }

  -- `validation_error`
  abbrev pub validation_error_reply : String → HttpReply F
  validation_error_reply request_id = record {
    status = 422;
    retry_after = none;
    body = refusal "validation_error" "Request failed validation" request_id;
  }

  -- The handlers of exceptions, for what a route raises.
  abbrev pub raised : String → Exception → Handled F
  raised request_id (service_error e) = replied (service_error_reply request_id e)
  raised request_id x = unhandled x

  abbrev pub success : ReplyBody F → Handled F
  success body = replied (record { status = 200; retry_after = none; body = body })

  abbrev pub reply_of {ℓ} : {A : Type ℓ} → String → (A → ReplyBody F) → Result A → Handled F
  reply_of request_id body (ok a) = success (body a)
  reply_of request_id body (err x) = raised request_id x

  -- FastAPI validates the body before it calls the route.
  abbrev pub with_valid {ℓ} : {A : Type ℓ} → String → Result A → (A → Handled F) → Handled F
  with_valid request_id (err x) route = replied (validation_error_reply request_id)
  with_valid request_id (ok a) route = route a

  abbrev pub with_body {ℓ} :
      {A : Type ℓ} → String → (Json F → Result A) → Option (Json F) → (A → Handled F) → Handled F
  with_body request_id validate none route = replied (validation_error_reply request_id)
  with_body request_id validate (some v) route = with_valid request_id (validate v) route

-- `asyncio.timeout(settings.request_timeout)`, for a run that has not come to an end.
abbrev pub with_deadline {ℓ} : {A : Type ℓ} → Option (Result A) → Result A
with_deadline (some r) = r
with_deadline none = err (service 504 "request_timeout" "Decision deadline exceeded")

module _ (fl : Floats) (reader : JsonReader fl.F) (writer : JsonWriter fl.F) (images : ImageLibrary)
    (as_string : Text → Option String) (respond : List Message → Result Completion)
    (cfg : ServiceSettings) where
  open fl use {F}

  -- `system_one` and `vision_one`, with the slots that are free and the order of the tasks.
  unfoldable pub respond_to : String → ℕ → List TaskEvent → Call F → Handled F
  respond_to request_id free events (system_one body) =
      with_body request_id (validate_request fl.is_finite) body λ request.
        reply_of request_id decision
          (with_deadline (evaluate_tasks fl reader writer cfg request.state free events request))
  respond_to request_id free events (vision_one body) =
      with_body request_id (validate_vision fl.is_finite) body λ request.
        reply_of request_id observation (
          with_deadline
            (evaluate_vision fl reader writer images as_string respond cfg free events request))

-- `dict.fromkeys(names)`: each name once, in the order of their first places.
abbrev pub from_keys : List String → List String → List String
from_keys seen [] = seen
from_keys seen (k ∷ ks) =
    let more = from_keys (seen ++ k ∷ []) ks in
    let same = from_keys seen ks in if elem k seen then same else more

pub record ModelEntry : Type 0 where
  pub name : String
  pub release_date : String

-- `models`, without the descriptions
unfoldable pub models : String → List ModelEntry
models actual =
    map (λ name. record { name = name; release_date = "2026-09-22" })
      (from_keys [] ("jev-latest" ∷ "diffusion-jev" ∷ actual ∷ []))

-- `readiness`
abbrev pub readiness : Bool → ℕ × String
readiness ready = (if ready then 200 else 503, if ready then "ready" else "not_ready")

-- The service behind the routes: a backend that the caller gives, the direct service, the local
-- backend, or the HTTP backend.
pub data ServedBy : Type 0 where
  given_backend direct_service mlx_backend http_backend : ServedBy

abbrev pub chosen : (has_backend : Bool) → (runtime : String) → ServedBy
chosen true runtime = given_backend
chosen false runtime =
    if str_eq runtime "decision"
    then direct_service
    else if str_eq runtime "mlx"
    then mlx_backend
    else http_backend

pub data LifespanEvent : Type 0 where
  starts serves closes : ServedBy → LifespanEvent

-- What is started, served and closed, from whether the start returns: `finally` closes after serving.
abbrev pub after_start : ServedBy → Result (Unit {0}) → List LifespanEvent
after_start by (err x) = []
after_start by (ok started) = serves by ∷ closes by ∷ []

unfoldable pub lifespan : ServedBy → Result (Unit {0}) → List LifespanEvent
lifespan direct_service start = starts direct_service ∷ after_start direct_service start
lifespan mlx_backend start = starts mlx_backend ∷ after_start mlx_backend start
lifespan by start = serves by ∷ closes by ∷ []
