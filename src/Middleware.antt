-- ===== src/Middleware.antt =====
-- middleware.py (src/vllm_verifier/middleware.py): `BoundaryMiddleware`. Requests run interleaved,
-- so an instance is a state that events change; between two `await`s a request is not interrupted.
-- The metrics, the request identifier and the headers that are added to a response are left out.
pub mod Admission
pub mod Bodies
mod Tests
use Prim.Native.String.{◌++◌ as ◌<>◌}
use vllm_verifier.Base.{
  ℕ, suc, ◌+◌, ◌-◌, String, Bool, true, false, ◌&&◌, ◌||◌, not, Option, none, some, List, [], ◌∷◌,
  ◌++◌, length, elem, ltb, leb, ◌==◌, str_eq, if◌then◌else◌,
}

-- The fields of `Settings` that the middleware reads; an empty key is no key.
pub record Boundary : Type 0 where
  pub api_key : Option String
  pub max_requests : ℕ
  pub max_body_bytes : ℕ

-- An HTTP scope: `authorization` is the header, or the empty string.
pub record HttpScope : Type 0 where
  pub path : String
  pub authorization : String

-- A message of the ASGI server.
pub data ServerMessage : Type 0 where
  disconnect : ServerMessage
  body_part : (body : List ℕ) → (more_body : Bool) → ServerMessage

-- Where the call for an admitted request stands: in the body loop, in `reject`, or in the app.
-- `timed` says that the call of `reject` is still under `asyncio.timeout`; `body` is what was read,
-- which the call holds until it leaves.
pub data Phase : Type 0 where
  reading : (body : List ℕ) → Phase
  rejecting : (timed : Bool) → (body : List ℕ) → Phase
  running : (body : List ℕ) → Phase

-- `self.active`, and the calls with `admitted` set. `next` numbers the calls.
pub record Middleware : Type 0 where
  pub active : ℕ
  pub calls : List (ℕ × Phase)
  pub next : ℕ

pub data Event : Type 0 where
  -- a new request
  arrive : HttpScope → Event
  -- a message for the call that reads a body
  receive : (id : ℕ) → ServerMessage → Event
  -- `asyncio.timeout` ends the body loop, or the `reject` that is called in it
  expire : (id : ℕ) → Event
  -- the call leaves its `try` block: the app or `reject` returned, raised or was cancelled
  leave : (id : ℕ) → Event

-- What the middleware does for a request.
pub data Effect : Type 0 where
  respond : (status : ℕ) → (code : String) → Effect
  -- the app is called, with the receive channel of the server
  pass_on : Effect
  -- the app is called, with the body replayed
  deliver : (body : List ℕ) → Effect

-- The outcome of one pass of the body loop.
pub data Read : Type 0 where
  waiting : (body : List ℕ) → Read
  gone : Read
  too_large : (body : List ℕ) → Read
  whole : (body : List ℕ) → Read

module _ (b : Boundary) where
  -- The test for the Bearer token passes.
  abbrev pub authorized : HttpScope → Bool
  authorized scope = elim b.api_key [
    | none ↦ true
    | some key ↦
        elem scope.path ("/healthz" ∷ "/readyz" ∷ [])
        || str_eq scope.authorization ("Bearer " <> key)
  ]

  abbrev pub is_decision : HttpScope → Bool
  is_decision scope = elem scope.path ("/v1/systemone" ∷ "/v1/vision/systemone" ∷ [])

  -- The body of `while True`.
  unfoldable pub take_message : List ℕ → ServerMessage → Read
  take_message body disconnect = gone
  take_message body (body_part part more_body) =
      if ltb b.max_body_bytes (length (body ++ part))
      then too_large (body ++ part)
      else if more_body
      then waiting (body ++ part)
      else whole (body ++ part)

  -- `while True`, over the messages that have come.
  unfoldable pub read_body : List ℕ → List ServerMessage → Read
  read_body body [] = waiting body
  read_body body (m ∷ ms) = elim (take_message body m) [
    | waiting longer ↦ read_body longer ms
    | gone ↦ gone
    | too_large body ↦ too_large body
    | whole all_of_it ↦ whole all_of_it
  ]

  abbrev pub find : ℕ → List (ℕ × Phase) → Option Phase
  find id [] = none
  find id ((j, p) ∷ calls) = if j == id then some p else find id calls

  unfoldable pub put : ℕ → Phase → List (ℕ × Phase) → List (ℕ × Phase)
  put id p [] = []
  put id p ((j, q) ∷ calls) = if j == id then (j, p) ∷ calls else (j, q) ∷ put id p calls

  unfoldable pub remove : ℕ → List (ℕ × Phase) → List (ℕ × Phase)
  remove id [] = []
  remove id ((j, q) ∷ calls) = if j == id then calls else (j, q) ∷ remove id calls

  -- The `finally` block, with `admitted` set.
  abbrev pub release : ℕ → Middleware → Middleware
  release id m = record m { active = m.active - 1; calls = remove id m.calls }

  abbrev pub set_phase : ℕ → Phase → Middleware → Middleware
  set_phase id p m = record m { calls = put id p m.calls }

  -- What follows a pass of the body loop.
  unfoldable pub after_read : ℕ → Middleware → Read → Middleware × List Effect
  after_read id m (waiting body) = (set_phase id (reading body) m, [])
  after_read id m gone = (release id m, [])
  after_read id m (too_large body) =
      (set_phase id (rejecting true body) m, respond 413 "body_too_large" ∷ [])
  after_read id m (whole body) = (set_phase id (running body) m, deliver body ∷ [])

  -- The call of a new request, up to its first `await`.
  unfoldable pub admit : HttpScope → Middleware → Middleware × List Effect
  admit scope m =
      if not (authorized scope)
      then (m, respond 401 "unauthorized" ∷ [])
      else if not (is_decision scope)
      then (m, pass_on ∷ [])
      else if leb b.max_requests m.active
      then (m, respond 529 "overloaded" ∷ [])
      else (
        record m {
          active = m.active + 1;
          calls = (m.next, reading []) ∷ m.calls;
          next = suc m.next;
        },
        [],
      )

  -- A message for a call; outside the body loop it is not the middleware's.
  abbrev pub on_message : ℕ → Middleware → ServerMessage → Option Phase → Middleware × List Effect
  on_message id m message (some (reading body)) = after_read id m (take_message body message)
  on_message id m message _ = (m, [])

  abbrev pub on_expire : ℕ → Middleware → Option Phase → Middleware × List Effect
  on_expire id m (some (reading body)) =
      (set_phase id (rejecting false body) m, respond 408 "body_timeout" ∷ [])
  on_expire id m (some (rejecting true body)) =
      (set_phase id (rejecting false body) m, respond 408 "body_timeout" ∷ [])
  on_expire id m _ = (m, [])

  abbrev pub on_leave : ℕ → Middleware → Option Phase → Middleware
  on_leave id m none = m
  on_leave id m (some p) = release id m

  unfoldable pub handle : Event → Middleware → Middleware × List Effect
  handle (arrive scope) m = admit scope m
  handle (receive id message) m = on_message id m message (find id m.calls)
  handle (expire id) m = on_expire id m (find id m.calls)
  handle (leave id) m = (on_leave id m (find id m.calls), [])

  -- The state behind a sequence of events.
  unfoldable pub handle_all : List Event → Middleware → Middleware
  handle_all [] m = m
  handle_all (event ∷ events) m = handle_all events (handle event m).0

-- `__init__`
abbrev pub idle : Middleware
idle = record { active = 0; calls = []; next = 0 }
