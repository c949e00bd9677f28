-- ===== src/Lib.antt =====
-- Verification of vllm-verifier: typed decisions (choice, score, noul) made by a language model,
-- checked structurally, batched, and served over HTTP.
--
-- The parts and their files:
--   Base, Errors, Floats   the shared helpers: Boolean tests, lists over the native numbers, `dict`,
--     text as code points; exceptions as values of `Result`; floating point as an interface
--     (`Floats`, with the laws `FloatLaws` of IEEE 754 and `math`).
--   Models                 src/vllm_verifier/models.py: JSON, questions, requests, answers, usage.
--     Models/Contract is `Contract.finite_json`, Models/Parsing the validation of a request's JSON that
--     the classes declare to pydantic (`validate_request`, `validate_vision`), Models/Limits its limits.
--   Answers                what verification.py and decision/readout.py share: the first largest
--     probability, the construction of typed answers with pydantic's tests, numbering.
--   Verification           src/vllm_verifier/verification.py: `strict_json`, `_unique_object`,
--     `_probability`, `verify`. `json.loads` is a parameter (`JsonReader.scan`) behind which the
--     model applies the `object_pairs_hook`.
--   Prompts                src/vllm_verifier/prompts.py and `messages` of engine/core.py.
--   Engine                 src/vllm_verifier/engine/core.py: `take_batch`, `round_robin` and
--     `shared_prefix` are the loops of `DecisionEngine.evaluate`; Engine/Evaluate has `_job`
--     (`new_job`), the admission (`prepare`), one batch (`round`), the loop over `pending`
--     (`drain`), and `evaluate`. The runtime is a parameter whose calls change a state of its own.
--     Engine/Gemma is engine/gemma.py, Engine/Native engine/native.py, Engine/Mlx engine/mlx.py and
--     `complete` of engine/mlx_backend.py.
--   Decision               src/vllm_verifier/decision: Decision/Readout is `candidate_answer`,
--     Decision/Rows `records`, Decision/Scoring `KaiRuntime.evaluate_batch` and `_run` over a collator
--     and a network that are a parameter, Decision/Batching their physical batches,
--     Decision/Artifact is `verify_artifact` over a file system that is a parameter, and
--     Decision/Queue the bounded queue, worker and shutdown of `DirectDecisionService`.
--   Backend                src/vllm_verifier/backend.py: `VLLMBackend.complete` and `_request_json`
--     over an HTTP client that is a parameter.
--   Service                `DecisionService.decide` of src/vllm_verifier/service.py, over a backend
--     that is a parameter; Service/Tasks is `evaluate`, whose tasks run in any order, as events: each reply
--     event says how the backend behaves in that call, and no two calls need agree;
--     Service/Tracks, Kept and Schedules are about the orders of its tasks, Service/Alone and Together
--     about its answers. Service/Observe is `complete` and `evaluate_vision`, Service/Observed and
--     Raises are about them; Service/Progress, Open and Ends are about the end of its tasks.
--   App                    src/vllm_verifier/app.py: the routes (`respond_to` is `system_one` and
--     `vision_one`, with the `DecisionService`), the handlers of exceptions, the lifespan; App/Body, Replies and
--     App/Served are about the replies.
--   Middleware             src/vllm_verifier/middleware.py: requests that run interleaved, as a
--     state that events change.
--   Vision                 src/vllm_verifier/vision.py: `validate_images`, with base64 and PIL as a
--     parameter; Vision/Raises is about what it raises.
--   CustomerService        examples/customer_service: Catalog, Slots, Actions (`execute`) and Store,
--     Dialogue (`advance`, `activate`), Dialogue/Turn (`turn`, stage by stage), Dialogue/Calm, Stages
--     and Gate (lemmas on the stages), Dialogue/Talks (conversations, turn by turn), Sessions
--     (app.py, requests as events), Classifier (classifier.py). The regular expressions, the JSON files
--     and the calls of the decision service are parameters; so is the classifier in Dialogue.
--   Samples                concrete parameters for the examples in the Tests modules.
--
-- How they interact: the engine and the service ask their runtime or backend with the messages of
-- Prompts, and pass each completion to `verify`; `InvalidOutput` leads to another attempt, any other
-- exception ends the run. The middleware stands in front of the application, whose routes validate the
-- body and call the service.
--
-- Fuel: `drain` runs for `enough` batches, the number of questions times `validation_retries +
-- 1`, since a batch is never empty and no question is tried more often; `round_robin` for as many
-- rounds as there are jobs; `search_pending` for as many steps as the JSON has values;
-- `batches_of` for as many batches as there are entries; `decimal` for as many digits as the
-- number has units, which is more than it has digits.
--
-- Not modelled: clocks and metrics; the network, FastAPI and asyncio beyond the order of events
-- in Middleware, Decision/Queue, Service/Tasks and CustomerService/Sessions; pydantic's own
-- errors; the loading of `KaiRuntime` and of the runtime of MLX; vLLM and MLX-VLM themselves,
-- which are parameters; the import and the download of the Kai export; the dictionary that `turn`
-- returns, which shows the conversation; the command lines, the other examples and the scripts.
-- Integers are unbounded, as in Python.
pub mod Answers
pub mod App
pub mod Backend
pub mod Base
pub mod CustomerService
pub mod Decision
pub mod Engine
pub mod Errors
pub mod Floats
pub mod Middleware
pub mod Models
pub mod Prompts
pub mod Samples
pub mod Service
pub mod Verification
pub mod Vision
