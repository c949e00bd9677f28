-- ===== src/App/Served.antt =====
-- What the routes of app.py reply, from the JSON of the body to the answers.
use vllm_verifier.Floats.{Floats}
