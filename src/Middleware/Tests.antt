-- ===== src/Middleware/Tests.antt =====
-- The middleware under a sequence of events.
use vllm_verifier.Base.{ℕ, ◌≡◌, ◌≤◌, refl, true, false, none, List, [], ◌∷◌, ◌++◌, length}
use vllm_verifier.Middleware.{
  Boundary, HttpScope, ServerMessage, body_part, whole, read_body, take_message,
}
use vllm_verifier.Middleware.Bodies.{Chunks, read_body-whole}

abbrev narrow : Boundary
narrow = record { api_key = none; max_requests = 1; max_body_bytes = 4 }

abbrev decision : HttpScope
decision = record { path = "/v1/systemone"; authorization = "" }

abbrev parts : List ServerMessage
parts = body_part (1 ∷ 2 ∷ []) true ∷ body_part (3 ∷ []) false ∷ []

abbrev all_of_it : List ℕ
all_of_it = 1 ∷ 2 ∷ 3 ∷ []

reads_parts : read_body narrow [] parts ≡ whole all_of_it
unfolding read_body take_message
reads_parts = refl

read_body-whole_example :
    (all_parts : List ℕ) × Chunks narrow parts all_parts
    × (all_of_it ≡ [] ++ all_parts)
    × (length all_of_it ≤ 4)
read_body-whole_example = read_body-whole narrow [] parts all_of_it reads_parts
