-- ===== src/Backend/Tests.antt =====
-- The HTTP backend over a client with one fixed response.
use vllm_verifier.Base.{ℕ, suc, ◌≡◌, refl, some, List, [], ◌∷◌}
use vllm_verifier.Errors.{ok}
use vllm_verifier.Models.{obj, end}
use vllm_verifier.Backend.{HttpClient, finished, response, read_chunks, complete}
use vllm_verifier.Backend.Protocol.{OnlyService, complete-OnlyService}

-- Every response is an object without `choices`.
abbrev odd_client : HttpClient ℕ
odd_client = record {
  State = ℕ;
  post = λ calls ms. (response 200 ((1 ∷ 2 ∷ []) ∷ (3 ∷ []) ∷ []) finished, suc calls);
  loads = λ body. some (obj end);
}

complete-OnlyService_example : OnlyService (complete odd_client 0 []).0
complete-OnlyService_example = complete-OnlyService odd_client 0 []

abbrev two_chunks : List (List ℕ)
two_chunks = (1 ∷ 2 ∷ []) ∷ (3 ∷ []) ∷ []

abbrev whole_body : List ℕ
whole_body = 1 ∷ 2 ∷ 3 ∷ []

reads_chunks : read_chunks [] two_chunks finished ≡ ok whole_body
unfolding read_chunks
reads_chunks = refl
