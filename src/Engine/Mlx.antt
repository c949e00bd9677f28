-- ===== src/Engine/Mlx.antt =====
-- engine/mlx.py: `encode`, `complete_tokens` and `generate` of `MLXRuntime`, and engine/mlx_backend.py:
-- `complete` of `MLXBackend`. MLX-VLM and its tokenizer are a parameter.
use vllm_verifier.Base.{
  ℕ, ◌+◌, String, Bool, true, false, not, Option, none, some, List, [], ◌∷◌, ◌++◌, length, all,
  Text, ltb, if◌then◌else◌,
}
use vllm_verifier.Errors.{
  Exception, runtime_error, memory_error, value_error, Result, ok, err, ◌>>=◌, ◌>>◌, raise_if,
  is_value_error, service, traverse,
}
use vllm_verifier.Models.{Completion}
use vllm_verifier.Prompts.{Message, MessageContent, plain, parts}
use vllm_verifier.Engine.{WorkItem}
use vllm_verifier.Engine.Gemma.{final_content}

-- A result of the stream.
pub record Chunk : Type 0 where
  pub is_draft : Bool
  pub text : Text
  pub finish_reason : Option String
  pub prompt_tokens : ℕ
  pub generation_tokens : ℕ

pub record MlxLibrary : Type 0 where
  -- `apply_chat_template(...)`; `none` is a value that is no list of integers
  pub template : List Message → Result (Option (List ℕ))
  -- what `stream_diffusion_generate` yields for the tokens and the output budget
  pub stream : List ℕ → ℕ → Result (List Chunk)

abbrev pub is_text : MessageContent → Bool
is_text (plain t) = true
is_text (parts ps) = false

-- `"".join(parts)`
abbrev pub joined : List Chunk → Text
joined [] = []
joined (c ∷ chunks) = let rest = joined chunks in if c.is_draft then rest else c.text ++ rest

-- The last result with a finish reason, and that reason.
abbrev pub later_or : Option (Chunk × String) → Chunk → Option String → Option (Chunk × String)
later_or (some t) c reason = some t
later_or none c none = none
later_or none c (some reason) = some (c, reason)

abbrev pub terminal_of : List Chunk → Option (Chunk × String)
terminal_of [] = none
terminal_of (c ∷ chunks) = later_or (terminal_of chunks) c c.finish_reason

-- `try: text = final_content(text)`, `except ValueError: pass`
abbrev pub or_raw : Text → Result Text → Result Text
or_raw raw (ok content) = ok content
or_raw raw (err x) = if is_value_error x then ok raw else err x

-- `except ValueError` and `except (RuntimeError, MemoryError)` of the backend
abbrev pub mapped : Exception → Exception
mapped (runtime_error m) = service 502 "engine_error" "Local inference failed"
mapped memory_error = service 502 "engine_error" "Local inference failed"
mapped x =
    if is_value_error x then service 422 "engine_input_error" "Input exceeds engine limits" else x

abbrev pub as_engine_error : {A : Type 0} → Result A → Result A
as_engine_error (ok a) = ok a
as_engine_error (err x) = err (mapped x)

module _ (library : MlxLibrary) (max_model_len : ℕ) where
  open library use {template, stream}

  abbrev pub token_list : Option (List ℕ) → Result (List ℕ)
  token_list none = err (runtime_error "Tokenizer did not return token IDs")
  token_list (some tokens) = ok tokens

  unfoldable pub encode_text : List Message → Result (List ℕ)
  encode_text messages = do
    raise_if (not (all (λ m. is_text m.content) messages))
        (value_error "The Mac decision runtime currently accepts text only")
    result ← template messages
    token_list result

  abbrev pub found_terminal : Option (Chunk × String) → Result (Chunk × String)
  found_terminal none = err (runtime_error "MLX generation ended without a terminal result")
  found_terminal (some t) = ok t

  unfoldable pub complete_tokens : List ℕ → ℕ → Result Completion
  complete_tokens token_ids output_tokens = do
    raise_if (ltb max_model_len (length token_ids + output_tokens))
        (value_error "Prompt plus output budget exceeds the Mac context limit")
    chunks ← stream token_ids output_tokens
    (terminal, reason) ← found_terminal (terminal_of chunks)
    content ← or_raw (joined chunks) (final_content (joined chunks))
    ok (record {
      text = content;
      usage = record {
        input_tokens = terminal.prompt_tokens;
        output_tokens = terminal.generation_tokens;
      };
      finish_reason = reason;
    })

  unfoldable pub generate_all : {F : Type 0} → List (WorkItem F) → Result (List Completion)
  generate_all jobs = traverse (λ job. complete_tokens job.token_ids job.output_tokens) jobs

  -- `complete` of the backend; `is_ready` is that it has a runtime and is not closed.
  unfoldable pub mlx_complete : Bool → ℕ → List Message → Result Completion
  mlx_complete is_ready max_output_tokens messages = do
    raise_if (not is_ready) (service 503 "engine_unavailable" "Mac engine is not ready")
    raise_if (not (all (λ m. is_text m.content) messages))
        (service 422 "unsupported_modality" "Mac engine currently supports text only")
    as_engine_error (do tokens ← encode_text messages; complete_tokens tokens max_output_tokens)
