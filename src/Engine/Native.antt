-- ===== src/Engine/Native.antt =====
-- engine/native.py: the runtime over vLLM, which is a parameter.
use vllm_verifier.Base.{
  not-false, ℕ, ◌≡◌, refl, sym, subst, ap, ap₂, &&_true, ==_iff, ◌∙◌, String, Bool, true, false,
  not, Option, none, some, List, [], ◌∷◌, map, arith, length, Text, ◌==◌, ◌&&◌, str_eq,
  if◌then◌else◌,
}
use vllm_verifier.Errors.{
  Result, ok, err, ◌>>=◌, ◌>>◌, raise_if, raise_if-eq-ok, runtime_error, index_error, >>=-eq-ok,
  ok-injective,
}
use vllm_verifier.Models.{Completion}
use vllm_verifier.Prompts.{Message}
use vllm_verifier.Engine.{WorkItem, Runtime}

-- One completion of an output of vLLM.
pub record Candidate : Type 0 where
  pub text : Text
  pub token_ids : List ℕ
  pub finish_reason : Option String

pub record Output : Type 0 where
  pub prompt_token_ids : Option (List ℕ)
  pub outputs : List Candidate

-- What the code takes from vLLM and its tokenizer. A template is `none` if it is not a list, and a
-- token is `none` if it is not an `int`. `generate` is given prompts and `max_tokens`.
pub record Vllm : Type 1 where
  pub State : Type 0
  pub apply_chat_template : List Message → Option (List (Option ℕ))
  pub generate : State → List (List ℕ × ℕ) → List Output × State

-- `any(type(token) is not int for token in result)` is false: the tokens.
abbrev pub tokens_of : List (Option ℕ) → Option (List ℕ)
tokens_of [] = some []
tokens_of (none ∷ ts) = none
tokens_of (some t ∷ ts) = elim (tokens_of ts) [ none ↦ none | some rest ↦ some (t ∷ rest) ]

abbrev pub checked_tokens : Option (List (Option ℕ)) → Result (List ℕ)
checked_tokens none = err (runtime_error "Tokenizer did not return a list of token IDs")
checked_tokens (some ts) = elim (tokens_of ts) [
  | none ↦ err (runtime_error "Tokenizer did not return a list of token IDs")
  | some tokens ↦ ok tokens
]

-- Equality of lists of tokens.
abbrev pub same_tokens : List ℕ → List ℕ → Bool
same_tokens [] [] = true
same_tokens (x ∷ xs) (y ∷ ys) = x == y && same_tokens xs ys
same_tokens _ _ = false

-- `output.prompt_token_ids != list(job.token_ids)` is false.
abbrev pub same_prompt : Option (List ℕ) → List ℕ → Bool
same_prompt none ts = false
same_prompt (some ps) ts = same_tokens ps ts

-- `candidate.finish_reason or "unfinished"`
abbrev pub finish_of : Option String → String
finish_of none = "unfinished"
finish_of (some reason) = if str_eq reason "" then "unfinished" else reason

-- `output.outputs[0]`
abbrev pub first_candidate : List Candidate → Result Candidate
first_candidate [] = err index_error
first_candidate (c ∷ cs) = ok c

-- `len(output.prompt_token_ids)`
abbrev pub prompt_length : Option (List ℕ) → ℕ
prompt_length none = 0
prompt_length (some ps) = length ps

module _ {F : Type 0} where
  -- The body of the loop over jobs and outputs.
  unfoldable pub completion_for : WorkItem F → Output → Result Completion
  completion_for job output = do
    raise_if (not (same_prompt output.prompt_token_ids job.token_ids))
        (runtime_error "Native vLLM output does not match the submitted prompt")
    raise_if (not (length output.outputs == 1))
        (runtime_error "Unexpected native vLLM output shape")
    candidate ← first_candidate output.outputs
    ok (record {
      text = candidate.text;
      usage = record {
        input_tokens = prompt_length output.prompt_token_ids;
        output_tokens = length candidate.token_ids;
      };
      finish_reason = finish_of candidate.finish_reason;
    })

  unfoldable pub completions_for : List (WorkItem F) → List Output → Result (List Completion)
  completions_for [] outputs = ok []
  completions_for (job ∷ jobs) [] = ok []
  completions_for (job ∷ jobs) (output ∷ outputs) = do
    completion ← completion_for job output
    completions ← completions_for jobs outputs
    ok (completion ∷ completions)

  unfoldable pub generate_from : List (WorkItem F) → List Output → Result (List Completion)
  generate_from jobs outputs = do
    raise_if (not (length outputs == length jobs))
        (runtime_error "Native vLLM returned a different number of outputs")
    completions_for jobs outputs

module _ (F : Type 0) (vllm : Vllm) where
  -- `VLLMRuntime`, as a runtime of the engine.
  abbrev pub vllm_runtime : Runtime F
  vllm_runtime = record {
    State = vllm.State;
    encode = λ messages. checked_tokens (vllm.apply_chat_template messages);
    generate = λ s jobs.
        let (outputs, s') = vllm.generate s (map (λ j. (j.token_ids, j.output_tokens)) jobs) in
        (generate_from jobs outputs, s');
  }

module _ {F : Type 0} where
  -- There is a completion for every job, made from an output for the prompt of that job, and its
  -- usage counts the tokens of the prompt.
  abbrev pub Reports : List (WorkItem F) → List Output → List Completion → Type 0
  Reports [] outputs [] = outputs ≡ []
  Reports (j ∷ jobs) (o ∷ outputs) (c ∷ cs) =
      (o.prompt_token_ids ≡ some j.token_ids)
      × (c.usage.input_tokens ≡ length j.token_ids)
      × ((candidate : Candidate) × (o.outputs ≡ candidate ∷ []) × (c.text ≡ candidate.text))
      × Reports jobs outputs cs
  Reports _ _ _ = ⊥

same_tokens-eq : (xs ys : List ℕ) → same_tokens xs ys ≡ true → xs ≡ ys
same_tokens-eq [] [] h = refl
same_tokens-eq [] (y ∷ ys) h = cc
same_tokens-eq (x ∷ xs) [] h = cc
same_tokens-eq (x ∷ xs) (y ∷ ys) h =
    let (same, more) = &&_true (x == y) (same_tokens xs ys) h in
    ap₂ (λ a l. a ∷ l) ((==_iff x y).0 same) (same_tokens-eq xs ys more)

same_prompt-eq : (o : Option (List ℕ)) (ts : List ℕ) → same_prompt o ts ≡ true → o ≡ some ts
same_prompt-eq none ts h = cc
same_prompt-eq (some ps) ts h = ap some (same_tokens-eq ps ts h)

one_candidate : (cs : List Candidate) → (length cs == 1) ≡ true → (c : Candidate) × (cs ≡ c ∷ [])
one_candidate [] h = absurd (ground arith)
one_candidate (c ∷ []) h = (c, refl)
one_candidate (c ∷ d ∷ cs) h = absurd (ground arith)

module _ {F : Type 0} where
  completion_for-eq-ok :
      (j : WorkItem F) (o : Output) {c : Completion}
      → completion_for j o ≡ ok c
      → (o.prompt_token_ids ≡ some j.token_ids)
        × (c.usage.input_tokens ≡ length j.token_ids)
        × ((candidate : Candidate) × (o.outputs ≡ candidate ∷ []) × (c.text ≡ candidate.text))
  unfolding completion_for
  completion_for-eq-ok j o {c} h =
      let (u, prompt, h₁) =
        >>=-eq-ok (raise_if (not (same_prompt o.prompt_token_ids j.token_ids)) _) _ h in
      let (v, shape, h₂) = >>=-eq-ok (raise_if (not (length o.outputs == 1)) _) _ h₁ in
      let (candidate, first, last) = >>=-eq-ok (first_candidate o.outputs) _ h₂ in
      let asked =
        same_prompt-eq o.prompt_token_ids j.token_ids
          (not-false (same_prompt o.prompt_token_ids j.token_ids) (raise_if-eq-ok _ _ prompt)) in
      let (only, alone) =
        one_candidate o.outputs (not-false (length o.outputs == 1) (raise_if-eq-ok _ _ shape)) in
      let taken : only ≡ candidate =
        ok-injective (subst (λ l. first_candidate l ≡ ok candidate) alone first) in
      let made = ok-injective last in
      (
        asked,
        sym (ap (λ (x : Completion). x.usage.input_tokens) made) ∙ ap prompt_length asked,
        (candidate, alone ∙ ap (λ x. x ∷ []) taken, sym (ap (λ (x : Completion). x.text) made)),
      )

  completions_for-Reports :
      (jobs : List (WorkItem F)) (outputs : List Output) {cs : List Completion}
      → length outputs ≡ length jobs
      → completions_for jobs outputs ≡ ok cs
      → Reports jobs outputs cs
  unfolding completions_for
  completions_for-Reports [] [] n h = subst (Reports {F = F} [] []) (ok-injective h) refl
  completions_for-Reports [] (o ∷ outputs) n h = absurd (omega arith)
  completions_for-Reports (j ∷ jobs) [] n h = absurd (omega arith)
  completions_for-Reports (j ∷ jobs) (o ∷ outputs) n h =
      let (c, one, rest) = >>=-eq-ok (completion_for j o) _ h in
      let (cs, more, last) = >>=-eq-ok (completions_for jobs outputs) _ rest in
      let (asked, used, candidate) = completion_for-eq-ok j o one in
      subst (Reports (j ∷ jobs) (o ∷ outputs)) (ok-injective last)
        (asked, used, candidate, completions_for-Reports jobs outputs (omega arith) more)

  -- If the vLLM runtime returns completions, there is one for every job, in order, made from the
  -- single candidate of an output for the prompt of that job, with the prompt's length as its usage.
  pub generate_from-Reports :
      (jobs : List (WorkItem F)) (outputs : List Output) (cs : List Completion)
      → generate_from jobs outputs ≡ ok cs
      → Reports jobs outputs cs
  unfolding generate_from
  generate_from-Reports jobs outputs cs h =
      let (u, same, rest) = >>=-eq-ok (raise_if (not (length outputs == length jobs)) _) _ h in
      let n =
        (==_iff (length outputs) (length jobs)).0
          (not-false (length outputs == length jobs) (raise_if-eq-ok _ _ same)) in
      completions_for-Reports jobs outputs n rest
