-- ===== src/Backend/Protocol.antt =====
-- What `VLLMBackend.complete` raises, and what it reads of a response.
use vllm_verifier.Base.{
  ℕ, ◌≡◌, ◌≤◌, refl, sym, subst, ◌∙◌, inl, inr, String, Bool, true, false, not, ◌||◌, ◌&&◌, leb,
  ◌==◌, Option, none, some, List, [], ◌∷◌, ◌++◌, append_assoc, append-nil, arith, length, ltb,
  Bool-cases, str_eq,
}
use mathlib.Core.List.{flatten}
use vllm_verifier.Errors.{
  ServiceError, Exception, value_error, invalid_output, validation_error, key_error, index_error,
  type_error, service_error, Result, ok, err, ◌>>=◌, raise_if, ok-injective,
}
use vllm_verifier.Models.{Json, obj, arr, str, nil, cons, Fields, end, field, int, pos}
use vllm_verifier.Prompts.{Message}
use vllm_verifier.Backend.{
  StreamEnd, finished, stream_timeout, stream_error, Exchange, timed_out, failed, response,
  HttpClient, max_response_bytes, read_chunks, check_status, value_of, member, first_item, as_text,
  as_count, parse_completion, as_protocol_error, decode, request_json, complete,
}

-- A result that is a value, or raises a `ServiceError`.
abbrev pub OnlyService {ℓ} : {A : Type ℓ} → Result A → Type 0
OnlyService (ok a) = Unit
OnlyService (err (service_error e)) = Unit
OnlyService (err _) = ⊥

-- What the `except` clause of `complete` turns into a `ServiceError`, and a `ServiceError`.
abbrev IsHandled : Exception → Type 0
IsHandled (value_error m) = Unit
IsHandled (invalid_output m) = Unit
IsHandled validation_error = Unit
IsHandled key_error = Unit
IsHandled index_error = Unit
IsHandled type_error = Unit
IsHandled (service_error e) = Unit
IsHandled _ = ⊥

abbrev Caught {ℓ} : {A : Type ℓ} → Result A → Type 0
Caught (ok a) = Unit
Caught (err e) = IsHandled e

OnlyService-bind {ℓ κ} :
    {A : Type ℓ} {B : Type κ} (m : Result A) (f : A → Result B)
    → OnlyService m
    → ((a : A) → OnlyService (f a))
    → OnlyService (m >>= f)
OnlyService-bind (ok a) f h k = k a
OnlyService-bind (err (service_error e)) f h k = tt
OnlyService-bind (err _) f h k = absurd h

Caught-bind {ℓ κ} :
    {A : Type ℓ} {B : Type κ} (m : Result A) (f : A → Result B)
    → Caught m
    → ((a : A) → Caught (f a))
    → Caught (m >>= f)
Caught-bind (ok a) f h k = k a
Caught-bind (err e) f h k = h

pub OnlyService-raise_if :
    (test : Bool) (e : ServiceError) → OnlyService (raise_if test (service_error e))
OnlyService-raise_if false e = tt
OnlyService-raise_if true e = tt

OnlyService-check_status : (status : ℕ) → OnlyService (check_status status)
unfolding check_status
OnlyService-check_status status =
    OnlyService-bind (raise_if (status == 429 || status == 503 || status == 529) _) _
      (OnlyService-raise_if _ _)
      λ u. OnlyService-raise_if (not (leb 200 status && leb status 299)) _

OnlyService-read_chunks :
    (body : List ℕ) (chunks : List (List ℕ)) (e : StreamEnd)
    → OnlyService (read_chunks body chunks e)
unfolding read_chunks
OnlyService-read_chunks body [] finished = tt
OnlyService-read_chunks body [] stream_timeout = tt
OnlyService-read_chunks body [] stream_error = tt
OnlyService-read_chunks body (chunk ∷ chunks) e =
    elim (Bool-cases (ltb max_response_bytes (length (body ++ chunk)))) [
      | inl large ↦ rw large tt
      | inr fits ↦ rw fits (OnlyService-read_chunks (body ++ chunk) chunks e)
    ]

module _ {F : Type 0} where
  Caught-value_of : (k : String) (fs : Fields F) → Caught (value_of k fs)
  Caught-value_of k end = tt
  Caught-value_of k (field j v fs) = elim (Bool-cases (str_eq j k)) [
    | inl here ↦ rw here tt
    | inr other ↦ rw other (Caught-value_of k fs)
  ]

  Caught-member : (k : String) (raw : Json F) → Caught (member k raw)
  Caught-member k (obj fs) = Caught-value_of k fs
  Caught-member k _ = tt

  Caught-first_item : (raw : Json F) → Caught (first_item raw)
  Caught-first_item (arr nil) = tt
  Caught-first_item (arr (cons x xs)) = tt
  Caught-first_item (str String.[]) = tt
  Caught-first_item (str (String.◌∷◌ c s)) = tt
  Caught-first_item _ = tt

  Caught-as_text : (raw : Json F) → Caught (as_text raw)
  Caught-as_text (str s) = tt
  Caught-as_text _ = tt

  Caught-as_count : (raw : Json F) → Caught (as_count raw)
  Caught-as_count (int (pos n)) = tt
  Caught-as_count _ = tt

  Caught-parse_completion : (raw : Json F) → Caught (parse_completion raw)
  unfolding parse_completion
  Caught-parse_completion raw =
      Caught-bind (member "choices" raw) _ (Caught-member "choices" raw) λ choices.
        Caught-bind (first_item choices) _ (Caught-first_item choices) λ choice.
          Caught-bind (member "message" choice) _ (Caught-member "message" choice) λ message.
            Caught-bind (member "content" message) _ (Caught-member "content" message)
              λ content_value.
                Caught-bind (member "finish_reason" choice) _ (Caught-member "finish_reason" choice)
                  λ finish_value.
                    Caught-bind (as_text content_value) _ (Caught-as_text content_value) λ content.
                      Caught-bind (as_text finish_value) _ (Caught-as_text finish_value) λ finish.
                        Caught-bind (member "usage" raw) _ (Caught-member "usage" raw) λ usage.
                          Caught-bind (member "prompt_tokens" usage) _
                            (Caught-member "prompt_tokens" usage)
                            λ prompt.
                              Caught-bind (member "completion_tokens" usage) _
                                (Caught-member "completion_tokens" usage)
                                λ completion.
                                  Caught-bind (as_count prompt) _ (Caught-as_count prompt)
                                    λ input_tokens.
                                      Caught-bind (as_count completion) _
                                        (Caught-as_count completion) λ output_tokens. tt

Caught-OnlyService {ℓ} : {A : Type ℓ} (m : Result A) → Caught m → OnlyService (as_protocol_error m)
unfolding as_protocol_error
Caught-OnlyService (ok a) h = tt
Caught-OnlyService (err (value_error m)) h = tt
Caught-OnlyService (err (invalid_output m)) h = tt
Caught-OnlyService (err validation_error) h = tt
Caught-OnlyService (err key_error) h = tt
Caught-OnlyService (err index_error) h = tt
Caught-OnlyService (err type_error) h = tt
Caught-OnlyService (err (service_error e)) h = tt
Caught-OnlyService (err _) h = absurd h

module _ {F : Type 0} (client : HttpClient F) where
  OnlyService-decode : (o : Option (Json F)) → OnlyService (decode client o)
  OnlyService-decode none = tt
  OnlyService-decode (some raw) = tt

  OnlyService-request_json : (exchange : Exchange) → OnlyService (request_json client exchange)
  unfolding request_json
  OnlyService-request_json timed_out = tt
  OnlyService-request_json failed = tt
  OnlyService-request_json (response status_code chunks e) =
      OnlyService-bind (check_status status_code) _ (OnlyService-check_status status_code) λ u.
        OnlyService-bind (read_chunks [] chunks e) _ (OnlyService-read_chunks [] chunks e)
          λ body. OnlyService-decode (client.loads body)

  -- Whatever the inference server sends, `complete` returns a completion or raises a
  -- `ServiceError`: no KeyError, TypeError, ValidationError or other exception leaves it.
  pub complete-OnlyService :
      (s : client.State) (messages : List Message) → OnlyService (complete client s messages).0
  unfolding complete
  complete-OnlyService s messages =
      OnlyService-bind (request_json client (client.post s messages).0) _
        (OnlyService-request_json (client.post s messages).0)
        λ raw. Caught-OnlyService (parse_completion raw) (Caught-parse_completion raw)

read_chunks-from :
    (front : List ℕ) (chunks : List (List ℕ)) (e : StreamEnd) (body : List ℕ)
    → length front ≤ max_response_bytes
    → read_chunks front chunks e ≡ ok body
    → (body ≡ front ++ flatten chunks) × (length body ≤ max_response_bytes) × (e ≡ finished)
unfolding read_chunks flatten
read_chunks-from front [] finished body le h =
    let same : front ≡ body = ok-injective h in
    (sym same ∙ sym (append-nil front), subst (λ l. length l ≤ max_response_bytes) same le, refl)
read_chunks-from front [] stream_timeout body le h = cc
read_chunks-from front [] stream_error body le h = cc
read_chunks-from front (chunk ∷ chunks) e body le h =
    elim (Bool-cases (ltb max_response_bytes (length (front ++ chunk)))) [
      | inl large ↦ absurd (cc (rw (large, read_chunks) at h))
      | inr fits ↦
          let small : length (front ++ chunk) ≤ max_response_bytes = ground arith in
          let (same, size, over) =
            read_chunks-from (front ++ chunk) chunks e body small (rw (fits, read_chunks) at h) in
          (same ∙ append_assoc front chunk (flatten chunks), size, over)
    ]

-- A body that `_request_json` decodes is made of all the chunks of a response that came to its end,
-- in order, and is at most `max_response_bytes` long.
pub read_chunks-eq-ok :
    (chunks : List (List ℕ)) (e : StreamEnd) (body : List ℕ)
    → read_chunks [] chunks e ≡ ok body
    → (body ≡ flatten chunks) × (length body ≤ max_response_bytes) × (e ≡ finished)
read_chunks-eq-ok chunks e body h = read_chunks-from [] chunks e body (omega arith) h
