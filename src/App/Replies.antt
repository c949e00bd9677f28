-- ===== src/App/Replies.antt =====
-- What a reply of app.py stands for.
use vllm_verifier.Base.{
  ℕ, ◌≡◌, refl, sym, subst, ap, inl, inr, String, Option, none, some, List, Text, ◌⊎◌, ◌==◌, ==_iff,
  if◌then◌else◌, Bool-cases, arith, ◌↔◌,
}
use vllm_verifier.Errors.{Exception, service_error, ServiceError, Result, ok, err}
use vllm_verifier.Models.{Completion, SystemOneRequest, VisionRequest}
use vllm_verifier.Models.Parsing.{validate_request, validate_vision}
use vllm_verifier.Floats.{Floats}
use vllm_verifier.Verification.{JsonReader}
use vllm_verifier.Prompts.{JsonWriter, Message}
use vllm_verifier.Vision.{ImageLibrary}
use vllm_verifier.Service.Tasks.{ServiceSettings, TaskEvent, evaluate_tasks}
use vllm_verifier.Service.Together.{AllAnswered}
use vllm_verifier.Service.Observe.{evaluate_vision}
use vllm_verifier.Service.Observed.{IsObserved}
use vllm_verifier.Service.Raises.{EndsBy, IsService, Escapes}
use vllm_verifier.App.{
  ReplyBody, decision, observation, refusal, HttpReply, Handled, replied, unhandled, Call,
  system_one, vision_one, reply_of, with_valid, with_deadline, validation_error_reply,
}

abbrev pub RetriesOnOverload : {F : Type 0} → HttpReply F → Type 0
RetriesOnOverload reply = (reply.retry_after ≡ some "1") ↔ (reply.status ≡ 529)

retry_iff :
    (n : ℕ) → (if◌then◌else◌ {A = Option String} (n == 529) (some "1") none ≡ some "1") ↔ (n ≡ 529)
retry_iff n = elim (Bool-cases (n == 529)) [
  | inl same ↦ rw same ((λ h. (==_iff n 529).0 same), λ h. refl)
  | inr other ↦ rw other ((λ h. cc), λ h. absurd (cc ((==_iff n 529).1 h, other)))
]

never_retried : {n : ℕ} → (n ≡ 529 → ⊥) → ((◌≡◌ {A = Option String} none (some "1")) ↔ (n ≡ 529))
never_retried h = ((λ e. cc), λ e. absurd (h e))

raised_same : {A : Type 0} {d e : Exception} → ◌≡◌ {A = Result A} (err d) (err e) → d ≡ e
raised_same h = cc

same_error : {d e : ServiceError} → service_error d ≡ service_error e → d ≡ e
same_error h = cc

pub with_deadline-EndsBy :
    {A : Type 0} (E : Exception → Type 0) (o : Option (Result A))
    → ((e : ServiceError) → E (service_error e))
    → EndsBy E o
    → (x : Exception) → with_deadline o ≡ err x
    → E x
with_deadline-EndsBy {A = A} E none every h x e = subst E (raised_same {A = A} e) (every _)
with_deadline-EndsBy E (some (ok a)) every h x e = cc
with_deadline-EndsBy {A = A} E (some (err y)) every h x e = subst E (raised_same {A = A} e) h

pub with_deadline-eq-ok :
    {A : Type 0} (o : Option (Result A)) {a : A} → with_deadline o ≡ ok a → o ≡ some (ok a)
with_deadline-eq-ok none h = cc
with_deadline-eq-ok (some r) h = ap some h

-- A refusal of a body that is not valid.
abbrev pub IsInvalid : {A : Type 0} → Result A → ℕ → String → Type 0
IsInvalid r status code =
    (x : Exception) × (r ≡ err x) × (status ≡ 422) × (code ≡ "validation_error")

-- A refusal of a run: it has not come to an end, or it raised this error.
abbrev pub IsRefused : {A : Type 0} → Option (Result A) → ℕ → String → Type 0
IsRefused run status code =
    ((run ≡ none) × (status ≡ 504) × (code ≡ "request_timeout"))
    ⊎ ((e : ServiceError) × (run ≡ some (err (service_error e)))
        × (status ≡ e.status)
        × (code ≡ e.code))

pub with_deadline-IsRefused :
    {A : Type 0} (o : Option (Result A)) (e : ServiceError)
    → with_deadline o ≡ err (service_error e)
    → IsRefused o e.status e.code
with_deadline-IsRefused {A = A} none e h =
    let same = same_error (raised_same {A = A} h) in
    inl (
      refl,
      ap (λ (x : ServiceError). x.status) (sym same),
      ap (λ (x : ServiceError). x.code) (sym same),
    )
with_deadline-IsRefused (some r) e h = inr (e, ap some h, refl, refl)

module _ (fl : Floats) (reader : JsonReader fl.F) (writer : JsonWriter fl.F) (images : ImageLibrary)
    (as_string : Text → Option String) (respond : List Message → Result Completion)
    (cfg : ServiceSettings) (free : ℕ) (events : List TaskEvent) where
  open fl use {F}

  -- What a reply with this status and body stands for. A decision comes from a valid request, and its
  -- answers fit the questions; so it is with an observation, and the images were observed.
  abbrev pub Replied : Call F → ℕ → ReplyBody F → Type 0
  Replied (system_one none) status (refusal code message request_id) =
      (status ≡ 422) × (code ≡ "validation_error")
  Replied (vision_one none) status (refusal code message request_id) =
      (status ≡ 422) × (code ≡ "validation_error")
  Replied (system_one (some v)) status (refusal code message request_id) =
      IsInvalid (validate_request fl.is_finite v) status code
      ⊎ ((request : SystemOneRequest F) × (validate_request fl.is_finite v ≡ ok request)
          × IsRefused (evaluate_tasks fl reader writer cfg request.state free events request) status
              code)
  Replied (vision_one (some v)) status (refusal code message request_id) =
      IsInvalid (validate_vision fl.is_finite v) status code
      ⊎ ((request : VisionRequest F) × (validate_vision fl.is_finite v ≡ ok request)
          × IsRefused
              (evaluate_vision fl reader writer images as_string respond cfg free events request)
              status code)
  Replied (system_one (some v)) status (decision response) =
      (request : SystemOneRequest F) × (validate_request fl.is_finite v ≡ ok request)
      × (status ≡ 200)
      × AllAnswered fl reader writer cfg request.state request.questions response.answers
  Replied (vision_one (some v)) status (observation response) =
      (request : VisionRequest F) × (validate_vision fl.is_finite v ≡ ok request)
      × (status ≡ 200)
      × IsObserved fl reader writer images as_string respond cfg free events request response
      × AllAnswered fl reader writer cfg request.state request.questions response.answers
  Replied _ status body = ⊥

  -- An exception without a handler: of the vision route, and one of the two that escape.
  abbrev pub IsLeft : Call F → Exception → Type 0
  IsLeft (vision_one (some v)) x =
      (request : VisionRequest F) × (validate_vision fl.is_finite v ≡ ok request)
      × Escapes fl reader writer images as_string respond cfg request x
  IsLeft _ x = ⊥

  abbrev pub IsServed : Call F → Handled F → Type 0
  IsServed call (replied reply) = Replied call reply.status reply.body × RetriesOnOverload reply
  IsServed call (unhandled x) = IsLeft call x

  pub reply_of-IsServed {ℓ} :
      {A : Type ℓ} (call : Call F) (request_id : String) (body : A → ReplyBody F) (r : Result A)
      → ((x : Exception) → r ≡ err x → IsService x ⊎ IsLeft call x)
      → ((a : A) → r ≡ ok a → Replied call 200 (body a))
      → ((e : ServiceError)
          → r ≡ err (service_error e)
          → Replied call e.status (refusal e.code e.message request_id))
      → IsServed call (reply_of request_id body r)
  reply_of-IsServed call request_id body (ok a) h k l =
      (k a refl, never_retried (λ e. omega (arith, e)))
  reply_of-IsServed call request_id body (err (service_error e)) h k l =
      (l e refl, retry_iff e.status)
  reply_of-IsServed call request_id body (err x) h k l = elim (h x refl) [
    | inl only ↦ absurd only
    | inr left ↦ left
  ]

  pub refused-IsServed :
      (call : Call F) (request_id : String)
      → Replied call 422 (refusal "validation_error" "Request failed validation" request_id)
      → IsServed call (replied (validation_error_reply request_id))
  refused-IsServed call request_id h = (h, never_retried (λ e. omega (arith, e)))

  pub with_valid-IsServed {ℓ} :
      {A : Type ℓ} (call : Call F) (request_id : String) (r : Result A) (route : A → Handled F)
      → ((x : Exception)
          → r ≡ err x
          → Replied call 422 (refusal "validation_error" "Request failed validation" request_id))
      → ((a : A) → r ≡ ok a → IsServed call (route a))
      → IsServed call (with_valid request_id r route)
  with_valid-IsServed call request_id (err x) route l h =
      refused-IsServed call request_id (l x refl)
  with_valid-IsServed call request_id (ok a) route l h = h a refl
