-- ===== src/Middleware/Admission.antt =====
-- The admission counter: what `active` counts, and its bound.
use vllm_verifier.Base.{ℕ, ◌≡◌, ◌≤◌, List, ◌++◌, length, All}
use vllm_verifier.Middleware.{
  Boundary, Phase, reading, rejecting, running, Middleware, Read, waiting, gone, too_large, whole,
}

module _ (b : Boundary) where
  -- All of the body but the part that came last is within the limit.
  abbrev pub FirstTooLarge : List ℕ → Type 0
  FirstTooLarge body =
      (before : List ℕ) × (part : List ℕ) × (body ≡ before ++ part)
      × (length before ≤ b.max_body_bytes)

  -- The body that a call holds is within the limit; a call that is refused holds at most one more part
  -- of the body.
  abbrev pub HoldsLittle : ℕ × Phase → Type 0
  HoldsLittle (id, reading body) = length body ≤ b.max_body_bytes
  HoldsLittle (id, rejecting timed body) = FirstTooLarge body
  HoldsLittle (id, running body) = length body ≤ b.max_body_bytes

  -- `active` counts the admitted calls, which are at most `max_requests`, and what they hold of their
  -- bodies is bounded.
  pub record IsBounded (m : Middleware) : Type 0 where
    pub counts : m.active ≡ length m.calls
    pub within : m.active ≤ b.max_requests
    pub bodies : All HoldsLittle m.calls

  -- What the body loop keeps.
  ReadsLittle : Read → Type 0
  ReadsLittle (waiting body) = length body ≤ b.max_body_bytes
  ReadsLittle (whole body) = length body ≤ b.max_body_bytes
  ReadsLittle gone = Unit
  ReadsLittle (too_large body) = FirstTooLarge body
