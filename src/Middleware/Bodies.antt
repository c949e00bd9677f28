-- ===== src/Middleware/Bodies.antt =====
-- The body loop: what reaches the app.
use vllm_verifier.Base.{
  ℕ, ◌≡◌, ◌≤◌, sym, subst, ◌∙◌, inl, inr, true, false, List, [], ◌∷◌, ◌++◌, append_assoc, arith,
  length, ltb, Bool-cases,
}
use vllm_verifier.Middleware.{
  Boundary, ServerMessage, disconnect, body_part, whole, take_message, read_body,
}

whole-injective : {a b : List ℕ} → whole a ≡ whole b → a ≡ b
whole-injective h = cc

module _ (b : Boundary) where
  -- `parts` are the bodies of a first part of `ms`, the last of which says that no more follow.
  pub data Chunks : List ServerMessage → List ℕ → Type 0 where
    last_part : {part : List ℕ} {ms : List ServerMessage} → Chunks (body_part part false ∷ ms) part
    one_more :
        {part parts : List ℕ} {ms : List ServerMessage}
        → Chunks ms parts
        → Chunks (body_part part true ∷ ms) (part ++ parts)

  -- If the loop that has read `front` ends with a body for the app, that body is `front` and the
  -- parts that came up to the last one, in order and without a gap, and is within the limit.
  pub read_body-whole :
      (front : List ℕ) (ms : List ServerMessage) (body : List ℕ)
      → read_body b front ms ≡ whole body
      → (parts : List ℕ) × Chunks ms parts
        × (body ≡ front ++ parts)
        × (length body ≤ b.max_body_bytes)
  unfolding read_body take_message
  read_body-whole front [] body h = absurd (cc)
  read_body-whole front (disconnect ∷ ms) body h = absurd (cc)
  read_body-whole front (body_part part more ∷ ms) body h =
      elim (Bool-cases (ltb b.max_body_bytes (length (front ++ part)))) [
        | inl large ↦ absurd (cc (rw (large, read_body, take_message) at h))
        | inr fits ↦ elim (Bool-cases more) [
          | inr last ↦
              let same : front ++ part ≡ body =
                whole-injective (rw (fits, last, read_body, take_message) at h) in
              let size : length (front ++ part) ≤ b.max_body_bytes = ground arith in
              (
                part,
                subst (λ x. Chunks (body_part part x ∷ ms) part) (sym last) last_part,
                sym same,
                subst (λ l. length l ≤ b.max_body_bytes) same size,
              )
          | inl goes_on ↦
              let (parts, chunks, same, size) =
                read_body-whole (front ++ part) ms body
                  (rw (fits, goes_on, read_body, take_message) at h) in
              (
                part ++ parts,
                subst (λ x. Chunks (body_part part x ∷ ms) (part ++ parts)) (sym goes_on)
                    (one_more chunks),
                same ∙ append_assoc front part parts,
                size,
              )
        ]
      ]
