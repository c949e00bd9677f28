-- ===== src/Engine/Gemma.antt =====
-- engine/gemma.py: the final content behind Gemma's thought channel.
use vllm_verifier.Base.{
  ℕ, ◌≡◌, refl, sym, subst, ap, ap₂, ◌∙◌, ◌⊎◌, inl, inr, [], ◌∷◌, ◌++◌, ◌==◌, &&_true, ==_iff,
  Option-cases, Bool, true, false, ◌||◌, none, some, Text, codes, starts_with, contains, after,
  drop, length, arith, Bool-cases, if◌then◌else◌,
}
use vllm_verifier.Errors.{
  Result, ok, err, ◌>>=◌, ◌>>◌, >>=-eq-ok, raise_if, raise_if-eq-ok, value_error, ok-injective,
}

abbrev pub thought_prefix : Text
thought_prefix = codes "<|channel>thought\n"

abbrev pub channel_open : Text
channel_open = codes "<|channel>"

abbrev pub channel_close : Text
channel_close = codes "<channel|>"

-- `text` behind a thought channel, if it begins with one.
abbrev pub behind_thought : Text → Result Text
behind_thought t =
    if starts_with thought_prefix t
    then elim (after channel_close (drop (length thought_prefix) t)) [
      | none ↦ err (value_error "Unterminated Gemma thought channel")
      | some rest ↦ ok rest
    ]
    else ok t

unfoldable pub final_content : Text → Result Text
final_content t = do
  rest ← behind_thought t
  raise_if (contains channel_open rest || contains channel_close rest)
      (value_error "Unexpected Gemma channel framing")
  ok rest

-- The content that is left: the text itself, or what follows a thought channel, up to the mark that
-- closes it; there is no such mark within the thought.
abbrev pub IsFinal : Text → Text → Type 0
IsFinal t rest =
    ((starts_with thought_prefix t ≡ false) × (t ≡ rest))
    ⊎ ((thought : Text) × (t ≡ thought_prefix ++ (thought ++ (channel_close ++ rest)))
        × (contains channel_close thought ≡ false))

some-injective : {a b : Text} → some a ≡ some b → a ≡ b
some-injective h = cc

||_false : (a b : Bool) → (a || b) ≡ false → (a ≡ false) × (b ≡ false)
||_false false b h = (refl, h)
||_false true b h = absurd (cc)

starts_with-append : (p s : Text) → starts_with p s ≡ true → s ≡ p ++ drop (length p) s
starts_with-append [] [] h = refl
starts_with-append [] (c ∷ s) h = refl
starts_with-append (d ∷ p) [] h = absurd (ground arith)
starts_with-append (d ∷ p) (c ∷ s) h =
    let (same, more) = &&_true (c == d) (starts_with p s) h in
    ap₂ (λ x l. x ∷ l) ((==_iff c d).0 same) (starts_with-append p s more)

starts_with-extend : (p s x : Text) → starts_with p s ≡ true → starts_with p (s ++ x) ≡ true
starts_with-extend [] [] [] h = refl
starts_with-extend [] [] (c ∷ x) h = refl
starts_with-extend [] (c ∷ s) x h = refl
starts_with-extend (d ∷ p) [] x h = absurd (ground arith)
starts_with-extend (d ∷ p) (c ∷ s) x h =
    let (same, more) = &&_true (c == d) (starts_with p s) h in
    rw (same, starts_with-extend p s x more) refl

||_both : {a b : Bool} → a ≡ false → b ≡ false → (a || b) ≡ false
||_both h k = rw (h, k) refl

not_true : (a : Bool) → (a ≡ true → ⊥) → a ≡ false
not_true false h = refl
not_true true h = absurd (h refl)

contradicts : {a : Bool} → a ≡ true → a ≡ false → ⊥
contradicts h k = absurd (cc (h, k))

-- What stands behind the first mark: there is none in front of it.
after-append :
    (d : ℕ) (p s : Text) {rest : Text}
    → after (d ∷ p) s ≡ some rest
    → (front : Text) × (s ≡ front ++ ((d ∷ p) ++ rest)) × (contains (d ∷ p) front ≡ false)
after-append d p [] h = absurd (ground arith)
after-append d p (c ∷ s) {rest} h = elim (Bool-cases (starts_with (d ∷ p) (c ∷ s))) [
  | inl here ↦
      let found : drop (length (d ∷ p)) (c ∷ s) ≡ rest = some-injective (rw here at h) in
      ([], starts_with-append (d ∷ p) (c ∷ s) here ∙ ap (λ l. (d ∷ p) ++ l) found, refl)
  | inr later ↦
      let (front, same, free) = after-append d p s (rw later at h) in
      let longer : c ∷ s ≡ (c ∷ front) ++ ((d ∷ p) ++ rest) = ap (λ l. c ∷ l) same in
      (
        c ∷ front,
        longer,
        ||_both
            (not_true (starts_with (d ∷ p) (c ∷ front)) (λ e.
              contradicts
                (subst (λ l. starts_with (d ∷ p) l ≡ true) (sym longer)
                  (starts_with-extend (d ∷ p) (c ∷ front) ((d ∷ p) ++ rest) e))
                later))
            free,
      )
]

behind_thought-IsFinal : (t : Text) {rest : Text} → behind_thought t ≡ ok rest → IsFinal t rest
behind_thought-IsFinal t {rest} h = elim (Bool-cases (starts_with thought_prefix t)) [
  | inr plain ↦ inl (plain, ok-injective (rw plain at h))
  | inl thinks ↦
      let body = drop (length thought_prefix) t in
      elim (Option-cases (after channel_close body)) [
        | inl open_end ↦ absurd (ground (arith, open_end))
        | inr (r, closed) ↦
            let (thought, same, free) = after-append 60 (codes "channel|>") body closed in
            let left : r ≡ rest = ok-injective (rw (thinks, closed) at h) in
            inr (
              thought,
              starts_with-append thought_prefix t thinks
                  ∙ ap (λ l. thought_prefix ++ l)
                      (same ∙ ap (λ l. thought ++ (channel_close ++ l)) left),
              free,
            )
      ]
]

-- A content that is returned holds no channel mark, and is the whole text, or what follows a thought
-- channel at its beginning: the thought up to the first mark that closes it, and that mark.
pub final_content-IsFinal :
    (t rest : Text)
    → final_content t ≡ ok rest
    → IsFinal t rest × (contains channel_open rest ≡ false) × (contains channel_close rest ≡ false)
unfolding final_content
final_content-IsFinal t rest h =
    let (r, behind, h₁) = >>=-eq-ok (behind_thought t) _ h in
    let (u, clean, last) =
      >>=-eq-ok (raise_if (contains channel_open r || contains channel_close r) _) _ h₁ in
    let (opened, closed) =
      ||_false (contains channel_open r) (contains channel_close r) (raise_if-eq-ok _ _ clean) in
    subst
      (λ x. IsFinal t x × (contains channel_open x ≡ false) × (contains channel_close x ≡ false))
      (ok-injective last) (behind_thought-IsFinal t behind, opened, closed)
