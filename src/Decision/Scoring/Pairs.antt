-- ===== src/Decision/Scoring/Pairs.antt =====
-- A predicate on the pairs of two lists, for the requests of decision/runtime.py and their outcomes.
use vllm_verifier.Base.{ℕ, zero, suc, ◌≡◌, subst, some, List, [], ◌∷◌, map, get_elem?, modify}

-- The lists have one length, and the predicate holds of each pair.
abbrev pub Pairs : {A B : Type 0} → (A → B → Type 0) → List A → List B → Type 0
Pairs P [] [] = Unit
Pairs P (x ∷ xs) (y ∷ ys) = P x y × Pairs P xs ys
Pairs P _ _ = ⊥

module _ {A B : Type 0} where
  pub Pairs-mono :
      (P Q : A → B → Type 0) (f : B → B)
      → ((x : A) (y : B) → P x y → Q x (f y))
      → (xs : List A) (ys : List B) → Pairs P xs ys
      → Pairs Q xs (map f ys)
  Pairs-mono P Q f step [] [] h = tt
  Pairs-mono P Q f step (x ∷ xs) (y ∷ ys) h = (step x y h.0, Pairs-mono P Q f step xs ys h.1)
  Pairs-mono P Q f step [] (y ∷ ys) h = absurd h
  Pairs-mono P Q f step (x ∷ xs) [] h = absurd h

  pub Pairs-get_elem? :
      (P : A → B → Type 0) (i : ℕ) (xs : List A) (ys : List B) {x : A} {y : B}
      → get_elem? xs i ≡ some x
      → get_elem? ys i ≡ some y
      → Pairs P xs ys
      → P x y
  Pairs-get_elem? P i [] ys at₁ at₂ h = cc
  Pairs-get_elem? P i (x ∷ xs) [] at₁ at₂ h = absurd h
  Pairs-get_elem? P zero (x ∷ xs) (y ∷ ys) {x = a} {y = b} at₁ at₂ h =
      let first : x ≡ a = cc in
      let second : y ≡ b = cc in subst (λ u. P u b) first (subst (λ v. P x v) second h.0)
  Pairs-get_elem? P (suc i) (x ∷ xs) (y ∷ ys) at₁ at₂ h = Pairs-get_elem? P i xs ys at₁ at₂ h.1

  pub Pairs-modify :
      (P : A → B → Type 0) (z : B) (i : ℕ) (xs : List A) (ys : List B) {x : A}
      → get_elem? xs i ≡ some x
      → P x z
      → Pairs P xs ys
      → Pairs P xs (modify (λ y. z) i ys)
  Pairs-modify P z i [] [] at p h = tt
  Pairs-modify P z i [] (y ∷ ys) at p h = absurd h
  Pairs-modify P z i (x ∷ xs) [] at p h = absurd h
  Pairs-modify P z zero (x ∷ xs) (y ∷ ys) {x = a} at p h =
      let first : a ≡ x = cc in (subst (λ u. P u z) first p, h.1)
  Pairs-modify P z (suc i) (x ∷ xs) (y ∷ ys) at p h = (h.0, Pairs-modify P z i xs ys at p h.1)
