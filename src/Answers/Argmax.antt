-- ===== src/Answers/Argmax.antt =====
-- `max(range(size), key=...)`: the first index of a largest probability.
use vllm_verifier.Base.{
  ℕ, zero, suc, ◌<◌, ◌≡◌, refl, sym, subst, inl, inr, true, false, List, [], ◌∷◌, ◌++◌,
  append_assoc, append-nil, some, arith, length, length-append, get_elem?, get_elem?-append_last,
  get_elem?-append_left, get_elem?-length, lt_of_get_elem?, Bool-cases,
}
use vllm_verifier.Errors.{ok, ok-injective}
use vllm_verifier.Floats.{Floats, FloatLaws}
use vllm_verifier.Answers.{argmax_from, argmax}

module _ (fl : Floats) where
  open fl use {F, ltb, is_finite}

  -- `best` is the first place of a largest item of `ps`, and `p` that item.
  pub record IsFirstMax (ps : List F) (best : ℕ) (p : F) : Type 0 where
    pub at : get_elem? ps best ≡ some p
    pub largest : (j : ℕ) (x : F) → get_elem? ps j ≡ some x → ltb p x ≡ false
    pub first : (j : ℕ) (x : F) → get_elem? ps j ≡ some x → j < best → ltb x p ≡ true

  abbrev pub AreFinite : List F → Type 0
  AreFinite ps = (j : ℕ) (x : F) → get_elem? ps j ≡ some x → is_finite x ≡ true

  module _ (laws : FloatLaws fl) where
    irrefl : (y : F) → ltb y y ≡ false
    irrefl y = elim (Bool-cases (ltb y y)) [ inl yy ↦ cc (laws.lt_asymm y y yy) | inr fine ↦ fine ]

    -- A smaller or equal item changes nothing.
    keep_max :
        (ps : List F) (best : ℕ) (b p : F)
        → IsFirstMax ps best b
        → ltb b p ≡ false
        → IsFirstMax (ps ++ p ∷ []) best b
    keep_max ps best b p h le = record {
      at = get_elem?-append_left ps (p ∷ []) best h.at;
      largest = λ j x at. elim (get_elem?-append_last ps p j at) [
        | inl old ↦ h.largest j x old
        | inr (_, same) ↦ subst (λ y. ltb b y ≡ false) same le
      ];
      first = λ j x at lt. elim (get_elem?-append_last ps p j at) [
        | inl old ↦ h.first j x old lt
        | inr (last, _) ↦ absurd (omega (arith, lt_of_get_elem? ps best h.at))
      ];
    }

    -- A larger item is the new maximum.
    next_max :
        (ps : List F) (best : ℕ) (b p : F)
        → AreFinite ps
        → IsFirstMax ps best b
        → ltb b p ≡ true
        → IsFirstMax (ps ++ p ∷ []) (length ps) p
    next_max ps best b p finite h lt = record {
      at = get_elem?-length ps p [];
      largest = λ j x at. elim (get_elem?-append_last ps p j at) [
        | inl old ↦
            laws.not_lt_trans p b x (finite best b h.at) (laws.lt_asymm b p lt) (h.largest j x old)
        | inr (_, same) ↦ subst (λ y. ltb p y ≡ false) same (irrefl p)
      ];
      first = λ j x at below. elim (get_elem?-append_last ps p j at) [
        | inl old ↦ strict j x old
        | inr (last, _) ↦ absurd (omega arith)
      ];
    }
      where
        strict : (j : ℕ) (x : F) → get_elem? ps j ≡ some x → ltb x p ≡ true
        strict j x old = elim (Bool-cases (ltb x p)) [
          | inl below ↦ below
          | inr above ↦ cc (lt, laws.not_lt_trans b x p (finite j x old) (h.largest j x old) above)
        ]

    argmax_from-IsFirstMax :
        (seen : List F) (best : ℕ) (b : F) (i : ℕ) (ps : List F)
        → i ≡ length seen
        → AreFinite (seen ++ ps)
        → IsFirstMax seen best b
        → (p : F) × IsFirstMax (seen ++ ps) (argmax_from fl best b i ps) p
    unfolding argmax_from
    argmax_from-IsFirstMax seen best b i [] at finite h =
        (b, subst (λ l. IsFirstMax l best b) (sym (append-nil seen)) h)
    argmax_from-IsFirstMax seen best b i (p ∷ ps) at finite h =
        let whole = append_assoc seen (p ∷ []) ps in
        let finite' : AreFinite ((seen ++ p ∷ []) ++ ps) = subst AreFinite (sym whole) finite in
        let next : suc i ≡ length (seen ++ p ∷ []) = omega (arith, length-append seen (p ∷ [])) in
        elim (Bool-cases (ltb b p)) [
          | inl larger ↦ rw larger (
              let (m, done) = argmax_from-IsFirstMax (seen ++ p ∷ []) i p (suc i) ps next finite' (
                subst (λ n. IsFirstMax (seen ++ p ∷ []) n p) (sym at)
                  (next_max seen best b p
                    (λ j x e. finite j x (get_elem?-append_left seen (p ∷ ps) j e)) h larger)) in
              (m, subst (λ l. IsFirstMax l (argmax_from fl i p (suc i) ps) m) whole done))
          | inr other ↦ rw other (
              let (m, done) =
                argmax_from-IsFirstMax (seen ++ p ∷ []) best b (suc i) ps next finite'
                  (keep_max seen best b p h other) in
              (m, subst (λ l. IsFirstMax l (argmax_from fl best b (suc i) ps) m) whole done))
        ]

    pub argmax-IsFirstMax :
        (ps : List F) {best : ℕ}
        → AreFinite ps
        → argmax fl ps ≡ ok best
        → (p : F) × IsFirstMax ps best p
    unfolding argmax
    argmax-IsFirstMax [] finite h = cc
    argmax-IsFirstMax (p ∷ ps) {best} finite h =
        let start : IsFirstMax (p ∷ []) 0 p = record {
          at = refl;
          largest = only;
          first = λ j x at lt. absurd (omega arith);
        } in
        let (m, done) = argmax_from-IsFirstMax (p ∷ []) 0 p 1 ps refl finite start in
        (m, subst (λ n. IsFirstMax (p ∷ ps) n m) (ok-injective h) done)
      where
        only : (j : ℕ) (x : F) → get_elem? (p ∷ []) j ≡ some x → ltb p x ≡ false
        only zero x at = let same : p ≡ x = cc in subst (λ y. ltb p y ≡ false) same (irrefl p)
        only (suc j) x at = cc
