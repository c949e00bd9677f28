-- ===== src/Floats.antt =====
-- Python's `float` and the functions of `math` that the code calls, as a parameter of the model:
-- the operations are not under the repository, and the laws are what IEEE 754 and the `math`
-- documentation state of them.
use vllm_verifier.Base.{ℕ, ◌≤◌, ◌≡◌, Bool, true, false, ◌&&◌, List, All, all}
use vllm_verifier.Models.{ℤ, pos}

pub record Floats : Type 1 where
  pub F : Type 0
  -- the literals `0.0`, `1.0`, `0.01` and `2e-5`
  pub f_zero : F
  pub f_one : F
  pub f_hundredth : F
  pub f_2e_5 : F
  -- `float(i)`
  pub of_int : ℤ → F
  -- `a < b`, `a <= b`, `a == b`; each is false at a NaN
  pub ltb : F → F → Bool
  pub leb : F → F → Bool
  pub eqb : F → F → Bool
  pub is_finite : F → Bool
  pub sub : F → F → F
  pub mul : F → F → F
  -- `a / b` for `b` other than zero
  pub quot : F → F → F
  pub neg : F → F
  pub abs : F → F
  -- `math.log(a)` for `a > 0`
  pub log : F → F
  -- `math.fsum`
  pub fsum : List F → F

module _ (fl : Floats) where
  open fl use {
    F, f_zero, f_one, ltb, leb, is_finite, quot, fsum, eqb, f_hundredth, abs, sub, log, of_int,
  }

  -- `Probability`: `Field(ge=0, le=1, allow_inf_nan=False)`, and the test of `_probability`.
  abbrev pub in_unit : F → Bool
  in_unit p = leb f_zero p && leb p f_one && is_finite p

  -- What the proofs use of floating point.
  pub record FloatLaws : Type 0 where
    -- a comparison with a finite number in the middle is transitive
    pub not_lt_trans :
        (a b c : F) → is_finite b ≡ true → ltb a b ≡ false → ltb b c ≡ false → ltb a c ≡ false
    pub lt_asymm : (a b : F) → ltb a b ≡ true → ltb b a ≡ false
    pub zero_in_unit : in_unit f_zero ≡ true
    pub one_in_unit : in_unit f_one ≡ true
    -- for a number that is at least zero, `== 0` is false exactly if it is positive
    pub pos_of_nonneg : (a : F) → leb f_zero a ≡ true → eqb a f_zero ≡ false → ltb f_zero a ≡ true
    -- a correctly rounded sum of numbers that are not negative is at least each of them
    pub fsum_nonneg : (ps : List F) → all in_unit ps ≡ true → leb f_zero (fsum ps) ≡ true
    pub fsum_ge : (ps : List F) → all in_unit ps ≡ true → All (λ p. leb p (fsum ps) ≡ true) ps
    -- a number that is at least zero, and not farther from one than a hundredth, is finite
    pub near_one :
        (t : F)
        → leb f_zero t ≡ true
        → ltb f_hundredth (abs (sub t f_one)) ≡ false
        → is_finite t ≡ true
    -- a share of a positive, finite total is between zero and one
    pub quot_in_unit :
        (p t : F)
        → is_finite t ≡ true
        → leb f_zero p ≡ true
        → leb p t ≡ true
        → ltb f_zero t ≡ true
        → in_unit (quot p t) ≡ true
    -- what lies strictly between zero and one is a finite number
    pub between_in_unit : (a : F) → ltb f_zero a ≡ true → ltb a f_one ≡ true → in_unit a ≡ true
    -- the logarithm of a size of two or more is not zero
    pub log_ne_zero : (n : ℕ) → 2 ≤ n → eqb (log (of_int (pos n))) f_zero ≡ false
    pub of_int_zero : in_unit (of_int (pos 0)) ≡ true
    pub of_int_one : in_unit (of_int (pos 1)) ≡ true
