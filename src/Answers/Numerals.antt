-- ===== src/Answers/Numerals.antt =====
-- `str` of a number, read back by its digits.
use Prim.Native.Nat.{◌/◌, ◌%◌}
use Prim.Native.Char.{code}
use Prim.Native.String.{◌++◌ as ◌<>◌}
use text.Mathlib.TextLemmas.{nil-append, cons-append}
use vllm_verifier.Base.{
  ℕ, zero, suc, ◌+◌, ◌-◌, ◌*◌, ◌≤◌, ◌<◌, ◌≡◌, refl, ap, ◌∙◌, String, arith, ltb, ltb→lt, ltb-false,
  if-cases,
}
use vllm_verifier.Answers.{digit, decimal_fuel, decimal}

-- The number that a text of digits stands for, behind the number `n` read so far.
abbrev pub read_behind : ℕ → String → ℕ
read_behind n String.[] = n
read_behind n (String.◌∷◌ c text) = read_behind (10 * n + (code c - 48)) text

abbrev pub read_decimal : String → ℕ
read_decimal text = read_behind 0 text

pub read_behind-append :
    (n : ℕ) (a b : String) → read_behind n (a <> b) ≡ read_behind (read_behind n a) b
read_behind-append n String.[] b = rw (nil-append b) refl
read_behind-append n (String.◌∷◌ c a) b =
    ap (read_behind n) (cons-append c a b) ∙ read_behind-append (10 * n + (code c - 48)) a b

read_behind-digit : (n d : ℕ) → d < 10 → read_behind n (digit d) ≡ 10 * n + d
read_behind-digit n zero h = refl
read_behind-digit n (suc zero) h = refl
read_behind-digit n (suc (suc zero)) h = refl
read_behind-digit n (suc (suc (suc zero))) h = refl
read_behind-digit n (suc (suc (suc (suc zero)))) h = refl
read_behind-digit n (suc (suc (suc (suc (suc zero))))) h = refl
read_behind-digit n (suc (suc (suc (suc (suc (suc zero)))))) h = refl
read_behind-digit n (suc (suc (suc (suc (suc (suc (suc zero))))))) h = refl
read_behind-digit n (suc (suc (suc (suc (suc (suc (suc (suc zero)))))))) h = refl
read_behind-digit n (suc (suc (suc (suc (suc (suc (suc (suc (suc d))))))))) h =
    let last : d ≡ 0 = omega (arith, h) in rw last refl

tenth_lt : (n f : ℕ) → n ≤ suc f → 10 ≤ n → n / 10 ≤ f
tenth_lt n f h k = omega arith

read_decimal_fuel : (f n : ℕ) → n ≤ f → read_decimal (decimal_fuel f n) ≡ n
unfolding decimal_fuel
read_decimal_fuel zero n h = let none : n ≡ 0 = omega arith in rw none refl
read_decimal_fuel (suc f) n h =
    if-cases (λ text. read_decimal text ≡ n) (ltb n 10) _ _
      (λ small. read_behind-digit 0 n (ltb→lt n 10 small) ∙ omega arith)
      (λ large.
        read_behind-append 0 (decimal_fuel f (n / 10)) (digit (n % 10))
        ∙ (ap (λ m. read_behind m (digit (n % 10)))
              (read_decimal_fuel f (n / 10) (tenth_lt n f h (ltb-false n 10 large)))
            ∙ (read_behind-digit (n / 10) (n % 10) (omega arith) ∙ omega arith)))

-- Read digit by digit from the left, the text of any number gives that number.
pub read_decimal-decimal : (n : ℕ) → read_decimal (decimal n) ≡ n
unfolding decimal
read_decimal-decimal n = read_decimal_fuel n n (omega arith)
