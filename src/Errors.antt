-- ===== src/Errors.antt =====
-- errors.py, and the exceptions of Python and pydantic that the code raises or catches. A function
-- that may raise returns a `Result`.
use vllm_verifier.Base.{
  length, ap, sym, suc, ◌∙◌, lookup, some, none, arith, ◌⊎◌, inl, inr, ℕ, String, ◌≡◌, refl, Bool,
  true, false, List, [], ◌∷◌,
}

-- `ServiceError(status, code, message)`
pub record ServiceError : Type 0 where
  pub status : ℕ
  pub code : String
  pub message : String

pub data Exception : Type 0 where
  -- `InvalidOutput`, which is a `ValueError`
  invalid_output : String → Exception
  value_error : String → Exception
  -- pydantic's `ValidationError`, which is a `ValueError`
  validation_error : Exception
  runtime_error : String → Exception
  floating_point_error : String → Exception
  -- PIL's `verify` raises it of a broken PNG file
  syntax_error : Exception
  memory_error key_error index_error type_error assertion_error zero_division : Exception
  service_error : ServiceError → Exception

-- What a call gives: the exception that it raises, or its value.
pub data Result {ℓ} (V : Type ℓ) : Type ℓ where
  err : (raised : Exception) → Result V
  ok : (value : V) → Result V

-- `if test: raise x`
abbrev pub raise_if : (test : Bool) (x : Exception) → Result (Unit {0})
raise_if false x = ok tt
raise_if true x = err x

infixl 5 ◌>>=◌ ◌>>◌
-- One call and then the next one, unless the first raises.
abbrev pub ◌>>=◌ {ℓ κ} :
    {V : Type ℓ} {W : Type κ} (first : Result V) (next : V → Result W) → Result W
err x >>= next = err x
ok v >>= next = next v

abbrev pub ◌>>◌ {ℓ} : {W : Type ℓ} (test : Result (Unit {0})) (next : Result W) → Result W
test >> next = test >>= λ passed. next

-- `except ValueError`
abbrev pub is_value_error : Exception → Bool
is_value_error (invalid_output m) = true
is_value_error (value_error m) = true
is_value_error validation_error = true
is_value_error _ = false

-- `raise ServiceError(status, code, message)`
abbrev pub service : ℕ → String → String → Exception
service s c m = service_error (record { status = s; code = c; message = m })

-- `[f(x) for x in xs]`
abbrev pub traverse {ℓ κ} : {A : Type ℓ} {B : Type κ} → (A → Result B) → List A → Result (List B)
traverse f [] = ok []
traverse f (x ∷ xs) = do y ← f x; ys ← traverse f xs; ok (y ∷ ys)

-- If two calls in a row return, the first one did, and the second one did on its value.
pub >>=-eq-ok {ℓ κ} :
    {V : Type ℓ} {W : Type κ} (first : Result V) (next : V → Result W) {w : W}
    → (first >>= next) ≡ ok w
    → (v : V) × (first ≡ ok v) × (next v ≡ ok w)
>>=-eq-ok (err x) next returned = cc
>>=-eq-ok (ok v) next returned = (v, refl, returned)

pub raise_if-eq-ok : (b : Bool) (e : Exception) {u : Unit {0}} → raise_if b e ≡ ok u → b ≡ false
raise_if-eq-ok true e h = cc
raise_if-eq-ok false e h = refl

pub Result-cases {ℓ} :
    {A : Type ℓ} (r : Result A) → ((a : A) × (r ≡ ok a)) ⊎ ((e : Exception) × (r ≡ err e))
Result-cases (ok a) = inl (a, refl)
Result-cases (err e) = inr (e, refl)

pub ok-injective {ℓ} : {A : Type ℓ} {a b : A} → ok a ≡ ok b → a ≡ b
ok-injective h = cc

-- `d[k]`
unfoldable pub item {ℓ} : {V : Type ℓ} → String → List (String × V) → Result V
item k d = elim (lookup k d) [ none ↦ err key_error | some v ↦ ok v ]

pub item-eq-ok {ℓ} :
    {V : Type ℓ} (k : String) (d : List (String × V)) {v : V}
    → item k d ≡ ok v
    → lookup k d ≡ some v
unfolding item
item-eq-ok k d h = ground arith

pub item_of_lookup {ℓ} :
    {V : Type ℓ} (k : String) (d : List (String × V)) {v : V}
    → lookup k d ≡ some v
    → item k d ≡ ok v
unfolding item
item_of_lookup k d h = ground arith

pub length-traverse {ℓ κ} :
    {A : Type ℓ} {B : Type κ} (f : A → Result B) (xs : List A) {ys : List B}
    → traverse f xs ≡ ok ys
    → length ys ≡ length xs
length-traverse f [] {ys} h = ap length (sym (ok-injective h))
length-traverse f (x ∷ xs) {ys} h =
    let (y, one, rest) = >>=-eq-ok (f x) _ h in
    let (zs, more, last) = >>=-eq-ok (traverse f xs) _ rest in
    ap length (sym (ok-injective last)) ∙ ap suc (length-traverse f xs more)
