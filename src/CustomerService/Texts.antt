-- ===== src/CustomerService/Texts.antt =====
-- What examples/customer_service takes from Python's `str`, `re` and `datetime`, as a parameter, and
-- the operations of `str` that the model computes itself.
use Prim.Native.Char.{code}
use Prim.Native.String.{◌++◌ as ◌<>◌}
use vllm_verifier.Base.{
  ℕ, zero, suc, String, Bool, Option, List, [], ◌∷◌, codes, contains, starts_with, length, ◌==◌,
  if◌then◌else◌,
}

-- A match is the list of its groups, the whole match first.
pub record TextLibrary : Type 0 where
  pub lower : String → String
  pub upper : String → String
  pub strip : String → String
  -- `re.search`, `re.match` and `re.fullmatch`; the flag is `re.I`
  pub search : (pattern : String) → (ignore_case : Bool) → String → Option (List String)
  pub match : (pattern : String) → String → Option (List String)
  pub fullmatch : (pattern : String) → (ignore_case : Bool) → String → Option (List String)
  -- `re.sub(pattern, "", text)`
  pub erase : (pattern : String) → String → String
  -- `int(text)`, or `none` for its ValueError
  pub int_of : String → Option ℕ
  -- `dt.date.fromisoformat(text)` raises no ValueError
  pub is_iso_date : String → Bool

-- `part in text`
abbrev pub is_in : String → String → Bool
is_in part text = contains (codes part) (codes text)

-- `text.startswith(prefix)`
abbrev pub begins_with : String → String → Bool
begins_with prefix text = starts_with (codes prefix) (codes text)

-- `text[:n]`
abbrev pub first_chars : ℕ → String → String
first_chars zero text = ""
first_chars (suc n) String.[] = ""
first_chars (suc n) (String.◌∷◌ c text) = String.◌∷◌ c (first_chars n text)

-- `text.replace(" ", "")`
abbrev pub without_spaces : String → String
without_spaces String.[] = ""
without_spaces (String.◌∷◌ c text) =
    let rest = without_spaces text in if code c == 32 then rest else String.◌∷◌ c rest

-- `len(text)`
abbrev pub text_length : String → ℕ
text_length text = length (codes text)

-- `separator.join(texts)`
abbrev pub join : String → List String → String
join separator [] = ""
join separator (t ∷ []) = t
join separator (t ∷ u ∷ texts) = t <> (separator <> join separator (u ∷ texts))
