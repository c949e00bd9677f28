-- ===== src/Vision.antt =====
-- vision.py (src/vllm_verifier/vision.py): the test of inline images. base64 and PIL are a parameter.
pub mod Raises
mod Tests
use Prim.Native.Char.{code}
use Prim.Native.String.{◌++◌ as ◌<>◌}
use text.Mathlib.TextLemmas.{cons-append, nil-append}
use vllm_verifier.Base.{
  ℕ, ◌*◌, ◌≤◌, ◌≡◌, refl, String, Bool, true, false, not, Option, none, some, List, [], ◌∷◌, All,
  ltb, ltb-false, ◌==◌, str_eq, str_eq_iff, if◌then◌else◌, Bool-cases, not-false, codes, ◌++◌, sym,
  ◌∙◌, ap, ap₂, subst, ◌⊎◌, inl, inr, ==_iff,
}
use vllm_verifier.Errors.{
  syntax_error, is_value_error, Exception, Result, ok, err, ◌>>=◌, ◌>>◌, >>=-eq-ok, raise_if,
  raise_if-eq-ok, value_error, key_error, service,
}

-- How `verify` ends: it returns, it raises an exception that is caught, or a `SyntaxError`.
pub data VerifyOutcome : Type 0 where
  intact broken broken_syntax : VerifyOutcome

-- What `Image.open` finds, and how `verify` ends.
pub record Opened : Type 0 where
  pub format : String
  pub width : ℕ
  pub height : ℕ
  pub verified : VerifyOutcome

-- `none` is an exception among those that `validate_images` catches.
pub record ImageLibrary : Type 1 where
  pub Bytes : Type 0
  -- `base64.b64decode(encoded, validate=True)`
  pub b64decode : String → Option Bytes
  pub byte_count : Bytes → ℕ
  -- `Image.open(io.BytesIO(decoded))`
  pub open_image : Bytes → Option Opened

-- `MIME_FORMATS`
abbrev pub mime_formats : List (String × String)
mime_formats = ("image/png", "PNG") ∷ ("image/jpeg", "JPEG") ∷ ("image/webp", "WEBP") ∷ []

-- `image.split(",", 1)`: the header and the rest, `none` if there is no comma.
abbrev pub behind_char :
    Bool → String → String → Option (String × String) → Option (String × String)
behind_char true c text later = some ("", text)
behind_char false c text none = none
behind_char false c text (some (header, rest)) = some (c <> header, rest)

abbrev pub split_comma : String → Option (String × String)
split_comma String.[] = none
split_comma (String.◌∷◌ c text) =
    behind_char (code c == 44) (String.◌∷◌ c String.[]) text (split_comma text)

-- The format of a header among the permitted ones: `header[5:-7]` is its MIME type.
abbrev pub format_of : String → List (String × String) → Option String
format_of header [] = none
format_of header ((mime, format) ∷ rest) =
    let later = format_of header rest in
    if str_eq header ("data:" <> (mime <> ";base64")) then some format else later

-- A value, or an exception that is caught.
abbrev pub or_invalid {ℓ} : {A : Type ℓ} → Option A → Result A
or_invalid none = err (value_error "invalid image")
or_invalid (some a) = ok a

-- `opened.verify()`
abbrev pub verify_image : VerifyOutcome → Result (Unit {0})
verify_image intact = ok tt
verify_image broken = err (value_error "broken image")
verify_image broken_syntax = err syntax_error

abbrev pub invalid_image : Exception
invalid_image =
    service 422 "invalid_image"
      "Use valid PNG, JPEG or WebP base64 data URLs, at most 8 MiB / 16 MP per image"

-- `except (ValueError, ...)`
abbrev pub as_invalid_image : Result (Unit {0}) → Result (Unit {0})
as_invalid_image (ok passed) = ok passed
as_invalid_image (err x) = if is_value_error x then err invalid_image else err x

some-injective {ℓ} : {A : Type ℓ} {a b : A} → some a ≡ some b → a ≡ b
some-injective h = cc

module _ (images : ImageLibrary) where
  open images use {Bytes, b64decode, byte_count, open_image}

  -- The `try` body, for one image.
  unfoldable pub check_image : String → Result (Unit {0})
  check_image image = do
    (header, encoded) ← or_invalid (split_comma image)
    format ← or_invalid (format_of header mime_formats)
    decoded ← or_invalid (b64decode encoded)
    raise_if (ltb 8388608 (byte_count decoded)) (value_error "image exceeds 8 MiB")
    opened ← or_invalid (open_image decoded)
    raise_if (not (str_eq opened.format format)) (value_error "MIME type does not match image")
    raise_if (ltb 16000000 (opened.width * opened.height))
        (value_error "image exceeds 16 megapixels")
    verify_image opened.verified

  unfoldable pub validate_images : List String → Result (Unit {0})
  validate_images [] = ok tt
  validate_images (image ∷ rest) = as_invalid_image (check_image image) >> validate_images rest

  -- The three headers, each with the format that an image behind it must have.
  abbrev pub IsType : String → String → Type 0
  IsType header format =
      ((header ≡ "data:image/png;base64") × (format ≡ "PNG"))
      ⊎ (((header ≡ "data:image/jpeg;base64") × (format ≡ "JPEG"))
          ⊎ ((header ≡ "data:image/webp;base64") × (format ≡ "WEBP")))

  -- An image that may reach the model: a data URL of a permitted type, whose bytes are at most 8 MiB
  -- and an intact image of that type with at most 16 million pixels.
  pub record IsPermitted (image : String) : Type 0 where
    pub header : String
    pub encoded : String
    pub format : String
    pub decoded : Bytes
    pub opened : Opened
    pub splits : codes image ≡ codes header ++ 44 ∷ codes encoded
    pub known : IsType header format
    pub decodes : b64decode encoded ≡ some decoded
    pub small : byte_count decoded ≤ 8388608
    pub opens : open_image decoded ≡ some opened
    pub matches : opened.format ≡ format
    pub pixels : opened.width * opened.height ≤ 16000000
    pub whole : opened.verified ≡ intact

  or_invalid-eq-ok : {A : Type 0} (o : Option A) {a : A} → or_invalid o ≡ ok a → o ≡ some a
  or_invalid-eq-ok none h = cc
  or_invalid-eq-ok (some a) h = cc

  verify_image-eq-ok : (v : VerifyOutcome) {u : Unit {0}} → verify_image v ≡ ok u → v ≡ intact
  verify_image-eq-ok intact h = refl
  verify_image-eq-ok broken h = cc
  verify_image-eq-ok broken_syntax h = cc

  codes-append : (s t : String) → codes (s <> t) ≡ codes s ++ codes t
  codes-append (String.◌∷◌ c s) t =
      ap codes (cons-append c s t) ∙ ap (λ l. code c ∷ l) (codes-append s t)
  codes-append String.[] t = ap codes (nil-append t)

  behind_char-eq-some :
      (b : Bool) (n : ℕ) (c text : String) (later : Option (String × String))
      {header encoded : String}
      → codes c ≡ n ∷ []
      → (b ≡ true → n ≡ 44)
      → ((h e : String) → later ≡ some (h, e) → codes text ≡ codes h ++ 44 ∷ codes e)
      → behind_char b c text later ≡ some (header, encoded)
      → n ∷ codes text ≡ codes header ++ 44 ∷ codes encoded
  behind_char-eq-some true n c text later one here next h =
      subst (λ p. n ∷ codes text ≡ codes p.0 ++ 44 ∷ codes p.1) (some-injective h)
        (ap (λ m. m ∷ codes text) (here refl))
  behind_char-eq-some false n c text none one here next h = cc
  behind_char-eq-some false n c text (some (header, rest)) one here next h =
      subst (λ p. n ∷ codes text ≡ codes p.0 ++ 44 ∷ codes p.1) (some-injective h)
        (rw (codes-append c header, one) (ap (λ l. n ∷ l) (next header rest refl)))

  split_comma-eq-some :
      (image : String) {header encoded : String}
      → split_comma image ≡ some (header, encoded)
      → codes image ≡ codes header ++ 44 ∷ codes encoded
  split_comma-eq-some (String.◌∷◌ c text) h =
      behind_char-eq-some (code c == 44) (code c) (String.◌∷◌ c String.[]) text (split_comma text)
        refl (λ e. (==_iff (code c) 44).0 e) (λ h e f. split_comma-eq-some text f) h
  split_comma-eq-some String.[] h = cc

  format_of-IsType :
      (header : String) {format : String}
      → format_of header mime_formats ≡ some format
      → IsType header format
  format_of-IsType header h = elim (Bool-cases (str_eq header "data:image/png;base64")) [
    | inl png ↦ inl ((str_eq_iff header _).0 png, sym (some-injective (rw png at h)))
    | inr no_png ↦ elim (Bool-cases (str_eq header "data:image/jpeg;base64")) [
      | inl jpeg ↦
          inr (inl ((str_eq_iff header _).0 jpeg, sym (some-injective (rw (no_png, jpeg) at h))))
      | inr no_jpeg ↦ elim (Bool-cases (str_eq header "data:image/webp;base64")) [
        | inl webp ↦ inr (
            inr (
              (str_eq_iff header _).0 webp,
              sym (some-injective (rw (no_png, no_jpeg, webp) at h)),
            ))
        | inr other ↦ absurd (cc (rw (no_png, no_jpeg, other) at h))
      ]
    ]
  ]

  check_image-IsPermitted :
      (image : String) {u : Unit {0}} → check_image image ≡ ok u → IsPermitted image
  unfolding check_image
  check_image-IsPermitted image h =
      let ((header, encoded), e₁, r₁) = >>=-eq-ok (or_invalid (split_comma image)) _ h in
      let (format, e₂, r₂) = >>=-eq-ok (or_invalid (format_of header mime_formats)) _ r₁ in
      let (decoded, e₃, r₃) = >>=-eq-ok (or_invalid (b64decode encoded)) _ r₂ in
      let (u₄, e₄, r₄) = >>=-eq-ok (raise_if (ltb 8388608 (byte_count decoded)) _) _ r₃ in
      let (opened, e₅, r₅) = >>=-eq-ok (or_invalid (open_image decoded)) _ r₄ in
      let (u₆, e₆, r₆) = >>=-eq-ok (raise_if (not (str_eq opened.format format)) _) _ r₅ in
      let (u₇, e₇, r₇) =
        >>=-eq-ok (raise_if (ltb 16000000 (opened.width * opened.height)) _) _ r₆ in
      record {
        header = header;
        encoded = encoded;
        format = format;
        decoded = decoded;
        opened = opened;
        splits = split_comma-eq-some image (or_invalid-eq-ok _ e₁);
        known = format_of-IsType header (or_invalid-eq-ok _ e₂);
        decodes = or_invalid-eq-ok _ e₃;
        small = ltb-false 8388608 (byte_count decoded) (raise_if-eq-ok _ _ e₄);
        opens = or_invalid-eq-ok _ e₅;
        matches = (str_eq_iff opened.format format).0 (not-false _ (raise_if-eq-ok _ _ e₆));
        pixels = ltb-false 16000000 (opened.width * opened.height) (raise_if-eq-ok _ _ e₇);
        whole = verify_image-eq-ok opened.verified r₇;
      }

  as_invalid_image-eq-ok :
      (r : Result (Unit {0})) {u : Unit {0}} → as_invalid_image r ≡ ok u → r ≡ ok u
  as_invalid_image-eq-ok (ok passed) h = h
  as_invalid_image-eq-ok (err x) h = elim (Bool-cases (is_value_error x)) [
    | inl caught ↦ absurd (cc (rw caught at h))
    | inr other ↦ absurd (cc (rw other at h))
  ]

  -- If `validate_images` returns, every image is a data URL of a permitted type, whose bytes are at
  -- most 8 MiB and an intact image of that type with at most 16 million pixels.
  pub validate_images-IsPermitted :
      (urls : List String) → validate_images urls ≡ ok tt → All IsPermitted urls
  unfolding validate_images
  validate_images-IsPermitted [] h = tt
  validate_images-IsPermitted (image ∷ rest) h =
      let (u, first, more) = >>=-eq-ok (as_invalid_image (check_image image)) _ h in
      (
        check_image-IsPermitted image (as_invalid_image-eq-ok _ first),
        validate_images-IsPermitted rest more,
      )
