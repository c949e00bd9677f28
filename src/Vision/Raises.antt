-- ===== src/Vision/Raises.antt =====
-- What `validate_images` of vision.py raises.
use vllm_verifier.Base.{
  ◌*◌, ◌≡◌, String, Bool, true, false, not, Option, none, some, List, [], ◌∷◌, ltb, str_eq, ◌⊎◌,
  inl, inr,
}
use vllm_verifier.Errors.{
  syntax_error, Exception, Result, ok, err, ◌>>=◌, ◌>>◌, raise_if, value_error,
}
use vllm_verifier.Vision.{
  VerifyOutcome, intact, broken, broken_syntax, ImageLibrary, mime_formats, split_comma, format_of,
  or_invalid, verify_image, invalid_image, as_invalid_image, check_image, validate_images,
}

module _ (images : ImageLibrary) where
  open images use {Bytes, b64decode, byte_count, open_image}

  -- A run that raises nothing but a `ValueError` or the `SyntaxError` of `verify`.
  abbrev RaisesFew : {A : Type 0} → Result A → Type 0
  RaisesFew (ok a) = Unit
  RaisesFew (err (value_error m)) = Unit
  RaisesFew (err syntax_error) = Unit
  RaisesFew (err _) = ⊥

  bind-RaisesFew :
      {A B : Type 0} (r : Result A) (next : A → Result B)
      → RaisesFew r
      → ((a : A) → RaisesFew (next a))
      → RaisesFew (r >>= next)
  bind-RaisesFew (ok a) next h k = k a
  bind-RaisesFew (err (value_error m)) next h k = tt
  bind-RaisesFew (err syntax_error) next h k = tt
  bind-RaisesFew (err _) next h k = absurd h

  or_invalid-RaisesFew : {A : Type 0} (o : Option A) → RaisesFew (or_invalid o)
  or_invalid-RaisesFew none = tt
  or_invalid-RaisesFew (some a) = tt

  raise_if-RaisesFew : (b : Bool) (m : String) → RaisesFew (raise_if b (value_error m))
  raise_if-RaisesFew true m = tt
  raise_if-RaisesFew false m = tt

  verify_image-RaisesFew : (v : VerifyOutcome) → RaisesFew (verify_image v)
  verify_image-RaisesFew intact = tt
  verify_image-RaisesFew broken = tt
  verify_image-RaisesFew broken_syntax = tt

  check_image-RaisesFew : (image : String) → RaisesFew (check_image images image)
  unfolding check_image
  check_image-RaisesFew image =
      bind-RaisesFew (or_invalid (split_comma image)) _ (or_invalid-RaisesFew _) λ p.
        bind-RaisesFew (or_invalid (format_of p.0 mime_formats)) _ (or_invalid-RaisesFew _)
          λ format.
            bind-RaisesFew (or_invalid (b64decode p.1)) _ (or_invalid-RaisesFew _) λ decoded.
              bind-RaisesFew (raise_if (ltb 8388608 (byte_count decoded)) _) _
                (raise_if-RaisesFew _ _)
                λ small.
                  bind-RaisesFew (or_invalid (open_image decoded)) _ (or_invalid-RaisesFew _)
                    λ opened.
                      bind-RaisesFew (raise_if (not (str_eq opened.format format)) _) _
                        (raise_if-RaisesFew _ _)
                        λ same.
                          bind-RaisesFew (raise_if (ltb 16000000 (opened.width * opened.height)) _)
                            _ (raise_if-RaisesFew _ _) λ few. verify_image-RaisesFew opened.verified

  -- `validate_images` raises nothing but the error 422 "invalid_image" and the `SyntaxError` of a
  -- broken PNG, if base64 and PIL raise nothing else that it does not catch.
  pub validate_images_raises :
      (urls : List String) (x : Exception)
      → validate_images images urls ≡ err x
      → (x ≡ invalid_image) ⊎ (x ≡ syntax_error)
  unfolding validate_images
  validate_images_raises [] x h = cc
  validate_images_raises (image ∷ rest) x h =
      by_first (check_image images image) (check_image-RaisesFew image)
        (λ e. validate_images_raises rest x e) h
    where
      by_first :
          (r : Result (Unit {0}))
          → RaisesFew r
          → (validate_images images rest ≡ err x → (x ≡ invalid_image) ⊎ (x ≡ syntax_error))
          → (as_invalid_image r >> validate_images images rest) ≡ err x
          → (x ≡ invalid_image) ⊎ (x ≡ syntax_error)
      by_first (ok passed) few next e = next e
      by_first (err (value_error m)) few next e = inl cc
      by_first (err syntax_error) few next e = inr cc
      by_first (err _) few next e = absurd few
