-- ===== src/Vision/Tests.antt =====
-- The test of images at concrete inputs.
use vllm_verifier.Base.{ℕ, ◌≡◌, refl, none, some, [], ◌∷◌, All, str_eq, if◌then◌else◌}
use vllm_verifier.Errors.{ok, err}
use vllm_verifier.Vision.{
  ImageLibrary, intact, invalid_image, check_image, validate_images, IsPermitted,
  validate_images-IsPermitted,
}

-- It decodes one text, to an image of four pixels.
abbrev small_images : ImageLibrary
small_images = record {
  Bytes = ℕ;
  b64decode = λ encoded. if str_eq encoded "AAAA" then some 3 else none;
  byte_count = λ n. n;
  open_image = λ n. some (record { format = "PNG"; width = 2; height = 2; verified = intact });
}

permits : validate_images small_images ("data:image/png;base64,AAAA" ∷ []) ≡ ok tt
unfolding validate_images check_image
permits = refl

validate_images-IsPermitted_example :
    All (IsPermitted small_images) ("data:image/png;base64,AAAA" ∷ [])
validate_images-IsPermitted_example =
    validate_images-IsPermitted small_images ("data:image/png;base64,AAAA" ∷ []) permits

refuses : validate_images small_images ("https://example.com/a.png" ∷ []) ≡ err invalid_image
unfolding validate_images check_image
refuses = refl
