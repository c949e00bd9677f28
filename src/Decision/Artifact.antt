-- ===== src/Decision/Artifact.antt =====
-- `verify_artifact` of decision/artifact.py: the files of the Kai export against its manifest. The
-- file system, `json.loads`, `hashlib` and the paths are a parameter.
use Prim.Native.String.{◌++◌ as ◌<>◌}
use vllm_verifier.Base.{
  ℕ, ◌≡◌, refl, subst, sym, String, Bool, true, false, ◌&&◌, ◌||◌, not, List, [], ◌∷◌, All, all,
  keys, elem, arith, ◌∙◌, codes, contains, starts_with, Text, ◌==◌, ==_iff, str_eq, str_eq_iff,
  &&_true, Bool-cases, not-false, inl, inr, if◌then◌else◌,
}
use vllm_verifier.Errors.{
  Result, ok, ◌>>=◌, ◌>>◌, >>=-eq-ok, raise_if, raise_if-eq-ok, value_error, ok-injective,
}

-- `MANIFEST_SHA256`
abbrev pub manifest_sha256 : String
manifest_sha256 = "c1bf07ab1c4c3fa1f819256d3de858d1ed87869bdfa663553280d7e78b88bee4"

-- What the manifest says of a file.
pub record FileReference : Type 0 where
  pub bytes : ℕ
  pub sha256 : String

-- The folder `native`, with the paths relative to it.
pub record Folder : Type 0 where
  -- `digest`
  pub digest : (path : String) → String
  -- `json.loads` of MANIFEST.json, `["files"]`
  pub manifest : Result (List (String × FileReference))
  -- `PurePosixPath(name).is_absolute()` and `.parts`
  pub is_absolute : (name : String) → Bool
  pub parts : (name : String) → List String
  pub is_symlink : (path : String) → Bool
  pub is_file : (path : String) → Bool
  pub size : (path : String) → ℕ
  -- `root.rglob("*")`, and the last part of a path
  pub rglob : List String
  pub name_of : (path : String) → String

module _ (folder : Folder) where
  open folder use {digest, manifest, is_absolute, parts, is_symlink, is_file, size, rglob, name_of}

  abbrev pub is_unsafe : String → Bool
  is_unsafe name = is_absolute name || elem ".." (parts name) || contains (codes "\\") (codes name)

  -- The body of the `for` loop, for one file of the manifest.
  unfoldable pub check_file : String → FileReference → Result (Unit {0})
  check_file name ref = do
    raise_if (is_unsafe name) (value_error "Unsafe artifact path")
    raise_if (is_symlink name || not (is_file name))
        (value_error ("Missing materialized artifact: " <> name))
    raise_if (not (size name == ref.bytes && str_eq (digest name) ref.sha256))
        (value_error ("Artifact checksum mismatch: " <> name))

  unfoldable pub check_files : List (String × FileReference) → Result (Unit {0})
  check_files [] = ok tt
  check_files ((name, ref) ∷ files) = check_file name ref >> check_files files

  -- `p.is_file() and "__pycache__" not in p.parts and p.name != "MANIFEST.json"`
  abbrev pub is_payload : String → Bool
  is_payload path =
      is_file path
      && not (elem "__pycache__" (parts path))
      && not (str_eq (name_of path) "MANIFEST.json")

  -- `actual`
  abbrev pub payload_of : List String → List String
  payload_of [] = []
  payload_of (path ∷ paths) =
      let rest = payload_of paths in if is_payload path then path ∷ rest else rest

  -- `a == b` for sets
  abbrev pub same_set : List String → List String → Bool
  same_set a b = all (λ x. elem x b) a && all (λ x. elem x a) b

  unfoldable pub verify_artifact : Result (Unit {0})
  verify_artifact = do
    raise_if (not (str_eq (digest "MANIFEST.json") manifest_sha256))
        (value_error "Kai manifest does not match the reviewed release")
    files ← manifest
    check_files files
    raise_if (not (same_set (payload_of rglob) (keys files)))
        (value_error "Unexpected artifact files")

  -- The name of the file is relative, no part of it is "..", and no character of it is a backslash;
  -- the file is no link itself, and has the size and the digest of the manifest.
  pub record IsReviewed (file : String × FileReference) : Type 0 where
    pub relative : is_absolute file.0 ≡ false
    pub no_parent : All (λ part. part ≡ ".." → ⊥) (parts file.0)
    pub no_backslash : All (λ c. c ≡ 92 → ⊥) (codes file.0)
    pub no_link : is_symlink file.0 ≡ false
    pub there : is_file file.0 ≡ true
    pub same_size : size file.0 ≡ file.1.bytes
    pub same_digest : digest file.0 ≡ file.1.sha256

  or_false : (a b : Bool) → (a || b) ≡ false → (a ≡ false) × (b ≡ false)
  or_false a b h = ground arith

  elem-false : (x : String) (xs : List String) → elem x xs ≡ false → All (λ y. y ≡ x → ⊥) xs
  elem-false x [] h = tt
  elem-false x (y ∷ ys) h =
      let (first, rest) = or_false (str_eq y x) (elem x ys) h in
      (λ e. absurd (cc (first, (str_eq_iff y x).1 e)), elem-false x ys rest)

  starts_here : (d c : ℕ) (s : Text) → d ≡ c → starts_with (c ∷ []) (d ∷ s) ≡ true
  starts_here d c [] e = rw ((==_iff d c).1 e) refl
  starts_here d c (x ∷ s) e = rw ((==_iff d c).1 e) refl

  contains-false : (c : ℕ) (s : Text) → contains (c ∷ []) s ≡ false → All (λ d. d ≡ c → ⊥) s
  contains-false c [] h = tt
  contains-false c (d ∷ s) h =
      let (first, rest) = or_false (starts_with (c ∷ []) (d ∷ s)) (contains (c ∷ []) s) h in
      (λ e. not_here e first, contains-false c s rest)
    where
      not_here : d ≡ c → starts_with (c ∷ []) (d ∷ s) ≡ false → ⊥
      not_here e k = absurd (cc (rw (starts_here d c s e) at k))

  check_file-IsReviewed :
      (name : String) (ref : FileReference) {u : Unit {0}}
      → check_file name ref ≡ ok u
      → IsReviewed (name, ref)
  unfolding check_file
  check_file-IsReviewed name ref h =
      let (u₁, e₁, r₁) = >>=-eq-ok (raise_if (is_unsafe name) _) _ h in
      let (u₂, e₂, r₂) = >>=-eq-ok (raise_if (is_symlink name || not (is_file name)) _) _ r₁ in
      let (link, file) = or_false (is_symlink name) (not (is_file name)) (raise_if-eq-ok _ _ e₂) in
      let (sizes, digests) =
        &&_true (size name == ref.bytes) _ (not-false _ (raise_if-eq-ok _ _ r₂)) in
      let safe : is_unsafe name ≡ false = raise_if-eq-ok (is_unsafe name) _ e₁ in
      let (rooted, no_backslash) =
        or_false (is_absolute name || elem ".." (parts name)) (contains (codes "\\") (codes name))
          safe in
      let (relative, no_parent) = or_false (is_absolute name) (elem ".." (parts name)) rooted in
      record {
        relative = relative;
        no_parent = elem-false ".." (parts name) no_parent;
        no_backslash = contains-false 92 (codes name) no_backslash;
        no_link = link;
        there = not-false _ file;
        same_size = (==_iff (size name) ref.bytes).0 sizes;
        same_digest = (str_eq_iff (digest name) ref.sha256).0 digests;
      }

  check_files-IsReviewed :
      (files : List (String × FileReference)) {u : Unit {0}}
      → check_files files ≡ ok u
      → All IsReviewed files
  unfolding check_files
  check_files-IsReviewed [] h = tt
  check_files-IsReviewed ((name, ref) ∷ files) h =
      let (u, first, rest) = >>=-eq-ok (check_file name ref) _ h in
      (check_file-IsReviewed name ref first, check_files-IsReviewed files rest)

  payload_lem :
      (paths files : List String) (path : String)
      → all (λ x. elem x files) (payload_of paths) ≡ true
      → elem path paths ≡ true
      → is_payload path ≡ true
      → elem path files ≡ true
  payload_lem [] files path h there payload = cc
  payload_lem (p ∷ paths) files path h there payload = elim (Bool-cases (str_eq p path)) [
    | inl same ↦
        let e : p ≡ path = (str_eq_iff p path).0 same in
        subst (λ x. elem x files ≡ true) e
          (&&_true (elem p files) _ (rw (subst (λ x. is_payload x ≡ true) (sym e) payload) at h)).0
    | inr other ↦
        payload_lem paths files path (keep_tail (is_payload p) h) (rw other at there) payload
  ]
    where
      keep_tail :
          (b : Bool)
          → all (λ x. elem x files) (if b then p ∷ payload_of paths else payload_of paths) ≡ true
          → all (λ x. elem x files) (payload_of paths) ≡ true
      keep_tail true k = (&&_true (elem p files) _ k).1
      keep_tail false k = k

  -- What the tests leave, one after the other.
  verify_artifact-eq-ok :
      (files : List (String × FileReference))
      → verify_artifact ≡ ok tt
      → manifest ≡ ok files
      → (digest "MANIFEST.json" ≡ manifest_sha256)
        × (check_files files ≡ ok tt)
        × (same_set (payload_of rglob) (keys files) ≡ true)
  unfolding verify_artifact
  verify_artifact-eq-ok files h m =
      let (u₁, e₁, r₁) =
        >>=-eq-ok (raise_if (not (str_eq (digest "MANIFEST.json") manifest_sha256)) _) _ h in
      let (files', e₂, r₂) = >>=-eq-ok manifest _ r₁ in
      let same : files' ≡ files = ok-injective (sym e₂ ∙ m) in
      let (u₃, e₃, r₃) = >>=-eq-ok (check_files files') _ r₂ in
      (
        (str_eq_iff (digest "MANIFEST.json") manifest_sha256).0
            (not-false _ (raise_if-eq-ok _ _ e₁)),
        subst (λ l. check_files l ≡ ok tt) same e₃,
        subst (λ l. same_set (payload_of rglob) (keys l) ≡ true) same
            (not-false _ (raise_if-eq-ok _ _ r₃)),
      )

  -- If `verify_artifact` returns, the manifest has the digest of the reviewed release, and every file
  -- that it lists has a relative name without ".." among its parts and without a backslash, is not
  -- itself a link, and has the size and the digest that the manifest gives.
  pub verify_artifact-IsReviewed :
      (files : List (String × FileReference))
      → verify_artifact ≡ ok tt
      → manifest ≡ ok files
      → (digest "MANIFEST.json" ≡ manifest_sha256) × All IsReviewed files
  verify_artifact-IsReviewed files h m =
      let (trusted, checked, _) = verify_artifact-eq-ok files h m in
      (trusted, check_files-IsReviewed files checked)

  -- If `verify_artifact` returns, a file that is found in the folder, but for the caches of Python and
  -- files named MANIFEST.json, is one that the manifest lists, so that its digest was compared.
  pub verify_artifact_payload :
      (files : List (String × FileReference)) (path : String)
      → verify_artifact ≡ ok tt
      → manifest ≡ ok files
      → elem path rglob ≡ true
      → is_payload path ≡ true
      → elem path (keys files) ≡ true
  verify_artifact_payload files path h m there payload =
      let (_, _, sets) = verify_artifact-eq-ok files h m in
      payload_lem rglob (keys files) path (&&_true _ _ sets).0 there payload
