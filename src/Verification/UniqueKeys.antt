-- ===== src/Verification/UniqueKeys.antt =====
-- `_unique_object` as the `object_pairs_hook` of `json.loads`: a JSON value that is accepted has no
-- object with a repeated key, and is the value as it stands in the text.
use vllm_verifier.Base.{
  ◌≡◌, refl, sym, subst, ap, ap₂, ◌∙◌, String, false, Option, some, none, inl, inr, Text, arith,
  str_eq, str_eq_iff, strip, Bool-cases,
}
use vllm_verifier.Errors.{Result, ok, err, >>=-eq-ok, ok-injective}
use vllm_verifier.Models.{
  Json, null, bool, int, float, str, arr, obj, Items, nil, cons, Fields, end, field,
}
use vllm_verifier.Floats.{Floats}
use vllm_verifier.Verification.{
  JsonReader, has_key, put_last, unique_from, unique_object, hook, hook_items, hook_fields, unfence,
  as_invalid, loads, strict_json,
}

str_eq_sym : (a b : String) → str_eq a b ≡ false → str_eq b a ≡ false
str_eq_sym a b h = elim (Bool-cases (str_eq b a)) [
  | inr differ ↦ differ
  | inl same ↦ cc (((str_eq_iff a b).1 (sym ((str_eq_iff b a).0 same))), h)
]

module _ {F : Type 0} where
  abbrev append_fields : Fields F → Fields F → Fields F
  append_fields end gs = gs
  append_fields (field k v fs) gs = field k v (append_fields fs gs)

  -- No key stands twice.
  abbrev pub NoRepeat : Fields F → Type 0
  NoRepeat end = Unit
  NoRepeat (field k v fs) = (has_key k fs ≡ false) × NoRepeat fs

  -- No object within the value repeats a key.
  mutual
    pub HasUniqueKeys : Json F → Type 0
    HasUniqueKeys (arr xs) = ItemsUnique xs
    HasUniqueKeys (obj fs) = NoRepeat fs × FieldsUnique fs
    HasUniqueKeys _ = Unit

    pub ItemsUnique : Items F → Type 0
    ItemsUnique nil = Unit
    ItemsUnique (cons x xs) = HasUniqueKeys x × ItemsUnique xs

    pub FieldsUnique : Fields F → Type 0
    FieldsUnique end = Unit
    FieldsUnique (field k v fs) = HasUniqueKeys v × FieldsUnique fs

  append-end : (fs : Fields F) → append_fields fs end ≡ fs
  append-end end = refl
  append-end (field k v fs) = ap (field k v) (append-end fs)

  put_last-append :
      (fs : Fields F) (k : String) (v : Json F) (gs : Fields F)
      → append_fields (put_last fs k v) gs ≡ append_fields fs (field k v gs)
  unfolding put_last
  put_last-append end k v gs = refl
  put_last-append (field j w fs) k v gs = ap (field j w) (put_last-append fs k v gs)

  has_key-put_last :
      (j : String) (fs : Fields F) (k : String) (v : Json F)
      → has_key j fs ≡ false
      → str_eq k j ≡ false
      → has_key j (put_last fs k v) ≡ false
  unfolding has_key put_last
  has_key-put_last j end k v h d = ground arith
  has_key-put_last j (field i w fs) k v h d =
      let there : str_eq i j ≡ false = ground arith in
      rw (there, has_key-put_last j fs k v (rw there at h) d) refl

  NoRepeat-put_last :
      (fs : Fields F) (k : String) (v : Json F)
      → NoRepeat fs
      → has_key k fs ≡ false
      → NoRepeat (put_last fs k v)
  unfolding has_key put_last
  NoRepeat-put_last end k v h d = (refl, tt)
  NoRepeat-put_last (field j w fs) k v h d =
      let other : str_eq j k ≡ false = ground arith in
      (
        has_key-put_last j fs k v h.0 (str_eq_sym j k other),
        NoRepeat-put_last fs k v h.1 (rw other at d),
      )

  unique_from-eq-ok :
      (result pairs : Fields F) {out : Fields F}
      → NoRepeat result
      → unique_from result pairs ≡ ok out
      → (out ≡ append_fields result pairs) × NoRepeat out
  unfolding unique_from
  unique_from-eq-ok result end h eq =
      subst (λ o. (o ≡ append_fields result end) × NoRepeat o) (ok-injective eq)
        (sym (append-end result), h)
  unique_from-eq-ok result (field k v pairs) h eq = elim (Bool-cases (has_key k result)) [
    | inl twice ↦ cc (rw twice at eq)
    | inr once ↦
        let (same, fine) =
          unique_from-eq-ok (put_last result k v) pairs (NoRepeat-put_last result k v h once)
            (rw once at eq) in
        (same ∙ put_last-append result k v pairs, fine)
  ]

  -- `_unique_object` gives the pairs back, and accepts no repeated key.
  unique_object-eq-ok :
      (pairs : Fields F) {out : Fields F}
      → unique_object pairs ≡ ok out
      → (out ≡ pairs) × NoRepeat out
  unfolding unique_object
  unique_object-eq-ok pairs h = unique_from-eq-ok end pairs tt h

  mutual
    unfolding hook HasUniqueKeys

    hook-eq-ok : (j : Json F) {k : Json F} → hook j ≡ ok k → (k ≡ j) × HasUniqueKeys k
    hook-eq-ok (arr xs) h =
        let (ys, made, last) = >>=-eq-ok (hook_items xs) _ h in
        let (same, fine) = hook_items-eq-ok xs made in
        subst (λ k. (k ≡ arr xs) × HasUniqueKeys k) (ok-injective last) (ap arr same, fine)
    hook-eq-ok (obj fs) h =
        let (gs, made, rest) = >>=-eq-ok (hook_fields fs) _ h in
        let (hs, kept, last) = >>=-eq-ok (unique_object gs) _ rest in
        let (same, fine) = hook_fields-eq-ok fs made in
        let (again, distinct) = unique_object-eq-ok gs kept in
        subst (λ k. (k ≡ obj fs) × HasUniqueKeys k) (ok-injective last)
          (ap obj (again ∙ same), (distinct, subst FieldsUnique (sym again) fine))
    hook-eq-ok null h = subst (λ k. (k ≡ null) × HasUniqueKeys k) (ok-injective h) (refl, tt)
    hook-eq-ok (bool b) h = subst (λ k. (k ≡ bool b) × HasUniqueKeys k) (ok-injective h) (refl, tt)
    hook-eq-ok (int i) h = subst (λ k. (k ≡ int i) × HasUniqueKeys k) (ok-injective h) (refl, tt)
    hook-eq-ok (float x) h =
        subst (λ k. (k ≡ float x) × HasUniqueKeys k) (ok-injective h) (refl, tt)
    hook-eq-ok (str s) h = subst (λ k. (k ≡ str s) × HasUniqueKeys k) (ok-injective h) (refl, tt)

    hook_items-eq-ok :
        (xs : Items F) {ys : Items F} → hook_items xs ≡ ok ys → (ys ≡ xs) × ItemsUnique ys
    hook_items-eq-ok nil h = subst (λ ys. (ys ≡ nil) × ItemsUnique ys) (ok-injective h) (refl, tt)
    hook_items-eq-ok (cons x xs) h =
        let (y, one, rest) = >>=-eq-ok (hook x) _ h in
        let (ys, more, last) = >>=-eq-ok (hook_items xs) _ rest in
        let (same, fine) = hook-eq-ok x one in
        let (others, good) = hook_items-eq-ok xs more in
        subst (λ zs. (zs ≡ cons x xs) × ItemsUnique zs) (ok-injective last)
          (ap₂ cons same others, (fine, good))

    hook_fields-eq-ok :
        (fs : Fields F) {gs : Fields F} → hook_fields fs ≡ ok gs → (gs ≡ fs) × FieldsUnique gs
    hook_fields-eq-ok end h = subst (λ gs. (gs ≡ end) × FieldsUnique gs) (ok-injective h) (refl, tt)
    hook_fields-eq-ok (field k v fs) h =
        let (w, one, rest) = >>=-eq-ok (hook v) _ h in
        let (gs, more, last) = >>=-eq-ok (hook_fields fs) _ rest in
        let (same, fine) = hook-eq-ok v one in
        let (others, good) = hook_fields-eq-ok fs more in
        subst (λ zs. (zs ≡ field k v fs) × FieldsUnique zs) (ok-injective last)
          (ap₂ (field k) same others, (fine, good))

module _ (fl : Floats) (reader : JsonReader fl.F) where
  open fl use {F}

  as_invalid-eq-ok : (m : Result (Json F)) {raw : Json F} → as_invalid m ≡ ok raw → m ≡ ok raw
  as_invalid-eq-ok (ok a) h = h
  as_invalid-eq-ok (err e) h = absurd (ground arith)

  loads-eq-ok :
      (text : Text) (o : Option (Json F)) {raw : Json F}
      → reader.scan text ≡ o
      → loads fl reader text ≡ ok raw
      → (j : Json F) × (reader.scan text ≡ some j) × (hook j ≡ ok raw)
  unfolding loads
  loads-eq-ok text none e h = absurd (cc (rw (e, loads) at h))
  loads-eq-ok text (some j) e h = (j, e, rw (e, loads) at h)

  -- A value that `strict_json` returns is what the JSON grammar reads from the stripped and unfenced
  -- text, and none of its objects repeats a key.
  pub strict_json-HasUniqueKeys :
      (text : Text) (raw : Json F)
      → strict_json fl reader text ≡ ok raw
      → (reader.scan (unfence (strip reader.is_space text)) ≡ some raw) × HasUniqueKeys raw
  unfolding strict_json
  strict_json-HasUniqueKeys text raw h =
      let t = unfence (strip reader.is_space text) in
      let (j, read, hooked) =
        loads-eq-ok t (reader.scan t) refl (as_invalid-eq-ok (loads fl reader t) h) in
      let (same, fine) = hook-eq-ok j hooked in (read ∙ ap some (sym same), fine)
