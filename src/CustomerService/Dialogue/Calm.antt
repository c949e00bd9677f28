-- ===== src/CustomerService/Dialogue/Calm.antt =====
-- Lemmas on `reply`, `finish`, `advance` and `activate` of dialogue.py: the store, the frames and the
-- messages.
use vllm_verifier.Base.{
  ℕ, zero, suc, ◌-◌, ◌≤◌, ◌≡◌, refl, ◌∙◌, inl, inr, String, Bool, true, false, ◌||◌, not, Option,
  none, some, List, [], ◌∷◌, ◌++◌, arith, length, drop, all, all-lookup, values, str_eq, if-split,
  if-cases,
}
use vllm_verifier.Errors.{Result, ok, err, ◌>>=◌, item, item-eq-ok}
use vllm_verifier.CustomerService.Catalog.{Intent, Catalog, intent_of, slot_texts}
use vllm_verifier.CustomerService.Texts.{TextLibrary}
use vllm_verifier.CustomerService.Store.{Fixtures, DemoStore, Card}
use vllm_verifier.CustomerService.Actions.{Reply, is_mutating, execute}
use vllm_verifier.CustomerService.Actions.Tickets.{execute_lem}
use vllm_verifier.CustomerService.Dialogue.{
  Frame, Conversation, Entry, new_entry, last_items, reply, suspend, finish_frame, found_product,
  summary_lines, unknown_order, ask_slot, ask_confirmation, run_intent, proceed, advance_frame,
  frame_for, activate,
}

length-drop : {A : Type 0} (n : ℕ) (xs : List A) → length (drop n xs) ≡ length xs - n
length-drop zero xs = omega arith
length-drop (suc n) [] = omega arith
length-drop (suc n) (x ∷ xs) = omega (arith, length-drop n xs)

pub length-last_items : {A : Type 0} (n : ℕ) (xs : List A) → length (last_items n xs) ≤ n
length-last_items n xs = omega (arith, length-drop (length xs - n) xs)

-- Every request that changes the store is one that wants a confirmation.
abbrev pub confirms_mutations : Catalog → Bool
confirms_mutations catalog =
    all (λ i. not (is_mutating i) || i.confirmation) (values catalog.intents)

-- The value, if the call returns, satisfies the predicate.
abbrev pub Gives {ℓ} : {A : Type 0} → (A → Type ℓ) → Result A → Type ℓ
Gives P (ok a) = P a
Gives P (err x) = Unit

pub bind-Gives {ℓ} :
    {A B : Type 0} (P : B → Type ℓ) (r : Result A) (f : A → Result B)
    → ((a : A) → r ≡ ok a → Gives P (f a))
    → Gives P (r >>= f)
bind-Gives P (ok a) f h = h a refl
bind-Gives P (err x) f h = tt

pub Gives-mono {ℓ κ} :
    {A : Type 0} (P : A → Type ℓ) (Q : A → Type κ) (r : Result A)
    → ((a : A) → P a → Q a)
    → Gives P r
    → Gives Q r
Gives-mono P Q (ok a) f h = f a h
Gives-mono P Q (err x) f h = tt

-- The store `before` is untouched, and at most eight frames wait.
pub record Ready (before : DemoStore) (s : Conversation) : Type 0 where
  pub store : s.store ≡ before
  pub suspended : length s.suspended ≤ 8

-- And at most thirty messages are kept.
pub record Calm (before : DemoStore) (s : Conversation) : Type 0 where
  pub store : s.store ≡ before
  pub suspended : length s.suspended ≤ 8
  pub messages : length s.messages ≤ 30

module _ (before : DemoStore) where
  pub reply-Calm :
      (s : Conversation) (text : String) (cards : List Card) (suggestions : List String)
      → Ready before s
      → Calm before (reply s text cards suggestions)
  unfolding reply
  reply-Calm s text cards suggestions h = record {
    store = h.store;
    suspended = h.suspended;
    messages =
        length-last_items {A = Entry} 30 (s.messages ++ new_entry text cards suggestions ∷ []);
  }

  pub suspend-Ready : (f : Frame) (s : Conversation) → Ready before s → Ready before (suspend f s)
  suspend-Ready f s h = record {
    store = h.store;
    suspended = length-last_items {A = Frame} 8 (s.suspended ++ f ∷ []);
  }

  pub finish_frame-Calm :
      (f : Frame) (s : Conversation) (text : String) (cards : List Card)
      → Ready before s
      → Calm before (finish_frame f s text cards)
  unfolding finish_frame
  finish_frame-Calm f s text cards h =
      reply-Calm _ text cards _ (record { store = h.store; suspended = h.suspended })

reads_without_confirmation :
    (mutating confirmation : Bool)
    → (not mutating || confirmation) ≡ true
    → confirmation ≡ false
    → mutating ≡ true
    → ⊥
reads_without_confirmation mutating confirmation h₁ h₂ h₃ = ground arith

module _ (lib : TextLibrary) (catalog : Catalog) (fixtures : Fixtures) (before : DemoStore) where
  ask_slot-Calm :
      (intent : Intent) (slot : String) (s : Conversation) (prefix : String)
      → Ready before s
      → Gives (Calm before) (ask_slot lib catalog fixtures intent slot s prefix)
  unfolding ask_slot
  ask_slot-Calm intent slot s prefix h =
      bind-Gives (Calm before) (item slot slot_texts) _ λ t e. reply-Calm before s _ [] _ h

  ask_confirmation-Calm :
      (intent : Intent) (f : Frame) (s : Conversation) (prefix : String)
      → Ready before s
      → Gives (Calm before) (ask_confirmation lib catalog fixtures intent f s prefix)
  unfolding ask_confirmation
  ask_confirmation-Calm intent f s prefix h =
      bind-Gives (Calm before) (summary_lines f.slots) _
        λ t e. reply-Calm before _ _ [] _ (record { store = h.store; suspended = h.suspended })

  -- An intent that only reads leaves the store.
  run_intent-Calm :
      (intent : Intent) (f : Frame) (s : Conversation) (prefix : String)
      → (is_mutating intent ≡ true → ⊥)
      → Ready before s
      → Gives (Calm before) (run_intent lib catalog fixtures intent f s prefix)
  unfolding run_intent
  run_intent-Calm intent f s prefix reads h =
      bind-Gives (Calm before) (execute lib fixtures intent f.slots s.store) _ λ done e.
        bind-Gives (Calm before) (found_product intent done.0.1 f.slots) _ λ slots e₂.
          finish_frame-Calm before _ _ _ done.0.1
            (record { store = same done e ∙ h.store; suspended = h.suspended })
    where
      same :
          (done : Reply × DemoStore)
          → execute lib fixtures intent f.slots s.store ≡ ok done
          → done.1 ≡ s.store
      same done e = elim (execute_lem lib fixtures intent f.slots s.store done.1 done.0 e) [
        | inl kept ↦ kept
        | inr filed ↦ absurd (reads filed.mutating)
      ]

  proceed-Calm :
      (intent : Intent) (f : Frame) (s : Conversation) (prefix : String) (missing : List String)
      → (not (is_mutating intent) || intent.confirmation) ≡ true
      → Ready before s
      → Gives (Calm before) (proceed lib catalog fixtures intent f s prefix missing)
  unfolding proceed
  proceed-Calm intent f s prefix (slot ∷ missing) safe h = ask_slot-Calm intent slot s prefix h
  proceed-Calm intent f s prefix [] safe h =
      if-cases (Gives (Calm before)) intent.confirmation _ _
        (λ wanted. ask_confirmation-Calm intent f s prefix h)
        (λ direct. run_intent-Calm intent f s prefix (reads_without_confirmation _ _ safe direct) h)

  module _ (confirms : confirms_mutations catalog ≡ true) where
    intent_of_safe :
        (key : String) (intent : Intent)
        → intent_of catalog key ≡ ok intent
        → (not (is_mutating intent) || intent.confirmation) ≡ true
    intent_of_safe key intent e =
        all-lookup (λ (i : Intent). not (is_mutating i) || i.confirmation) key catalog.intents
          confirms (item-eq-ok key catalog.intents e)

    pub advance_frame-Calm :
        (f : Frame) (s : Conversation) (prefix : String)
        → Ready before s
        → Gives (Calm before) (advance_frame lib catalog fixtures f s prefix)
    unfolding advance_frame
    advance_frame-Calm f s prefix h =
        bind-Gives (Calm before) (intent_of catalog f.intent) _ λ intent e.
          if-split (Gives (Calm before)) (unknown_order f.slots s.store) _ _
            (reply-Calm before _ _ [] _ (record { store = h.store; suspended = h.suspended }))
            (proceed-Calm intent f s prefix _ (intent_of_safe f.intent intent e) h)

    frame_for-Ready :
        (key : String) (allowed : List String) (text : String) (s : Conversation)
        (active : Option Frame)
        → Ready before s
        → Ready before (frame_for key allowed text s active).1
    frame_for-Ready key allowed text s none h = h
    frame_for-Ready key allowed text s (some f) h =
        if-split (λ (p : Frame × Conversation). Ready before p.1) (str_eq f.intent key) _ _ h
          (suspend-Ready before f s h)

    pub activate-Calm :
        (s : Conversation) (key text : String)
        → Ready before s
        → Gives (Calm before) (activate lib catalog fixtures s key text)
    unfolding activate
    activate-Calm s key text h = bind-Gives (Calm before) (intent_of catalog key) _ λ intent e.
        let r = frame_for-Ready key intent.required_slots text s s.active h in
        advance_frame-Calm _ _ "" (record { store = r.store; suspended = r.suspended })
