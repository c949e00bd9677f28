-- ===== src/CustomerService/Dialogue/Talks.antt =====
-- A conversation from its first turn on. A turn that raises is not among its steps: the caller drops
-- the copy that it worked on.
use vllm_verifier.Base.{
  ℕ, suc, ◌+◌, ◌≤◌, ◌≡◌, ◌≢◌, refl, sym, subst, ap, ◌∙◌, ◌⊎◌, inl, inr, String, true, Option, some,
  List, [], ◌∷◌, ◌++◌, arith, length, keys, get_elem?, get_elem?-append_last, ltb, if◌then◌else◌,
  if-split,
}
use Prim.Native.String.{◌++◌ as ◌<>◌}
use text.Mathlib.TextLemmas.{append_cancel_left}
use vllm_verifier.Answers.{decimal}
use vllm_verifier.Answers.Numerals.{
  read_decimal, read_behind, read_behind-append, read_decimal-decimal,
}
use vllm_verifier.Errors.{Result, ok}
use vllm_verifier.CustomerService.Catalog.{Catalog}
use vllm_verifier.CustomerService.Texts.{TextLibrary}
use vllm_verifier.CustomerService.Store.{Fixtures, Ticket, DemoStore, new_store}
use vllm_verifier.CustomerService.Actions.{padded}
use vllm_verifier.CustomerService.Dialogue.{Classification, Conversation, new_conversation}
use vllm_verifier.CustomerService.Dialogue.Turn.{turn}
use vllm_verifier.CustomerService.Dialogue.Calm.{confirms_mutations}
use vllm_verifier.CustomerService.Dialogue.Gate.{Confirmed, turn_lem}

-- The conversations that the turns lead to, from a new one.
pub data Talks (lib : TextLibrary) (catalog : Catalog) (fixtures : Fixtures)
    (classify : (text context : String) → Result Classification) : Conversation → Type 0 where
  begun : Talks lib catalog fixtures classify (new_conversation (new_store fixtures))
  spoken :
      {s after : Conversation} (text : String) (selected : Option String)
      → Talks lib catalog fixtures classify s
      → turn lib catalog fixtures classify s text selected ≡ ok after
      → Talks lib catalog fixtures classify after

-- Each ticket is numbered by its place, from one on.
abbrev pub Numbered : List Ticket → Type 0
Numbered tickets =
    (i : ℕ) (t : Ticket) → get_elem? tickets i ≡ some t → t.id ≡ "DEMO-" <> padded (suc i)

append-Numbered :
    (tickets : List Ticket) (t : Ticket)
    → Numbered tickets
    → t.id ≡ "DEMO-" <> padded (length tickets + 1)
    → Numbered (tickets ++ t ∷ [])
append-Numbered tickets t h e i u found = elim (get_elem?-append_last tickets t i found) [
  | inl old ↦ h i u old
  | inr (last, same) ↦
      subst (λ (v : Ticket). v.id ≡ "DEMO-" <> padded (suc i)) same
        (e
          ∙ ap (λ n. "DEMO-" <> padded n)
              (let place : length tickets + 1 ≡ suc i = omega (arith, last) in place))
]

read_padded : (n : ℕ) → read_decimal (padded n) ≡ n
read_padded n =
    read_behind-append 0
      (if ltb n 10 then "000" else if ltb n 100 then "00" else if ltb n 1000 then "0" else "")
      (decimal n)
    ∙ (ap (λ k. read_behind k (decimal n))
          (if-split (λ zeros. read_decimal zeros ≡ 0) (ltb n 10) _ _ refl
            (if-split (λ zeros. read_decimal zeros ≡ 0) (ltb n 100) _ _ refl
              (if-split (λ zeros. read_decimal zeros ≡ 0) (ltb n 1000) _ _ refl refl)))
        ∙ read_decimal-decimal n)

-- Two places have two numbers.
Numbered-distinct :
    (tickets : List Ticket) (i j : ℕ) (t u : Ticket)
    → Numbered tickets
    → get_elem? tickets i ≡ some t
    → get_elem? tickets j ≡ some u
    → t.id ≡ u.id
    → i ≡ j
Numbered-distinct tickets i j t u h e₁ e₂ same =
    let texts : padded (suc i) ≡ padded (suc j) =
      append_cancel_left "DEMO-" _ _ (sym (h i t e₁) ∙ (same ∙ h j u e₂)) in
    let numbers : suc i ≡ suc j =
      sym (read_padded (suc i)) ∙ (ap read_decimal texts ∙ read_padded (suc j)) in
    omega arith

module _ (lib : TextLibrary) (catalog : Catalog) (fixtures : Fixtures)
    (classify : (text context : String) → Result Classification)
    (confirms : confirms_mutations catalog ≡ true) where
  -- If every intent that changes the store wants a confirmation, a conversation keeps, after any
  -- number of turns, at most eight suspended frames and at most thirty messages.
  pub talk_bounds :
      (s : Conversation)
      → Talks lib catalog fixtures classify s
      → (length s.suspended ≤ 8) × (length s.messages ≤ 30)
  talk_bounds s begun = (omega arith, omega arith)
  talk_bounds s (spoken {s = before} text selected talks h) =
      let t =
        turn_lem lib catalog fixtures classify before s text selected confirms
          (talk_bounds before talks).0 h in
      (t.suspended, t.messages)

  -- If every intent that changes the store wants a confirmation, a turn of a conversation that returns
  -- leaves the store as it was, or the text said yes to the active frame, that frame waited for its
  -- confirmation, and one ticket was filed for its intent and its slots.
  pub talk_store :
      (s after : Conversation) (text : String) (selected : Option String)
      → Talks lib catalog fixtures classify s
      → turn lib catalog fixtures classify s text selected ≡ ok after
      → (after.store ≡ s.store) ⊎ Confirmed lib catalog fixtures s.store s.active text after.store
  talk_store s after text selected talks h =
      (turn_lem lib catalog fixtures classify s after text selected confirms (talk_bounds s talks).0
        h).store

  -- If every intent that changes the store wants a confirmation, a conversation has numbered its
  -- tickets "DEMO-" and their place, from one on, in the order of filing, and it still has the orders
  -- that it began with, by their numbers.
  pub talk_tickets :
      (s : Conversation)
      → Talks lib catalog fixtures classify s
      → Numbered s.store.tickets × (keys s.store.orders ≡ keys fixtures.orders)
  talk_tickets s begun = (λ i t found. absurd (ground arith), refl)
  talk_tickets s (spoken {s = before} text selected talks h) =
      let (numbered, orders) = talk_tickets before talks in
      elim (talk_store before s text selected talks h) [
        | inl same ↦ (
          subst (λ (st : DemoStore). Numbered st.tickets) (sym same) numbered,
          ap (λ (st : DemoStore). keys st.orders) same ∙ orders,
        )
        | inr c ↦ (
          subst Numbered (sym c.filed.tickets)
              (append-Numbered _ c.filed.ticket numbered c.filed.id),
          c.filed.orders ∙ orders,
        )
      ]

  -- If every intent that changes the store wants a confirmation, two tickets of a conversation at
  -- different places have different identifiers.
  pub talk_ids :
      (s : Conversation) (i j : ℕ) (t u : Ticket)
      → Talks lib catalog fixtures classify s
      → get_elem? s.store.tickets i ≡ some t
      → get_elem? s.store.tickets j ≡ some u
      → i ≢ j
      → t.id ≢ u.id
  talk_ids s i j t u talks first second other same =
      other (Numbered-distinct s.store.tickets i j t u (talk_tickets s talks).0 first second same)
