-- ===== src/CustomerService/Actions/Tickets.antt =====
-- What `execute` of actions.py changes: tickets, orders and the profile.
use Prim.Native.String.{◌++◌ as ◌<>◌}
use vllm_verifier.Base.{
  ◌+◌, ◌≡◌, refl, sym, subst, ap, ◌⊎◌, inl, inr, String, Bool, true, false, ◌&&◌, not, Option, none,
  some, List, [], ◌∷◌, ◌++◌, length, lookup, insert, keys, elem, str_eq, str_eq_iff, Bool-cases,
  not-false, if-split,
}
use vllm_verifier.Errors.{Result, ok, err, ◌>>=◌, >>=-eq-ok, item, ok-injective}
use vllm_verifier.CustomerService.Catalog.{Intent}
use vllm_verifier.CustomerService.Texts.{TextLibrary}
use vllm_verifier.CustomerService.Store.{Order, Fixtures, Slots, Ticket, DemoStore, ticket_card}
use vllm_verifier.CustomerService.Actions.{
  Reply, as_int, get_or, order_of, need, padded, is_none, before_shipping, answer, refuses_shipped,
  refuses_option, set_order, apply_change, next_ticket, file_ticket, file_or_refuse,
  mutate_unshipped, mutate, update_profile, is_mutating, execute,
}

keys-insert :
    {V : Type 0} (k : String) (v : V) (d : List (String × V)) {w : V}
    → lookup k d ≡ some w
    → keys (insert k v d) ≡ keys d
unfolding lookup insert
keys-insert k v [] h = cc
keys-insert k v ((j, w) ∷ d) h = elim (Bool-cases (str_eq j k)) [
  | inl here ↦ rw here refl
  | inr other ↦ rw other (ap (λ l. j ∷ l) (keys-insert k v d (rw other at h)))
]

-- A request before shipping is about an order that is paid and not shipped.
abbrev pub MayChange : String → Option Order → Type 0
MayChange key order =
    (elem key before_shipping ≡ false) ⊎ ((o : Order) × (order ≡ some o) × (o.status ≡ "결제 완료"))

-- `after` is `before` with one more ticket, for the intent and its slots, numbered by its place; the
-- reply shows that ticket; and no order was added or removed.
pub record Filed (intent : Intent) (slots : Slots) (before after : DemoStore) (reply : Reply)
    : Type 0 where
  pub ticket : Ticket
  pub tickets : after.tickets ≡ before.tickets ++ ticket ∷ []
  pub id : ticket.id ≡ "DEMO-" <> padded (length before.tickets + 1)
  pub intent_id : ticket.intent ≡ intent.id
  pub ticket_slots : ticket.slots ≡ slots
  pub cards : reply.1 ≡ ticket_card ticket ∷ []
  pub orders : keys after.orders ≡ keys before.orders
  pub mutating : is_mutating intent ≡ true
  pub allowed : MayChange intent.id (order_of slots before)

module _ (lib : TextLibrary) (fixtures : Fixtures) where
  -- The change keeps the tickets and the numbers of the orders.
  abbrev Changed : DemoStore → Result DemoStore → Type 0
  Changed store (ok changed) =
      (changed.tickets ≡ store.tickets) × (keys changed.orders ≡ keys store.orders)
  Changed store (err x) = Unit

  set_order-Changed :
      (slots : Slots) (o : Option Order) (f : Order → Order) (store : DemoStore)
      → order_of slots store ≡ o
      → Changed store (do x ← need o; ok (set_order slots (f x) store))
  set_order-Changed slots none f store e = tt
  set_order-Changed slots (some x) f store e =
      (refl, keys-insert (get_or "order_id" "" slots) (f x) store.orders e)

  bind-Changed :
      {A : Type 0} (r : Result A) (store : DemoStore) (f : A → Result DemoStore)
      → ((a : A) → Changed store (f a))
      → Changed store (r >>= f)
  bind-Changed (ok a) store f h = h a
  bind-Changed (err x) store f h = tt

  apply_change-Changed :
      (key : String) (slots : Slots) (store : DemoStore)
      → Changed store (apply_change lib fixtures key slots (order_of slots store) store)
  unfolding apply_change
  apply_change-Changed key slots store =
      let change =
        λ (f : Order → Order). set_order-Changed slots (order_of slots store) f store refl in
      if-split (Changed store) (str_eq key "order_cancel") _ _ (change _) (
        if-split (Changed store) (str_eq key "order_quantity") _ _
          (bind-Changed (item "quantity" slots) store _
            λ raw. bind-Changed (as_int (lib.int_of raw)) store _ λ n. change _)
          (if-split (Changed store) (str_eq key "order_option") _ _
            (bind-Changed (item "option" slots) store _ λ wanted. change _)
            (if-split (Changed store) (str_eq key "delivery_address") _ _
              (bind-Changed (item "address" slots) store _ λ address. change _)
              (if-split (Changed store) (str_eq key "delivery_instructions") _ _
                (bind-Changed (item "instructions" slots) store _ λ wish. change _)
                (if-split (Changed store)
                  (elem key (
                    "email_change" ∷ "phone_change" ∷ "profile_change" ∷ "notification_settings"
                    ∷ []))
                  (ok (record store { profile = update_profile slots store.profile })) (ok store)
                  (refl, refl) (refl, refl))))))

  file_ticket-Filed :
      (intent : Intent) (slots : Slots) (store after : DemoStore) (reply : Reply)
      → is_mutating intent ≡ true
      → MayChange intent.id (order_of slots store)
      → file_ticket lib fixtures intent slots (order_of slots store) store ≡ ok (reply, after)
      → Filed intent slots store after reply
  unfolding file_ticket
  file_ticket-Filed intent slots store after reply mutating allowed h =
      let (changed, e, last) =
        >>=-eq-ok (apply_change lib fixtures intent.id slots (order_of slots store) store) _ h in
      let (same, orders) = subst (Changed store) e (apply_change-Changed intent.id slots store) in
      subst (λ (p : Reply × DemoStore). Filed intent slots store p.1 p.0) (ok-injective last)
        (record {
          ticket = next_ticket intent.id slots changed;
          tickets = ap (λ l. l ++ next_ticket intent.id slots changed ∷ []) same;
          id = ap (λ (l : List Ticket). "DEMO-" <> padded (length l + 1)) same;
          intent_id = refl;
          ticket_slots = refl;
          cards = refl;
          orders = orders;
          mutating = mutating;
          allowed = allowed;
        })

  refuses_shipped-MayChange :
      (key : String) (order : Option Order)
      → refuses_shipped key order ≡ ok false
      → MayChange key order
  unfolding refuses_shipped
  refuses_shipped-MayChange key order h = elim (Bool-cases (elem key before_shipping)) [
    | inr other ↦ inl other
    | inl early ↦ paid order (rw early at h)
  ]
    where
      paid :
          (o : Option Order)
          → (do x ← need o; ok (not (str_eq x.status "결제 완료"))) ≡ ok false
          → MayChange key o
      paid none e = cc
      paid (some x) e =
          inr (x, refl, (str_eq_iff x.status "결제 완료").0 (not-false _ (ok-injective e)))

  -- What a handler leaves behind.
  abbrev pub Leaves : Intent → Slots → DemoStore → DemoStore → Reply → Type 0
  Leaves intent slots before after reply = (after ≡ before) ⊎ Filed intent slots before after reply

  file_or_refuse-Leaves :
      (intent : Intent) (slots : Slots) (store after : DemoStore) (reply : Reply)
      (options : Option (List String))
      → is_mutating intent ≡ true
      → MayChange intent.id (order_of slots store)
      → file_or_refuse lib fixtures intent slots (order_of slots store) store options
        ≡ ok (reply, after)
      → Leaves intent slots store after reply
  unfolding file_or_refuse
  file_or_refuse-Leaves intent slots store after reply none mutating allowed h =
      inr (file_ticket-Filed intent slots store after reply mutating allowed h)
  file_or_refuse-Leaves intent slots store after reply (some choices) mutating allowed h =
      inl (sym (ap (λ (p : Reply × DemoStore). p.1) (ok-injective h)))

  mutate_unshipped-Leaves :
      (intent : Intent) (slots : Slots) (store after : DemoStore) (reply : Reply) (shipped : Bool)
      → is_mutating intent ≡ true
      → refuses_shipped intent.id (order_of slots store) ≡ ok shipped
      → mutate_unshipped lib fixtures intent slots (order_of slots store) store shipped
        ≡ ok (reply, after)
      → Leaves intent slots store after reply
  unfolding mutate_unshipped
  mutate_unshipped-Leaves intent slots store after reply true mutating e h =
      inl (sym (ap (λ (p : Reply × DemoStore). p.1) (ok-injective h)))
  mutate_unshipped-Leaves intent slots store after reply false mutating e h =
      let (options, _, rest) =
        >>=-eq-ok (refuses_option lib fixtures intent.id slots (order_of slots store)) _ h in
      file_or_refuse-Leaves intent slots store after reply options mutating
        (refuses_shipped-MayChange intent.id (order_of slots store) e) rest

  -- If `execute` returns, the store is as it was; or the intent is a change, one ticket was filed for
  -- it, numbered by its place and shown in the reply, no order was added or removed, and a change
  -- that has to come before shipping was to an order that is paid and not shipped.
  pub execute_lem :
      (intent : Intent) (slots : Slots) (store after : DemoStore) (reply : Reply)
      → execute lib fixtures intent slots store ≡ ok (reply, after)
      → (after ≡ store) ⊎ Filed intent slots store after reply
  unfolding execute mutate
  execute_lem intent slots store after reply h =
      elim (Bool-cases (elem "order_id" intent.required_slots && is_none (order_of slots store))) [
        | inl missing ↦
            inl (
              sym (ap (λ (p : Reply × DemoStore). p.1) (ok-injective (rw (missing, execute) at h))))
        | inr there ↦ elim (Bool-cases (is_mutating intent)) [
          | inl mutating ↦
              let h₁ : mutate lib fixtures intent slots (order_of slots store) store
                  ≡ ok (reply, after) =
                rw (there, mutating, execute) at h in
              let (shipped, e, rest) =
                >>=-eq-ok (refuses_shipped intent.id (order_of slots store)) _ h₁ in
              mutate_unshipped-Leaves intent slots store after reply shipped mutating e rest
          | inr reads ↦
              let h₁ : (do r ← answer lib fixtures intent slots store; ok (r, store))
                  ≡ ok (reply, after) =
                rw (there, reads, execute) at h in
              let (r, _, last) = >>=-eq-ok (answer lib fixtures intent slots store) _ h₁ in
              inl (sym (ap (λ (p : Reply × DemoStore). p.1) (ok-injective last)))
        ]
      ]
