-- ===== src/CustomerService/Actions.antt =====
-- actions.py of examples/customer_service: `execute`. No branch changes the store before it raises,
-- so an exception comes without a store.
pub mod Tickets
use Prim.Native.String.{◌++◌ as ◌<>◌}
use vllm_verifier.Base.{
  ℕ, suc, ◌+◌, String, Bool, true, false, ◌&&◌, ◌||◌, not, Option, none, some, List, [], ◌∷◌, ◌++◌,
  map, length, lookup, insert, elem, ltb, str_eq, if◌then◌else◌,
}
use vllm_verifier.Errors.{Result, ok, err, ◌>>=◌, ◌>>◌, item, key_error, type_error, value_error}
use vllm_verifier.Answers.{decimal}
use vllm_verifier.CustomerService.Catalog.{Intent}
use vllm_verifier.CustomerService.Texts.{TextLibrary, is_in, without_spaces, text_length, join}
use vllm_verifier.CustomerService.Store.{
  Product, Order, Promotion, Coupon, ProfileValue, text, Fixtures, Slots, Ticket, DemoStore, Card,
  order_card, event_card, coupon_card, product_card, ticket_card, product_named,
}
use vllm_verifier.CustomerService.Messages.{product_messages, order_messages}

-- What `execute` returns: the message and the cards.
abbrev pub Reply : Type 0
Reply = String × List Card

-- `d.get(key, default)`
abbrev pub get_or : {V : Type 0} → String → V → List (String × V) → V
get_or key default d = elim (lookup key d) [ none ↦ default | some v ↦ v ]

-- `[x for x in xs if test(x)]`
abbrev pub select {ℓ} : {A : Type ℓ} → (A → Bool) → List A → List A
select test [] = []
select test (x ∷ xs) = let rest = select test xs in if test x then x ∷ rest else rest

abbrev pub any {ℓ} : {A : Type ℓ} → (A → Bool) → List A → Bool
any test [] = false
any test (x ∷ xs) = test x || any test xs

-- The order of the slots, if there is one.
abbrev pub order_of : Slots → DemoStore → Option Order
order_of slots store = lookup (get_or "order_id" "" slots) store.orders

-- `order[...]`, a TypeError if `order` is `None`.
abbrev pub need {ℓ} : {A : Type ℓ} → Option A → Result A
need none = err type_error
need (some a) = ok a

-- `f"{n:04d}"`
abbrev pub padded : ℕ → String
padded n =
    (if ltb n 10 then "000" else if ltb n 100 then "00" else if ltb n 1000 then "0" else "")
    <> decimal n

-- `int(...)`
abbrev pub as_int : Option ℕ → Result ℕ
as_int none = err (value_error "int")
as_int (some n) = ok n

-- `order is None`
abbrev pub is_none {ℓ} : {A : Type ℓ} → Option A → Bool
is_none none = true
is_none (some a) = false

-- The keys that a shipped order refuses.
abbrev pub before_shipping : List String
before_shipping =
    "order_cancel" ∷ "order_quantity" ∷ "order_option" ∷ "delivery_address" ∷ "coupon_apply" ∷ []

unfoldable pub show_order : String → Slots → Option Order → Result Reply
show_order key slots order = do
  o ← need order
  id ← item "order_id" slots
  ok (get_or key ("주문 상태: " <> (o.status <> ".")) (order_messages o), order_card id o ∷ [])

-- The test of the status.
unfoldable pub refuses_shipped : String → Option Order → Result Bool
refuses_shipped key order =
    if elem key before_shipping
    then (do o ← need order; ok (not (str_eq o.status "결제 완료")))
    else ok false

abbrev pub set_order : Slots → Order → DemoStore → DemoStore
set_order slots order store = record store {
  orders = insert (get_or "order_id" "" slots) order store.orders;
}

-- `store.profile.update(slots)`
abbrev pub update_profile : Slots → List (String × ProfileValue) → List (String × ProfileValue)
update_profile [] profile = profile
update_profile ((k, v) ∷ slots) profile = update_profile slots (insert k (text v) profile)

-- The ticket of the next request.
abbrev pub next_ticket : String → Slots → DemoStore → Ticket
next_ticket key slots store = record {
  id = "DEMO-" <> padded (length store.tickets + 1);
  intent = key;
  slots = slots;
}

abbrev pub add_ticket : Ticket → DemoStore → DemoStore
add_ticket ticket store = record store { tickets = store.tickets ++ ticket ∷ [] }

abbrev pub is_mutating : Intent → Bool
is_mutating intent = elem intent.handler ("mutation" ∷ "handoff" ∷ [])

module _ (lib : TextLibrary) (fixtures : Fixtures) where
  -- `any(... for word in [p["name"], *p["tags"], *p["aliases"]] if len(word) > 1)`
  unfoldable pub matches_query : String → Product → Bool
  matches_query query p =
      any
        (λ word.
          ltb 1 (text_length word)
          && (is_in (lib.lower (without_spaces word)) query
              || is_in query (lib.lower (without_spaces word))))
        (p.name ∷ (p.tags ++ p.aliases))

  abbrev pub search_message : String → List Product → String
  search_message raw [] = "일치하는 상품이 없어요. 이어폰, 가방, 텀블러, 티셔츠, 스피커로 검색해보세요."
  search_message raw (p ∷ found) =
      "“"
      <> (raw <> ("” 검색 결과 " <> (decimal (suc (length found)) <> "개예요. 상품명을 말하면 상세 정보를 볼 수 있어요.")))

  unfoldable pub search_products : Slots → Result Reply
  search_products slots = do
    raw ← item "query" slots
    let found = select (matches_query (lib.lower (without_spaces raw))) fixtures.products
    ok (search_message raw found, map product_card found)

  -- The `product` and `compare` handlers, behind the look-up of the product.
  unfoldable pub show_product : (key handler : String) → Slots → Option Product → Result Reply
  show_product key handler slots none = ok ("데모 상품 목록에서 상품을 선택해주세요.", [])
  show_product key handler slots (some product) =
      if str_eq handler "compare"
      then (do
        name ← item "other_product" slots
        ok (
          "두 상품의 가격과 사양을 비교해보세요.",
          elim (product_named name fixtures.products) [
            | none ↦ product_card product ∷ []
            | some other ↦ product_card product ∷ product_card other ∷ []
          ],
        ))
      else ok (get_or key product.description (product_messages product), product_card product ∷ [])

  -- The handlers that only read.
  unfoldable pub answer : Intent → Slots → DemoStore → Result Reply
  answer intent slots store =
      let h = intent.handler in
      if str_eq h "faq"
      then (do message ← item intent.id fixtures.faqs; ok (message, []))
      else if str_eq h "orders"
      then ok ("데모 고객의 주문 목록이에요.", map (λ o. order_card o.0 o.1) store.orders)
      else if str_eq h "events"
      then ok ("2026-09-23 기준 데모 이벤트예요.", map event_card fixtures.events)
      else if str_eq h "event"
      then (do
        name ← item "event" slots
        ok (
          "2026-09-23 기준 데모 이벤트예요.",
          map event_card (select (λ e. str_eq e.name name) fixtures.events),
        ))
      else if str_eq h "coupons"
      then ok ("쿠폰의 사용 조건과 유효기간을 확인해주세요.", map (λ c. coupon_card c.0 c.1) fixtures.coupons)
      else if str_eq h "coupon"
      then (do
        code ← item "coupon" slots
        ok (
          "쿠폰의 사용 조건과 유효기간을 확인해주세요.",
          map (λ c. coupon_card c.0 c.1) (select (λ c. str_eq c.0 code) fixtures.coupons),
        ))
      else if str_eq h "search"
      then search_products slots
      else if elem h ("product" ∷ "compare" ∷ [])
      then (do
        name ← item "product" slots
        show_product intent.id h slots (product_named name fixtures.products))
      else if str_eq h "order"
      then show_order intent.id slots (order_of slots store)
      else err (value_error "Unknown handler")

  -- The test of the option: the options, if the one of the slots is not among them.
  unfoldable pub refuses_option : String → Slots → Option Order → Result (Option (List String))
  refuses_option key slots order =
      if elem key ("order_option" ∷ "exchange_request" ∷ [])
      then (do
        o ← need order
        wanted ← item "option" slots
        product ← need (product_named o.product fixtures.products)
        ok (if elem wanted product.options then none else some product.options))
      else ok none

  -- The change of the order or the profile.
  unfoldable pub apply_change : String → Slots → Option Order → DemoStore → Result DemoStore
  apply_change key slots order store =
      if str_eq key "order_cancel"
      then (do o ← need order; ok (set_order slots (record o { status = "취소 완료" }) store))
      else if str_eq key "order_quantity"
      then (do
        raw ← item "quantity" slots
        n ← as_int (lib.int_of raw)
        o ← need order
        ok (set_order slots (record o { quantity = n }) store))
      else if str_eq key "order_option"
      then (do
        wanted ← item "option" slots
        o ← need order
        ok (set_order slots (record o { option = wanted }) store))
      else if str_eq key "delivery_address"
      then (do
        address ← item "address" slots
        o ← need order
        ok (set_order slots (record o { address = address }) store))
      else if str_eq key "delivery_instructions"
      then (do
        wish ← item "instructions" slots
        o ← need order
        ok (set_order slots (record o { instructions = some wish }) store))
      else if elem key
          ("email_change" ∷ "phone_change" ∷ "profile_change" ∷ "notification_settings" ∷ [])
      then ok (record store { profile = update_profile slots store.profile })
      else ok store

  -- Behind both tests: the change, the ticket, the message.
  unfoldable pub file_ticket :
      Intent → Slots → Option Order → DemoStore → Result (Reply × DemoStore)
  file_ticket intent slots order store = do
    changed ← apply_change intent.id slots order store
    let ticket = next_ticket intent.id slots changed
    ok (
      (
        intent.label
            <> (" 데모 접수를 완료했어요. 접수번호 " <> (ticket.id <> ". 실제 주문·계정 변경, 결제 또는 상담 연결은 발생하지 않아요.")),
        ticket_card ticket ∷ [],
      ),
      add_ticket ticket changed,
    )

  -- Behind the test of the option: the options to choose from, if it fails.
  unfoldable pub file_or_refuse :
      Intent → Slots → Option Order → DemoStore → Option (List String) → Result (Reply × DemoStore)
  file_or_refuse intent slots order store none = file_ticket intent slots order store
  file_or_refuse intent slots order store (some choices) =
      ok (("선택 가능한 옵션은 " <> (join ", " choices <> "예요. 옵션을 수정해 다시 요청해주세요."), []), store)

  -- Behind the test of the status, which is `true` for an order that is shipped.
  unfoldable pub mutate_unshipped :
      Intent → Slots → Option Order → DemoStore → Bool → Result (Reply × DemoStore)
  mutate_unshipped intent slots order store true =
      ok (("이 주문은 이미 출고되어 해당 변경을 할 수 없어요. ORD-1002는 출고 전 주문이에요.", []), store)
  mutate_unshipped intent slots order store false = do
    options ← refuses_option intent.id slots order
    file_or_refuse intent slots order store options

  -- The `mutation` and `handoff` handlers.
  unfoldable pub mutate : Intent → Slots → Option Order → DemoStore → Result (Reply × DemoStore)
  mutate intent slots order store = do
    shipped ← refuses_shipped intent.id order
    mutate_unshipped intent slots order store shipped

  unfoldable pub execute : Intent → Slots → DemoStore → Result (Reply × DemoStore)
  execute intent slots store =
      if elem "order_id" intent.required_slots && is_none (order_of slots store)
      then ok (("그 주문은 데모에 없어요. ORD-1001, ORD-1002, ORD-1003을 조회할 수 있어요.", []), store)
      else if is_mutating intent
      then mutate intent slots (order_of slots store) store
      else (do reply ← answer intent slots store; ok (reply, store))
