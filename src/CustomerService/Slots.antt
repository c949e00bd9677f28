-- ===== src/CustomerService/Slots.antt =====
-- slots.py of examples/customer_service: conservative extraction of slots from a text. The regular
-- expressions are those of the code, for the `re` of the parameter.
use Prim.Native.Nat.{Ordering}
use Prim.Native.String.{◌++◌ as ◌<>◌, compare}
use vllm_verifier.Base.{
  ℕ, suc, String, Bool, true, false, ◌&&◌, ◌||◌, not, Option, none, some, List, [], ◌∷◌, map, codes,
  starts_with, Text, lookup, insert, keys, values, elem, ltb, leb, ◌==◌, str_eq, get_elem?,
  if◌then◌else◌,
}
use vllm_verifier.CustomerService.Catalog.{Catalog, Intent}
use vllm_verifier.CustomerService.Texts.{TextLibrary, is_in, first_chars, text_length}
use vllm_verifier.CustomerService.Store.{Product, Fixtures, Slots}
use vllm_verifier.CustomerService.Actions.{select, is_none}

-- `PREFIXES`
abbrev pub prefixes : List (String × String)
prefixes =
    ("reason", "사유")
    ∷ ("address", "주소")
    ∷ ("instructions", "요청")
    ∷ ("name", "이름")
    ∷ ("message", "문구")
    ∷ ("query", "검색어")
    ∷ []

-- `TASK_CUE`
abbrev pub task_cue : String
task_cue = "연결|조회|검색|추천|언제|어디|재고|이벤트|보여|알려|바꾸|변경|취소|환불|반품|교환|로그인|싶어|싶어요|해줘"

-- The questions of `is_request`.
abbrev pub question_cue : String
question_cue = "[?？]|(?:뭐|무엇|어떻게|얼마|몇시|몇 시|혹시)" <> "|(?:인가요|나요|까요|있어|없어|돼요|되나요|가능해|궁금|하고 싶|해주세요)"

-- `patterns` of `invalid_slot_attempt`
abbrev pub malformed_patterns : List (String × String)
malformed_patterns =
    ("order_id", "(?:ORD[- ]?)?[0-9-]+")
    ∷ ("quantity", "-?\\d+\\s*(?:개)?")
    ∷ ("date", "\\d{4}[-/.]\\d{1,2}[-/.]\\d{1,2}")
    ∷ ("email", "\\S*@\\S*")
    ∷ ("phone", "[+\\d][\\d -]{5,}")
    ∷ []

-- `match[i]`; the patterns have the groups that the code asks for.
abbrev pub group : ℕ → List String → String
group i groups = elim (get_elem? groups i) [ none ↦ "" | some g ↦ g ]

-- `text.find(part)`, or `none` for -1
abbrev pub position : Text → Text → Option ℕ
position part [] = if starts_with part [] then some 0 else none
position part (c ∷ text) =
    if starts_with part (c ∷ text)
    then some 0
    else elim (position part text) [ none ↦ none | some n ↦ some (suc n) ]

-- The least of the positions that there are.
abbrev pub least : List (Option ℕ) → Option ℕ
least [] = none
least (none ∷ ns) = least ns
least (some n ∷ ns) = elim (least ns) [ none ↦ some n | some m ↦ some (if leb n m then n else m) ]

-- The order of the pairs in `products.sort()`.
abbrev pub comes_first : ℕ × String → ℕ × String → Bool
comes_first (n, a) (m, b) =
    if n == m then elim (compare a b) [ Ordering.gt ↦ false | _ ↦ true ] else ltb n m

abbrev pub place_pair : ℕ × String → List (ℕ × String) → List (ℕ × String)
place_pair p [] = p ∷ []
place_pair p (q ∷ qs) =
    let rest = place_pair p qs in if comes_first p q then p ∷ q ∷ qs else q ∷ rest

abbrev pub sort_pairs : List (ℕ × String) → List (ℕ × String)
sort_pairs [] = []
sort_pairs (p ∷ ps) = place_pair p (sort_pairs ps)

-- The first of the names that the text has, as the value of the slot.
abbrev pub put_first : String → List String → String → Slots → Slots
put_first slot [] text result = result
put_first slot (name ∷ names) text result =
    let rest = put_first slot names text result in
    if is_in name text then insert slot name result else rest

-- A value of the slot made from a match, if there is one.
abbrev pub put_match : String → (List String → String) → Option (List String) → Slots → Slots
put_match slot value none result = result
put_match slot value (some groups) result = insert slot (value groups) result

-- `first or second`, for matches
abbrev pub or_match : Option (List String) → Option (List String) → Option (List String)
or_match none second = second
or_match (some groups) second = some groups

-- `expected == slot`
abbrev pub expects : String → Option String → Bool
expects slot none = false
expects slot (some e) = str_eq e slot

-- `m if test else None`
abbrev pub only_if : Bool → Option (List String) → Option (List String)
only_if true m = m
only_if false m = none

module _ (lib : TextLibrary) (catalog : Catalog) (fixtures : Fixtures) where
  unfoldable pub normalize : String → String
  normalize text = lib.lower (lib.erase "[\\s.!?。]+" text)

  unfoldable pub is_request : String → Bool
  is_request text =
      not (is_none (lib.search task_cue false text))
      || not (is_none (lib.search question_cue false text))
      || elem (normalize text) (map (λ (i : Intent). normalize i.label) (values catalog.intents))

  unfoldable pub invalid_slot_attempt : String → String → Bool
  invalid_slot_attempt text expected =
      if is_request text then false else elim (lookup expected malformed_patterns) [
        | none ↦ false
        | some pattern ↦ not (is_none (lib.fullmatch pattern true (lib.strip text)))
      ]

  -- The products that the text names, with their places.
  abbrev pub found_products : String → List Product → List (ℕ × String)
  found_products text [] = []
  found_products text (p ∷ products) =
      let names = p.name ∷ p.id ∷ select (λ a. ltb 1 (text_length a)) p.aliases in
      let places = map (λ n. position (codes (lib.lower n)) (codes (lib.lower text))) names in
      elim (least places) [
        | none ↦ found_products text products
        | some at ↦ (at, p.name) ∷ found_products text products
      ]

  -- From the sorted products to `product` and `other_product`.
  abbrev pub put_products : Option String → List (ℕ × String) → Slots → Slots
  put_products expected [] result = result
  put_products expected ((n, name) ∷ []) result =
      if expects "other_product" expected
      then insert "other_product" name result
      else insert "product" name result
  put_products expected ((n, name) ∷ (m, other) ∷ more) result =
      insert "other_product" other (insert "product" name result)

  abbrev pub put_order : String → Option String → Slots → Slots
  put_order text expected result =
      put_match "order_id" (λ groups. "ORD-" <> group 1 groups)
        (or_match (lib.search "\\bORD[- ]?(\\d{4})\\b" true text)
          (only_if (expects "order_id" expected) (lib.fullmatch "\\s*(\\d{4})\\s*" false text)))
        result

  abbrev pub put_option : String → Option String → Slots → Slots
  put_option text expected result =
      let size = lib.upper (lib.strip text) in
      if expects "option" expected && elem size ("S" ∷ "M" ∷ "L" ∷ [])
      then insert "option" size result
      else result

  abbrev pub put_quantity : String → Option String → Slots → Slots
  put_quantity text expected result =
      put_match "quantity" (group 1)
        (or_match (lib.search "(?<!\\d)([1-9]\\d?)\\s*개" false text)
          (only_if (expects "quantity" expected) (lib.fullmatch "\\s*([1-9]\\d?)\\s*" false text)))
        result

  abbrev pub put_date : Option (List String) → Slots → Slots
  put_date none result = result
  put_date (some groups) result =
      if lib.is_iso_date (group 0 groups) then insert "date" (group 0 groups) result else result

  abbrev pub put_notification : String → Slots → Slots
  put_notification text result =
      if is_in "끄" text || is_in "해제" text
      then insert "notification" "끄기" result
      else if is_in "켜" text || is_in "켜기" text
      then insert "notification" "켜기" result
      else result

  -- `for slot, prefix in PREFIXES.items()`
  abbrev pub put_prefixed : List (String × String) → String → Slots → Slots
  put_prefixed [] text result = result
  put_prefixed ((slot, prefix) ∷ rest) text result = put_prefixed rest text (
      put_match slot (λ groups. first_chars 200 (lib.strip (group 1 groups)))
        (lib.search (prefix <> "\\s*[:：]\\s*(.+)") false text) result)

  abbrev pub put_query : Option (List String) → Slots → Slots
  put_query none result = result
  put_query (some groups) result =
      let query = lib.strip (lib.erase "^(?:혹시|그럼|저는|나는)\\s*" (group 1 groups)) in
      if elem query ("상품" ∷ "제품" ∷ "다른 상품" ∷ "다른 제품" ∷ [])
      then result
      else insert "query" (first_chars 100 query) result

  -- The whole text as the value of the expected slot.
  abbrev pub put_expected : String → Option String → Slots → Slots
  put_expected text none result = result
  put_expected text (some expected) result =
      let whole = lib.strip text in
      if elem expected (keys prefixes)
        && not (elem expected (keys result))
        && not (is_request text)
        && ltb 0 (text_length whole)
        && leb (text_length whole) 100
        && not (elem (normalize text) ("네" ∷ "아니" ∷ "아니요" ∷ "몰라" ∷ "모르겠어" ∷ []))
      then insert expected whole result
      else result

  unfoldable pub extract : String → Option String → Slots
  extract text expected =
      let r₁ = put_order text expected [] in
      let r₂ = put_products expected (sort_pairs (found_products text fixtures.products)) r₁ in
      let r₃ = put_first "event" (map (λ e. e.name) fixtures.events) text r₂ in
      let r₄ =
        put_match "coupon" (λ groups. lib.upper (group 0 groups))
          (lib.search "\\b(?:WELCOME10|FALL20)\\b" true text) r₃ in
      let r₅ = put_first "region" ("서울" ∷ "부산" ∷ "제주" ∷ "대전" ∷ "대구" ∷ "인천" ∷ "해외" ∷ []) text r₄ in
      let r₆ = put_first "device" ("아이폰" ∷ "갤럭시" ∷ "노트북" ∷ "아이패드" ∷ "안드로이드" ∷ []) text r₅ in
      let r₇ = put_first "payment_method" ("카드" ∷ "계좌이체" ∷ "간편결제" ∷ "무통장" ∷ []) text r₆ in
      let r₈ = put_first "channel" ("채팅" ∷ "전화" ∷ []) text r₇ in
      let r₉ = put_first "option" ("화이트" ∷ "블랙" ∷ "베이지" ∷ "그린" ∷ []) text r₈ in
      let with_quantity = put_quantity text expected (put_option text expected r₉) in
      let with_date = put_date (lib.search "\\b\\d{4}-\\d{2}-\\d{2}\\b" false text) with_quantity in
      let with_email =
        put_match "email" (group 0)
          (lib.search "[A-Za-z0-9._%+-]+@[A-Za-z0-9.-]+\\.[A-Za-z]{2,}" false text) with_date in
      let with_phone =
        put_match "phone" (group 0) (lib.search "\\b010-\\d{4}-\\d{4}\\b" false text) with_email in
      let with_fields = put_prefixed prefixes text (put_notification text with_phone) in
      let with_query = put_query (lib.search "(.+?)\\s*(?:찾아|검색해|추천해)" false text) with_fields in
      put_expected text expected with_query

  unfoldable pub is_slot_reply : String → String → Slots → Bool
  is_slot_reply text expected found =
      if not (elem expected (keys found)) then false else elim (lookup expected prefixes) [
        | none ↦ not (is_request text)
        | some prefix ↦
            not (is_none (lib.match (prefix <> "\\s*[:：]") text)) || not (is_request text)
      ]
