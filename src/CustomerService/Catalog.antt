-- ===== src/CustomerService/Catalog.antt =====
-- catalog.py of examples/customer_service: intents and slots. The file catalog.json that it reads is
-- a parameter.
use vllm_verifier.Base.{String, Bool, ◌&&◌, List, [], ◌∷◌, all, length, keys, values, elem, ◌==◌}
use vllm_verifier.Errors.{Result, item}

pub record Intent : Type 0 where
  pub id : String
  pub category : String
  pub label : String
  pub description : String
  pub required_slots : List String
  pub handler : String
  pub confirmation : Bool
  pub example : String

pub record Category : Type 0 where
  pub label : String
  pub description : String

-- `CATEGORIES` and `INTENTS`, by their identifiers
pub record Catalog : Type 0 where
  pub categories : List (String × Category)
  pub intents : List (String × Intent)

-- The name of a slot, the prompt for it and an example.
pub record SlotText : Type 0 where
  pub name : String
  pub prompt : String
  pub sample : String

abbrev pub slot_text : String → String → String → SlotText
slot_text name prompt sample = record { name = name; prompt = prompt; sample = sample }

-- `SLOTS`
abbrev pub slot_texts : List (String × SlotText)
slot_texts =
    ("order_id", slot_text "주문번호" "주문번호를 알려주세요. 예: ORD-1001" "ORD-1001")
    ∷ ("product", slot_text "상품" "어떤 상품인가요? 에어버즈, 트래블백, 텀블러 등이 있어요." "에어버즈")
    ∷ ("other_product", slot_text "비교 상품" "어떤 상품과 비교할까요?" "미니 스피커")
    ∷ ("query", slot_text "검색 조건" "어떤 상품을 찾으세요? 예: 무선 이어폰, 여행용 가방" "무선 이어폰")
    ∷ ("reason", slot_text "사유" "사유를 알려주세요. 예: 사유: 단순 변심" "사유: 단순 변심")
    ∷ ("quantity", slot_text "수량" "몇 개로 변경할까요? 1~99개를 입력해주세요." "2개")
    ∷ ("option", slot_text "옵션" "원하는 옵션을 알려주세요. 예: 블랙, 화이트, M" "블랙")
    ∷ ("address", slot_text "주소" "데모용 주소를 입력해주세요. 예: 주소: 서울시 예시로 12" "주소: 서울시 예시로 12")
    ∷ ("instructions", slot_text "배송 요청" "전달할 내용을 적어주세요. 예: 요청: 문 앞에 놓아주세요" "요청: 문 앞")
    ∷ ("region", slot_text "지역" "지역을 알려주세요. 예: 서울, 제주" "서울")
    ∷ ("date", slot_text "날짜" "날짜를 YYYY-MM-DD 형식으로 알려주세요. 예: 2026-10-01" "2026-10-01")
    ∷ ("device", slot_text "사용 기기" "연결할 기기를 알려주세요. 예: 아이폰, 갤럭시, 노트북" "아이폰")
    ∷ ("event", slot_text "이벤트" "어떤 이벤트인가요? 가을맞이, 신규회원, 주말 특가가 있어요." "가을맞이")
    ∷ ("coupon", slot_text "쿠폰 코드" "쿠폰 코드를 알려주세요. 예: WELCOME10" "WELCOME10")
    ∷ ("payment_method", slot_text "결제 수단" "결제 수단을 알려주세요. 예: 카드, 계좌이체, 간편결제" "카드")
    ∷ ("email", slot_text "이메일" "데모용 이메일을 입력해주세요. 실제 개인정보는 입력하지 마세요." "demo@example.com")
    ∷ ("phone", slot_text "전화번호" "데모용 번호를 입력해주세요. 예: 010-0000-0000" "010-0000-0000")
    ∷ ("name", slot_text "표시 이름" "변경할 이름을 입력해주세요. 예: 이름: 데모 고객" "이름: 데모 고객")
    ∷ ("notification", slot_text "알림 설정" "마케팅 알림을 켤까요, 끌까요?" "끄기")
    ∷ ("channel", slot_text "상담 채널" "채팅과 전화 중 어떤 상담을 원하세요?" "채팅")
    ∷ ("message", slot_text "카드 문구" "선물 카드 문구를 입력해주세요. 예: 문구: 생일 축하해" "문구: 생일 축하해")
    ∷ []

-- The `assert`s of the module.
abbrev pub is_complete : Catalog → Bool
is_complete c =
    (length c.intents == 100)
    && (length c.categories == 10)
    && all (λ (i : Intent). all (λ k. elem k (keys slot_texts)) i.required_slots) (values c.intents)

-- `INTENTS[key]`
abbrev pub intent_of : Catalog → String → Result Intent
intent_of c key = item key c.intents
