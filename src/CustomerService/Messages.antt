-- ===== src/CustomerService/Messages.antt =====
-- The messages of `execute` in actions.py of examples/customer_service.
use Prim.Native.String.{◌++◌ as ◌<>◌}
use vllm_verifier.Base.{String, List, [], ◌∷◌, elem, if◌then◌else◌}
use vllm_verifier.Answers.{decimal}
use vllm_verifier.CustomerService.Store.{Product, Order}

-- The messages on a product, by intent.
unfoldable pub product_messages : Product → List (String × String)
product_messages product =
    ("product_stock", (product.name <> " 재고는 " <> decimal product.stock <> "개예요."))
    ∷ ("product_restock", (product.name <> " 재입고: " <> product.restock <> "."))
    ∷ ("product_size", product.sizes)
    ∷ (
      "product_compatibility",
      (if elem product.id ("P001" ∷ "P005" ∷ [])
          then "블루투스를 지원하는 기기와 연결할 수 있어요. 전용 앱의 일부 기능은 기기별로 다를 수 있어요."
          else "전자기기 연결 기능이 없는 상품이에요."),
    )
    ∷ ("product_authenticity", "데모 상품은 공식 판매 상품으로 가정해요. 실제 정품 판별 결과는 아니에요.")
    ∷ ("product_reviews", ("데모 구매자 평점: " <> product.rating <> "/5."))
    ∷ ("preorder", "이 상품은 현재 예약 판매 일정이 없어요.")
    ∷ ("warranty_info", product.warranty)
    ∷ ("installation_help", product.manual)
    ∷ ("product_manual", product.manual)
    ∷ ("gift_wrap", "데모 선물 포장은 2,000원이에요. 실제 결제나 포장 주문은 하지 않아요.")
    ∷ []

-- The messages on an order, by intent.
unfoldable pub order_messages : Order → List (String × String)
order_messages order =
    ("delivery_eta", ("도착 예정: " <> order.eta <> "."))
    ∷ ("delivery_tracking", ("현재 위치: " <> order.location <> ". 운송장: " <> order.tracking <> "."))
    ∷ ("delivery_delay", "데모 물류 현황을 확인했어요. 표시된 예정 시간은 고정 예시이며 실시간 택배 정보가 아니에요.")
    ∷ ("delivery_missing", "문 앞·경비실·택배 보관함을 확인해주세요. 찾지 못하면 상담사 연결로 배송 조사를 요청할 수 있어요.")
    ∷ ("delivery_wrong", "받은 상품과 주문 내역을 비교해주세요. 오배송은 상담사를 통해 무료 교환을 요청할 수 있어요.")
    ∷ ("delivery_missed", "택배기사의 부재 안내를 확인하고 배송 요청사항을 지정해주세요.")
    ∷ ("refund_status", "접수된 실제 환불은 없어요. 이 데모에서는 반품 접수 흐름만 체험할 수 있어요.")
    ∷ ("payment_duplicate", "실제 결제 원장을 조회하지 않는 데모예요. 주문 금액을 확인하고 실제 중복 승인은 판매처에 문의해주세요.")
    ∷ ("payment_deadline", "데모 미입금 주문의 입금 기한은 주문 다음 날 23:59예요.")
    ∷ ("virtual_account", "데모이므로 실제 입금 계좌를 제공하지 않아요. 결제 화면에서 계좌를 확인하는 흐름이에요.")
    ∷ ("deposit_confirmation", "표시된 주문 상태만 확인할 수 있어요. 실제 은행 입금은 조회하지 않아요.")
    ∷ ("cash_receipt", "데모 현금영수증 발급 요청 화면이에요. 실제 국세청 발급은 하지 않아요.")
    ∷ ("tax_invoice", "데모 세금계산서 안내예요. 실제 발급은 판매처에 사업자 정보를 제출해야 해요.")
    ∷ ("order_confirmation", "주문 확인서에 사용할 데모 주문 내역이에요.")
    ∷ ("order_receipt", "데모 구매 내역이에요. 법적 증빙 영수증이 아니에요.")
    ∷ ("order_split", "출고 전이라면 분리 배송을 문의할 수 있어요. 배송 중 주문은 나눌 수 없어요.")
    ∷ ("product_damage", "사용을 멈추고 포장과 제품 사진을 보관해주세요. 반품·교환 또는 상담사 연결로 이어갈 수 있어요.")
    ∷ ("missing_parts", "포장 내부를 다시 확인해주세요. 빠진 구성품은 상담사에게 문의할 수 있어요.")
    ∷ []
