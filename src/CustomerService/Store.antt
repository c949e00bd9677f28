-- ===== src/CustomerService/Store.antt =====
-- actions.py of examples/customer_service: the store of the demo, and the cards of an answer. The
-- files fixtures.json and faqs.json are parameters.
use vllm_verifier.Base.{ℕ, String, Option, none, some, List, [], ◌∷◌, str_eq, if◌then◌else◌}

pub record Product : Type 0 where
  pub id : String
  pub name : String
  pub aliases : List String
  pub tags : List String
  pub price : ℕ
  pub stock : ℕ
  pub description : String
  pub sizes : String
  pub options : List String
  -- as Python prints the number
  pub rating : String
  pub restock : String
  pub warranty : String
  pub manual : String

-- An order; `instructions` is there after the first request for it.
pub record Order : Type 0 where
  pub product : String
  pub status : String
  pub eta : String
  pub tracking : String
  pub location : String
  pub amount : ℕ
  pub address : String
  pub quantity : ℕ
  pub option : String
  pub instructions : Option String

pub record Promotion : Type 0 where
  pub name : String
  pub description : String
  pub period : String
  pub eligibility : String

pub record Coupon : Type 0 where
  pub description : String
  pub expiry : String
  pub condition : String

pub data ProfileValue : Type 0 where
  text : String → ProfileValue
  number : ℕ → ProfileValue

-- `FIXTURES` and `FAQ`
pub record Fixtures : Type 0 where
  pub customer : List (String × ProfileValue)
  pub orders : List (String × Order)
  pub products : List Product
  pub events : List Promotion
  pub coupons : List (String × Coupon)
  pub faqs : List (String × String)

-- The slots of a frame.
abbrev pub Slots : Type 0
Slots = List (String × String)

pub record Ticket : Type 0 where
  pub id : String
  pub intent : String
  pub slots : Slots

-- `DemoStore`
pub record DemoStore : Type 0 where
  pub orders : List (String × Order)
  pub tickets : List Ticket
  pub profile : List (String × ProfileValue)

-- `DemoStore()`
abbrev pub new_store : Fixtures → DemoStore
new_store f = record { orders = f.orders; tickets = []; profile = f.customer }

-- A card of an answer.
pub data Card : Type 0 where
  order_card : (id : String) → Order → Card
  event_card : Promotion → Card
  coupon_card : (code : String) → Coupon → Card
  product_card : Product → Card
  ticket_card : Ticket → Card

-- `card["name"]`, for a card with a name
abbrev pub card_name : Card → Option String
card_name (event_card e) = some e.name
card_name (product_card p) = some p.name
card_name _ = none

-- `product_named`
abbrev pub product_named : String → List Product → Option Product
product_named name [] = none
product_named name (p ∷ products) =
    if str_eq p.name name then some p else product_named name products
