-- ===== src/CustomerService/Tests.antt =====
-- The customer-service example at concrete inputs.
use vllm_verifier.Base.{
  ℕ, ◌≤◌, ◌≡◌, ◌≢◌, refl, ◌⊎◌, String, true, false, Option, none, some, List, [], ◌∷◌, arith,
  length, get_elem?, keys, str_eq, str_eq_iff, lookup, insert, if◌then◌else◌, All, ◌+◌, ◌-◌, ltb,
  leb, ◌==◌, elem,
}
use vllm_verifier.Errors.{Result, ok, err, item}
use vllm_verifier.Answers.{decimal, decimal_fuel}
use vllm_verifier.CustomerService.Catalog.{Intent, Catalog}
use vllm_verifier.CustomerService.Texts.{TextLibrary}
use vllm_verifier.CustomerService.Store.{Order, Fixtures, Ticket, DemoStore, new_store}
use vllm_verifier.CustomerService.Actions.{
  Reply, execute, mutate, mutate_unshipped, refuses_shipped, file_or_refuse, file_ticket,
  apply_change, refuses_option,
}
use vllm_verifier.CustomerService.Actions.Tickets.{Filed, execute_lem}
use vllm_verifier.CustomerService.Slots.{normalize, is_request, extract}
use vllm_verifier.CustomerService.Classifier.{
  Weights, ServiceReply, choose_option, decided, classify,
}
use vllm_verifier.CustomerService.Sessions.{
  Session, Sessions, SessionEvent, visit, lock, chat, session, on_events,
}
use vllm_verifier.CustomerService.Sessions.Sound.{IsTalk, sessions_sound, session_keeps_locked}
use vllm_verifier.CustomerService.Dialogue.{
  Classification, Conversation, new_conversation, reply, finish_frame, ask_confirmation, proceed,
  advance_frame, activate,
}
use vllm_verifier.CustomerService.Dialogue.Turn.{
  turn, dispatch, select_intent, interpret, choose, after_choices, fill_frame, confirm,
}
use vllm_verifier.CustomerService.Dialogue.Gate.{Confirmed}
use vllm_verifier.CustomerService.Dialogue.Talks.{
  Talks, begun, spoken, Numbered, talk_bounds, talk_store, talk_tickets, talk_ids,
}

abbrev same_text : String → String
same_text text = text

-- It finds the order where the whole text is its number.
abbrev finds_order : String → Option (List String)
finds_order text = if str_eq text "ORD-1002" then some ("ORD-1002" ∷ "1002" ∷ []) else none

abbrev plain_texts : TextLibrary
plain_texts = record {
  lower = same_text;
  upper = same_text;
  strip = same_text;
  search = λ pattern ignore_case text.
      if str_eq pattern "\\bORD[- ]?(\\d{4})\\b" then finds_order text else none;
  match = λ pattern text. none;
  fullmatch = λ pattern ignore_case text. none;
  erase = λ pattern text. text;
  int_of = λ text. none;
  is_iso_date = λ text. false;
}

abbrev cancel_order : Intent
cancel_order = record {
  id = "order_cancel";
  category = "orders";
  label = "주문 취소";
  description = "출고 전 주문 전체 취소";
  required_slots = "order_id" ∷ [];
  handler = "mutation";
  confirmation = true;
  example = "주문 취소하고 싶어";
}

abbrev call_agent : Intent
call_agent = record {
  id = "human_agent";
  category = "support";
  label = "상담사 연결";
  description = "상담사 연결 요청";
  required_slots = [];
  handler = "handoff";
  confirmation = true;
  example = "상담사 연결해줘";
}

abbrev two_intents : Catalog
two_intents = record {
  categories = [];
  intents = ("order_cancel", cancel_order) ∷ ("human_agent", call_agent) ∷ [];
}

abbrev paid : Order
paid = record {
  product = "에어버즈";
  status = "결제 완료";
  eta = "";
  tracking = "";
  location = "";
  amount = 99000;
  address = "";
  quantity = 1;
  option = "";
  instructions = none;
}

abbrev one_order : Fixtures
one_order = record {
  customer = [];
  orders = ("ORD-1002", paid) ∷ [];
  products = [];
  events = [];
  coupons = [];
  faqs = [];
}

abbrev finds_nothing : (text context : String) → Result Classification
finds_nothing text context = ok (record { intent = none; candidates = [] })

abbrev value_or : Conversation → Result Conversation → Conversation
value_or s (ok t) = t
value_or s (err x) = s

abbrev fresh_talk : Conversation
fresh_talk = new_conversation (new_store one_order)

abbrev say : String → Option String → Conversation → Result Conversation
say text selected s = turn plain_texts two_intents one_order finds_nothing s text selected

abbrev asked : Conversation
asked = value_or fresh_talk (say "ORD-1002" (some "order_cancel") fresh_talk)

abbrev filed : Conversation
filed = value_or asked (say "네" none asked)

asks : say "ORD-1002" (some "order_cancel") fresh_talk ≡ ok asked
unfolding turn dispatch select_intent activate advance_frame proceed ask_confirmation extract lookup
    insert item normalize is_request reply
asks = refl

files : say "네" none asked ≡ ok filed
unfolding turn dispatch select_intent interpret choose after_choices fill_frame confirm execute
    mutate mutate_unshipped refuses_shipped refuses_option file_or_refuse file_ticket apply_change
    finish_frame activate advance_frame proceed ask_confirmation extract lookup insert item
    normalize is_request reply
files = refl

abbrev asked_again : Conversation
asked_again = value_or filed (say "상담사" (some "human_agent") filed)

abbrev filed_again : Conversation
filed_again = value_or asked_again (say "네" none asked_again)

asks_again : say "상담사" (some "human_agent") filed ≡ ok asked_again
unfolding turn dispatch select_intent interpret choose after_choices fill_frame confirm execute
    mutate mutate_unshipped refuses_shipped refuses_option file_or_refuse file_ticket apply_change
    finish_frame activate advance_frame proceed ask_confirmation extract lookup insert item
    normalize is_request reply
asks_again = refl

files_again : say "네" none asked_again ≡ ok filed_again
unfolding turn dispatch select_intent interpret choose after_choices fill_frame confirm execute
    mutate mutate_unshipped refuses_shipped refuses_option file_or_refuse file_ticket apply_change
    finish_frame activate advance_frame proceed ask_confirmation extract lookup insert item
    normalize is_request reply
files_again = refl

abbrev first_ticket : Ticket
first_ticket = record {
  id = "DEMO-0001";
  intent = "order_cancel";
  slots = ("order_id", "ORD-1002") ∷ [];
}

abbrev second_ticket : Ticket
second_ticket = record { id = "DEMO-0002"; intent = "human_agent"; slots = [] }

is_first : get_elem? filed_again.store.tickets 0 ≡ some first_ticket
unfolding turn dispatch select_intent interpret choose after_choices fill_frame confirm execute
    mutate mutate_unshipped refuses_shipped refuses_option file_or_refuse file_ticket apply_change
    finish_frame activate advance_frame proceed ask_confirmation extract lookup insert item
    normalize is_request reply decimal decimal_fuel
is_first = refl

is_second : get_elem? filed_again.store.tickets 1 ≡ some second_ticket
unfolding turn dispatch select_intent interpret choose after_choices fill_frame confirm execute
    mutate mutate_unshipped refuses_shipped refuses_option file_or_refuse file_ticket apply_change
    finish_frame activate advance_frame proceed ask_confirmation extract lookup insert item
    normalize is_request reply decimal decimal_fuel
is_second = refl

abbrev Held : Conversation → Type 0
Held s = Talks plain_texts two_intents one_order finds_nothing s

asked-Held : Held asked
asked-Held = spoken "ORD-1002" (some "order_cancel") begun asks

filed-Held : Held filed
filed-Held = spoken "네" none asked-Held files

talk_bounds_example : (length filed.suspended ≤ 8) × (length filed.messages ≤ 30)
talk_bounds_example =
    talk_bounds plain_texts two_intents one_order finds_nothing refl filed filed-Held

talk_store_example :
    (filed.store ≡ asked.store)
    ⊎ Confirmed plain_texts two_intents one_order asked.store asked.active "네" filed.store
talk_store_example =
    talk_store plain_texts two_intents one_order finds_nothing refl asked filed "네" none asked-Held
      files

talk_tickets_example :
    Numbered filed.store.tickets × (keys filed.store.orders ≡ keys one_order.orders)
talk_tickets_example =
    talk_tickets plain_texts two_intents one_order finds_nothing refl filed filed-Held

filed_again-Held : Held filed_again
filed_again-Held =
    spoken "네" none (spoken "상담사" (some "human_agent") filed-Held asks_again) files_again

talk_ids_example : first_ticket.id ≢ second_ticket.id
talk_ids_example =
    talk_ids plain_texts two_intents one_order finds_nothing refl filed_again 0 1 first_ticket
      second_ticket filed_again-Held is_first is_second (omega arith)

abbrev nothing : DemoStore
nothing = new_store one_order

abbrev executed : Reply × DemoStore
executed =
    elim (execute plain_texts one_order cancel_order (("order_id", "ORD-1002") ∷ []) nothing) [
      | ok done ↦ done
      | err x ↦ (("", []), nothing)
    ]

executes :
    execute plain_texts one_order cancel_order (("order_id", "ORD-1002") ∷ []) nothing ≡ ok executed
unfolding execute mutate mutate_unshipped refuses_shipped refuses_option file_or_refuse file_ticket
    apply_change lookup insert item
executes = refl

execute_lem_example :
    (executed.1 ≡ nothing)
    ⊎ Filed cancel_order (("order_id", "ORD-1002") ∷ []) nothing executed.1 executed.0
execute_lem_example =
    execute_lem plain_texts one_order cancel_order (("order_id", "ORD-1002") ∷ []) nothing
      executed.1 executed.0 executes

-- A client asks for a cancellation, then a second client finds no room.
abbrev crowded : List SessionEvent
crowded =
    visit 10 none "a"
    ∷ lock "a"
    ∷ chat "a" 11 "ORD-1002" (some "order_cancel")
    ∷ lock "a"
    ∷ visit 12 none "b"
    ∷ []

abbrev crowd : Sessions
crowd = on_events plain_texts two_intents one_order finds_nothing 1 3600 crowded []

sessions_sound_example :
    (length crowd ≤ 1) × All (IsTalk plain_texts two_intents one_order finds_nothing 1 3600) crowd
sessions_sound_example =
    sessions_sound plain_texts two_intents one_order finds_nothing 1 3600 crowded

abbrev held_session : Session
held_session = record { state = asked; locked = true; accessed = 11 }

its_session : lookup "a" (("a", held_session) ∷ []) ≡ some held_session
unfolding lookup
its_session = refl

different : ◌≢◌ {A = String} "b" "a"
different e = let same : str_eq "b" "a" ≡ true = (str_eq_iff "b" "a").1 e in cc

-- It comes when the session would have expired.
session_keeps_locked_example :
    (t : Session) × (lookup "a"
        (session plain_texts two_intents one_order finds_nothing 1 3600 9000 none "b"
          (("a", held_session) ∷ [])).1
      ≡ some t)
    × (t.state ≡ asked)
    × (t.locked ≡ true)
session_keeps_locked_example =
    session_keeps_locked plain_texts two_intents one_order finds_nothing 1 3600 9000 none "b" "a"
      (("a", held_session) ∷ []) held_session its_session refl different

-- Probabilities in thousandths.
abbrev add_all : List ℕ → ℕ
add_all [] = 0
add_all (p ∷ ps) = p + add_all ps

abbrev thousandths : Weights
thousandths = record {
  F = ℕ;
  in_range = λ p. leb p 1000;
  sums_to_one = λ ps. add_all ps == 1000;
  ltb = ltb;
  sub = ◌-◌;
  least_probability = 300;
  least_margin = 50;
}

abbrev one_category : Catalog
one_category = record {
  categories = ("orders", record { label = "주문"; description = "주문 관리" }) ∷ [];
  intents =
      ("order_cancel", cancel_order)
      ∷ ("human_agent", record call_agent { category = "orders" })
      ∷ [];
}

abbrev a_service :
    (state : String) (options : List (String × String)) → Result (ServiceReply thousandths)
a_service state options = ok (record {
  probabilities = some (
      if elem "out_of_scope" (keys options)
      then ("orders", 800) ∷ ("out_of_scope", 200) ∷ []
      else ("human_agent", 300) ∷ ("order_cancel", 700) ∷ []);
  served_model = some "a-model";
})

abbrev routed : Classification
routed = record {
  intent = some "order_cancel";
  candidates =
      record { id = "order_cancel"; label = "주문 취소" }
      ∷ record { id = "human_agent"; label = "상담사 연결" }
      ∷ [];
}

routes : classify thousandths a_service one_category "취소해줘" "" ≡ ok routed
unfolding classify choose_option decided item lookup insert
routes = refl
