-- ===== src/CustomerService/Dialogue.antt =====
-- dialogue.py of examples/customer_service: frames, corrections and the confirmation of a request. A
-- call of `turn` that raises gives no state: its caller works on a copy and drops it.
pub mod Turn
pub mod Calm
pub mod Stages
pub mod Gate
pub mod Talks
use Prim.Native.String.{◌++◌ as ◌<>◌}
use vllm_verifier.Base.{
  ℕ, suc, ◌+◌, ◌-◌, String, Bool, true, false, ◌&&◌, ◌||◌, not, Option, none, some, List, [], ◌∷◌,
  ◌++◌, map, length, drop, lookup, insert, keys, elem, str_eq, if◌then◌else◌,
}
use vllm_verifier.Errors.{Result, ok, err, ◌>>=◌, ◌>>◌, raise_if, item, assertion_error, key_error}
use vllm_verifier.CustomerService.Catalog.{Intent, Catalog, slot_texts, intent_of}
use vllm_verifier.CustomerService.Texts.{TextLibrary, is_in, join}
use vllm_verifier.CustomerService.Store.{Fixtures, Slots, DemoStore, Card, card_name}
use vllm_verifier.CustomerService.Actions.{Reply, select, any, execute}
use vllm_verifier.CustomerService.Slots.{extract}

pub data FramePhase : Type 0 where
  collecting confirming completed : FramePhase

pub record Frame : Type 0 where
  pub intent : String
  pub slots : Slots
  pub phase : FramePhase

-- `Frame(intent)`
abbrev pub new_frame : String → Frame
new_frame intent = record { intent = intent; slots = []; phase = collecting }

-- An entry of `messages`.
pub record Entry : Type 0 where
  pub role : String
  pub text : String
  pub cards : List Card
  pub suggestions : List String

pub record CandidateIntent : Type 0 where
  pub id : String
  pub label : String

-- `Classification`, without the numbers that are only shown.
pub record Classification : Type 0 where
  pub intent : Option String
  pub candidates : List CandidateIntent

-- What `trace` says of the way a turn was routed.
pub data Trace : Type 0 where
  dialogue_state explicit_selection product_follow_up order_follow_up : Trace
  classified : Classification → Trace

pub record Conversation : Type 0 where
  pub active : Option Frame
  pub suspended : List Frame
  pub last_completed : Option Frame
  pub choices : List String
  pub clarification_text : String
  pub messages : List Entry
  pub store : DemoStore
  pub trace : Trace
  pub turn : ℕ

-- `Conversation()`
abbrev pub new_conversation : DemoStore → Conversation
new_conversation store = record {
  active = none;
  suspended = [];
  last_completed = none;
  choices = [];
  clarification_text = "";
  messages = [];
  store = store;
  trace = dialogue_state;
  turn = 0;
}

-- `xs[-n:]`
abbrev pub last_items {ℓ} : {A : Type ℓ} → ℕ → List A → List A
last_items n xs = drop (length xs - n) xs

-- `REFER`
abbrev pub refer_cues : List String
refer_cues = "그 주문" ∷ "그 상품" ∷ "그거" ∷ "아까" ∷ "같은 주문" ∷ "같은 상품" ∷ "이 상품" ∷ []

-- `any(ref in text for ref in REFER)`
abbrev pub refers : String → Bool
refers text = any (λ cue. is_in cue text) refer_cues

-- `a or b`, for frames
abbrev pub or_frame : Option Frame → Option Frame → Option Frame
or_frame none g = g
or_frame (some f) g = some f

-- `slots.update(values)`
abbrev pub update_slots : Slots → Slots → Slots
update_slots slots [] = slots
update_slots slots ((k, v) ∷ values) = update_slots (insert k v slots) values

-- `{k: v for k, v in values.items() if k in allowed}`
abbrev pub only_keys : List String → Slots → Slots
only_keys allowed values = select (λ p. elem p.0 allowed) values

-- `del d[key]`
abbrev pub erase_key : String → Slots → Slots
erase_key key [] = []
erase_key key ((k, v) ∷ d) = if str_eq k key then d else (k, v) ∷ erase_key key d

-- `Frame.missing`
abbrev pub missing_of : Intent → Slots → List String
missing_of intent slots = select (λ k. not (elem k (keys slots))) intent.required_slots

-- The message of `reply`.
abbrev pub new_entry : String → List Card → List String → Entry
new_entry text cards suggestions = record {
  role = "assistant";
  text = text;
  cards = cards;
  suggestions = suggestions;
}

-- `reply`
unfoldable pub reply : Conversation → String → List Card → List String → Conversation
reply s text cards suggestions = record s {
  messages = last_items 30 (s.messages ++ new_entry text cards suggestions ∷ []);
}

-- `state.suspended.append(frame)`, and the last eight
abbrev pub suspend : Frame → Conversation → Conversation
suspend frame s = record s { suspended = last_items 8 (s.suspended ++ frame ∷ []); active = none }

-- The suggestion of `finish`.
abbrev pub resume_hint : List Frame → List String
resume_hint [] = []
resume_hint (f ∷ frames) = "이어서" ∷ []

-- `finish`, for the active frame
unfoldable pub finish_frame : Frame → Conversation → String → List Card → Conversation
finish_frame frame s text cards =
    reply (record s { last_completed = some (record frame { phase = completed }); active = none })
      text cards (resume_hint s.suspended)

-- The product of a search with one result.
abbrev pub found_product : Intent → List Card → Slots → Result Slots
found_product intent (card ∷ []) slots =
    if str_eq intent.handler "search"
    then elim (card_name card) [
      | none ↦ err key_error
      | some name ↦ ok (insert "product" name slots)
    ]
    else ok slots
found_product intent _ slots = ok slots

-- A line of the summary.
abbrev pub summary_lines : Slots → Result (List String)
summary_lines [] = ok []
summary_lines ((k, v) ∷ slots) = do
  t ← item k slot_texts
  rest ← summary_lines slots
  ok ((t.name <> (": " <> v)) ∷ rest)

-- `"order_id" in slots and slots["order_id"] not in orders`
abbrev pub unknown_order : Slots → DemoStore → Bool
unknown_order slots store = elim (lookup "order_id" slots) [
  | none ↦ false
  | some id ↦ not (elem id (keys store.orders))
]

-- The slots that a new frame takes over from the frame before it.
abbrev pub inherited : List String → String → Option Frame → Slots
inherited allowed text none = []
inherited allowed text (some prior) =
    if refers text
    then only_keys allowed (only_keys ("order_id" ∷ "product" ∷ []) prior.slots)
    else []

-- From the active frame: the frame of `activate`, and the state that it stands in.
abbrev pub frame_for :
    String → List String → String → Conversation → Option Frame → Frame × Conversation
frame_for intent_id allowed text s none =
    (record (new_frame intent_id) { slots = inherited allowed text s.last_completed }, s)
frame_for intent_id allowed text s (some frame) =
    if str_eq frame.intent intent_id then (frame, s) else (
      record (new_frame intent_id) { slots = inherited allowed text (some frame) },
      suspend frame s,
    )

module _ (lib : TextLibrary) (catalog : Catalog) (fixtures : Fixtures) where
  -- A slot is missing: the prompt for it.
  unfoldable pub ask_slot : Intent → String → Conversation → String → Result Conversation
  ask_slot intent slot s prefix = do
    t ← item slot slot_texts
    ok (reply s (prefix <> (intent.label <> ("을 도와드릴게요. " <> t.prompt))) [] (t.sample ∷ []))

  -- All slots are there, and the request wants a confirmation.
  unfoldable pub ask_confirmation : Intent → Frame → Conversation → String → Result Conversation
  ask_confirmation intent frame s prefix = do
    lines ← summary_lines frame.slots
    ok (
        reply (record s { active = some (record frame { phase = confirming }) })
          (prefix
            <> (intent.label
                <> ("\n" <> (join " / " lines <> "\n이 내용으로 데모 접수할까요? 실제 주문 변경이나 상담 연결은 하지 않아요."))))
          [] ("네" ∷ "취소" ∷ []))

  -- All slots are there, and no confirmation is wanted.
  unfoldable pub run_intent : Intent → Frame → Conversation → String → Result Conversation
  run_intent intent frame s prefix = do
    done ← execute lib fixtures intent frame.slots s.store
    slots ← found_product intent done.0.1 frame.slots
    ok (
        finish_frame (record frame { slots = slots }) (record s { store = done.1 })
          (prefix <> done.0.0) done.0.1)

  -- `advance` behind the test of the order.
  unfoldable pub proceed :
      Intent → Frame → Conversation → String → List String → Result Conversation
  proceed intent frame s prefix (slot ∷ missing) = ask_slot intent slot s prefix
  proceed intent frame s prefix [] =
      if intent.confirmation
      then ask_confirmation intent frame s prefix
      else run_intent intent frame s prefix

  -- `advance` for an active frame.
  unfoldable pub advance_frame : Frame → Conversation → String → Result Conversation
  advance_frame frame s prefix = do
    intent ← intent_of catalog frame.intent
    if unknown_order frame.slots s.store
        then ok (
            reply
              (record s {
                active = some (record frame { slots = erase_key "order_id" frame.slots });
              })
              "그 주문은 없어요. ORD-1001, ORD-1002, ORD-1003 중 선택해주세요." []
              ("ORD-1001" ∷ "ORD-1002" ∷ "ORD-1003" ∷ []))
        else proceed intent frame s prefix (missing_of intent frame.slots)

  -- `advance`
  abbrev pub advance : Conversation → String → Result Conversation
  advance s prefix = elim s.active [
    | none ↦ err assertion_error
    | some frame ↦ advance_frame frame s prefix
  ]

  -- `activate`
  unfoldable pub activate : Conversation → String → String → Result Conversation
  activate s intent_id text = do
    intent ← intent_of catalog intent_id
    let (frame, s') = frame_for intent_id intent.required_slots text s s.active
    let slots =
        update_slots frame.slots
          (only_keys intent.required_slots (extract lib catalog fixtures text none))
    let frame' : Frame = record frame { slots = slots; phase = collecting }
    advance_frame frame' (record s' { active = some frame'; choices = []; clarification_text = "" })
        ""
