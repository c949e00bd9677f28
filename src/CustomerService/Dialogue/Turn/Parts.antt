-- ===== src/CustomerService/Dialogue/Turn/Parts.antt =====
-- The words, tests and short stages of `turn` in dialogue.py that need no catalog.
use Prim.Native.String.{◌++◌ as ◌<>◌}
use vllm_verifier.Base.{
  suc, String, Bool, true, false, ◌&&◌, Option, none, some, List, [], ◌∷◌, ◌++◌, keys, elem,
  get_elem?, str_eq, if◌then◌else◌,
}
use vllm_verifier.Errors.{Result, ok, err, ◌>>=◌, item}
use vllm_verifier.CustomerService.Catalog.{Intent, slot_texts}
use vllm_verifier.CustomerService.Store.{Slots}
use vllm_verifier.CustomerService.Dialogue.{
  FramePhase, confirming, Frame, dialogue_state, Conversation, reply, suspend,
}

-- `YES`, `NO` and `RESUME`
abbrev pub yes_words : List String
yes_words = "네" ∷ "예" ∷ "응" ∷ "좋아" ∷ "확인" ∷ "진행" ∷ "진행해" ∷ "진행해줘" ∷ "동의" ∷ "yes" ∷ "확인했어" ∷ []

abbrev pub no_words : List String
no_words = "아니" ∷ "아니요" ∷ "아냐" ∷ "안할래" ∷ "취소" ∷ "그만" ∷ "cancel" ∷ []

abbrev pub resume_words : List String
resume_words = "이어서" ∷ "계속" ∷ "아까거" ∷ "이전문의" ∷ "이전문의계속" ∷ "resume" ∷ []

abbrev pub thanks_words : List String
thanks_words = "고마워" ∷ "감사합니다" ∷ "고마워요" ∷ "감사" ∷ "thanks" ∷ []

-- `state.suspended.pop()`: the last frame and the others.
abbrev pub pop_behind : Frame → Option (Frame × List Frame) → Option (Frame × List Frame)
pop_behind f none = some (f, [])
pop_behind f (some (last, others)) = some (last, f ∷ others)

abbrev pub pop_last : List Frame → Option (Frame × List Frame)
pop_last [] = none
pop_last (f ∷ frames) = pop_behind f (pop_last frames)

abbrev pub is_some {ℓ} : {A : Type ℓ} → Option A → Bool
is_some none = false
is_some (some a) = true

abbrev pub non_empty {ℓ} : {A : Type ℓ} → List A → Bool
non_empty [] = false
non_empty (x ∷ xs) = true

abbrev pub is_confirming : FramePhase → Bool
is_confirming confirming = true
is_confirming _ = false

-- `[frame] if frame else []`
abbrev pub as_list : Option Frame → List Frame
as_list none = []
as_list (some f) = f ∷ []

-- The turn has ended, or the next stage decides.
abbrev pub or_next : Result (Option Conversation) → Result Conversation → Result Conversation
or_next (err x) next = err x
or_next (ok (some s)) next = ok s
or_next (ok none) next = next

-- A stage that ends the turn.
abbrev pub ends : Result Conversation → Result (Option Conversation)
ends r = do s ← r; ok (some s)

-- `int(command) <= len(choices)`, for `1`, `2` and `3`
abbrev pub numbered_choice : String → List String → Option String
numbered_choice command choices =
    if str_eq command "1"
    then get_elem? choices 0
    else if str_eq command "2"
    then get_elem? choices 1
    else if str_eq command "3"
    then get_elem? choices 2
    else none

abbrev pub cancel : Conversation → Conversation
cancel s =
    reply (record s { active = none; choices = [] }) "진행 중인 문의를 취소했어요. 접수나 변경은 하지 않았어요." [] []

-- A number takes precedence over a name.
abbrev pub first_some : Option String → Option String → Option String
first_some none b = b
first_some (some a) b = some a

-- `expected`
abbrev pub expected_of : List String → Option String
expected_of [] = none
expected_of (slot ∷ missing) = some slot

abbrev pub ask_again : Conversation → Option String → Result (Option Conversation)
ask_again s none = ok none
ask_again s (some expected) = do
  t ← item expected slot_texts
  ok (some (reply s ("입력 형식을 확인해주세요. " <> t.prompt) [] (t.sample ∷ [])))

abbrev pub or_default : List String → List String
or_default [] = "배송 도착 예정" ∷ "상품 검색" ∷ "상담사 연결" ∷ []
or_default labels = labels

-- A new task interrupts the active frame, also where its intent is not clear.
abbrev pub set_aside : Bool → Conversation → Option Frame → Conversation
set_aside request s none = s
set_aside request s (some frame) = if request then suspend frame s else s

abbrev pub names_product : Intent → Slots → Bool
names_product intent found = elem "product" (keys found) && str_eq intent.category "products"

abbrev pub names_order : Intent → Slots → Bool
names_order intent found = elem "order_id" (keys found) && elem "order_id" intent.required_slots

-- The first three lines of `turn`.
abbrev pub begin_turn : Conversation → String → Conversation
begin_turn s text = record s {
  turn = suc s.turn;
  messages = s.messages ++ record { role = "user"; text = text; cards = []; suggestions = [] } ∷ [];
  trace = dialogue_state;
}

-- `useful`, `correction` and the other tests on the text for an active frame.
pub record Reading : Type 0 where
  pub useful : Slots
  pub correction : Bool
  pub is_answer : Bool
