-- ===== src/CustomerService/Dialogue/Turn.antt =====
-- `Dialogue.turn` of dialogue.py. The classifier is a parameter, whose answer is any `Result`. Each
-- stage gives the state of the turn, or `none` where the code goes on.
mod Parts
pub use Parts.*
use Prim.Native.String.{◌++◌ as ◌<>◌}
use vllm_verifier.Base.{
  suc, String, Bool, true, false, ◌&&◌, ◌||◌, not, Option, none, some, List, [], ◌∷◌, ◌++◌, map,
  keys, elem, get_elem?, str_eq, if◌then◌else◌,
}
use vllm_verifier.Errors.{Result, ok, err, ◌>>=◌, item, value_error}
use vllm_verifier.Prompts.{given}
use vllm_verifier.CustomerService.Catalog.{Intent, Catalog, slot_texts, intent_of}
use vllm_verifier.CustomerService.Texts.{TextLibrary, begins_with, first_chars, join}
use vllm_verifier.CustomerService.Store.{Fixtures, Slots}
use vllm_verifier.CustomerService.Actions.{any, execute}
use vllm_verifier.CustomerService.Slots.{
  normalize, is_request, invalid_slot_attempt, extract, is_slot_reply,
}
use vllm_verifier.CustomerService.Dialogue.{
  FramePhase, collecting, confirming, Frame, CandidateIntent, Classification, dialogue_state,
  explicit_selection, product_follow_up, order_follow_up, classified, Conversation, refers,
  or_frame, update_slots, only_keys, missing_of, reply, suspend, finish_frame, advance_frame,
  activate,
}

module _ (lib : TextLibrary) (catalog : Catalog) (fixtures : Fixtures) where
  -- `command in RESUME`
  unfoldable pub resume : Conversation → Option (Frame × List Frame) → Result Conversation
  resume s none = ok (reply s "중단한 문의가 없어요. 어떤 도움이 필요하세요?" [] [])
  resume s (some (previous, others)) =
      advance_frame lib catalog fixtures previous
        (record s { suspended = others ++ as_list s.active; active = some previous; choices = [] })
        "이전 문의를 이어갈게요. "

  -- `next((key for key in state.choices if command in {normalize(label), key}), None)`
  abbrev pub named_choice : String → List String → Result (Option String)
  named_choice command [] = ok none
  named_choice command (key ∷ choices) = do
    intent ← intent_of catalog key
    if str_eq command (normalize lib catalog fixtures intent.label) || str_eq command key
        then ok (some key)
        else named_choice command choices

  abbrev pub activate_chosen : Conversation → Option String → Result (Option Conversation)
  activate_chosen s none = ok none
  activate_chosen s (some key) = ends (activate lib catalog fixtures s key s.clarification_text)

  -- `if state.choices`
  unfoldable pub choose : Conversation → String → Result (Option Conversation)
  choose s command = do
    named ← named_choice command s.choices
    activate_chosen s (given (first_some (numbered_choice command s.choices) named))

  -- The request of a confirmed frame is executed.
  unfoldable pub confirm : Frame → Conversation → Result Conversation
  confirm frame s = do
    intent ← intent_of catalog frame.intent
    done ← execute lib fixtures intent frame.slots s.store
    ok (finish_frame frame (record s { store = done.1 }) done.0.0 done.0.1)

  abbrev pub replies_to : String → Option String → Slots → Bool
  replies_to text none found = false
  replies_to text (some expected) found = is_slot_reply lib catalog fixtures text expected found

  unfoldable pub read_text : Intent → Frame → String → Reading
  read_text intent frame text =
      let expected = expected_of (missing_of intent frame.slots) in
      let found = extract lib catalog fixtures text expected in
      let useful = only_keys intent.required_slots found in
      let command = normalize lib catalog fixtures text in
      let bare = non_empty useful && not (is_request lib catalog fixtures text) in
      let correction = any (λ w. begins_with w command) ("아니" ∷ "정정" ∷ "수정" ∷ []) && bare in
      record {
        useful = useful;
        correction = correction;
        is_answer = correction || bare || replies_to text expected found;
      }

  abbrev pub invalid_attempt : String → Option String → Bool
  invalid_attempt text none = false
  invalid_attempt text (some expected) = invalid_slot_attempt lib catalog fixtures text expected

  -- The active frame, behind the confirmation.
  unfoldable pub collect_slots :
      Intent → Frame → Conversation → String → Reading → Result (Option Conversation)
  collect_slots intent frame s text reading =
      let expected = expected_of (missing_of intent frame.slots) in
      let updated : Frame = record frame {
        slots = update_slots frame.slots reading.useful;
        phase = collecting;
      } in
      if reading.is_answer
      then ends (
          advance_frame lib catalog fixtures updated
            (record s { active = some updated; choices = [] })
            (if reading.correction then "수정했어요. " else ""))
      else if elem (normalize lib catalog fixtures text) yes_words
      then ends (advance_frame lib catalog fixtures frame s "")
      else if invalid_attempt text expected
      then ask_again s expected
      else ok none

  -- `if state.active and not state.choices`
  unfoldable pub fill_frame : Frame → Conversation → String → Result (Option Conversation)
  fill_frame frame s text =
      if is_confirming frame.phase && elem (normalize lib catalog fixtures text) yes_words
      then ends (confirm frame s)
      else (do
        intent ← intent_of catalog frame.intent
        collect_slots intent frame s text (read_text intent frame text))

  -- A bare product or order after a completed task.
  unfoldable pub follow_up : Frame → Conversation → String → Result (Option Conversation)
  follow_up last s text = do
    intent ← intent_of catalog last.intent
    let found = extract lib catalog fixtures text none
    if names_product intent found
        then ends (
            activate lib catalog fixtures (record s { trace = product_follow_up })
              (if str_eq intent.handler "product" then last.intent else "product_detail") text)
        else if names_order intent found
        then ends
            (activate lib catalog fixtures (record s { trace = order_follow_up }) last.intent text)
        else ok none

  -- `context`, of the active or the last frame
  abbrev pub context_of : Option Frame → Result String
  context_of none = ok ""
  context_of (some frame) = do
    intent ← intent_of catalog frame.intent
    ok (
        intent.label
        <> ("; "
            <> join ", " (
                map (λ p. p.0 <> ("=" <> p.1))
                  (only_keys ("product" ∷ "order_id" ∷ "query" ∷ []) frame.slots))))

  abbrev pub labels_of : List String → Result (List String)
  labels_of [] = ok []
  labels_of (key ∷ keys) = do
    intent ← intent_of catalog key
    rest ← labels_of keys
    ok (intent.label ∷ rest)

  -- The classifier found no intent.
  unfoldable pub clarify : Conversation → String → List String → Result Conversation
  clarify s text choices = do
    labels ← labels_of choices
    ok (
        reply (record s { clarification_text = text; choices = choices })
          "어떤 문의인지 한 번만 더 알려주세요. 아래 업무를 선택하거나 다르게 말씀해주세요." [] (or_default labels))

  abbrev pub route_to :
      Conversation → String → Option String → List CandidateIntent → Result Conversation
  route_to s text (some intent) candidates = activate lib catalog fixtures s intent text
  route_to s text none candidates =
      clarify (set_aside (is_request lib catalog fixtures text) s s.active) text
        (map (λ c. c.id) candidates)

  -- The answer of the classifier.
  unfoldable pub route : Conversation → String → Classification → Result Conversation
  route s text result =
      route_to (record s { trace = classified result }) text result.intent result.candidates

  module _ (classify : (text context : String) → Result Classification) where
    unfoldable pub ask_classifier : Conversation → String → Result Conversation
    ask_classifier s text = do
      context ← context_of (or_frame s.active s.last_completed)
      result ← classify text (if refers text then first_chars 180 context else "")
      route s text result

    -- No frame is active.
    unfoldable pub after_task : Conversation → String → Option Frame → Result Conversation
    after_task s text none = ask_classifier s text
    after_task s text (some last) =
        if is_request lib catalog fixtures text
        then ask_classifier s text
        else or_next (follow_up last s text) (ask_classifier s text)

    -- The stages behind the choices, of a conversation with and without an active frame.
    unfoldable pub after_choices : Conversation → String → Option Frame → Result Conversation
    after_choices s text (some frame) =
        if elem (normalize lib catalog fixtures text) thanks_words
        then ok (reply s "천만에요. 진행 중인 문의는 그대로 유지할게요." [] [])
        else if non_empty s.choices
        then ask_classifier s text
        else or_next (fill_frame frame s text) (ask_classifier s text)
    after_choices s text none = after_task s text s.last_completed

    -- The user selected no intent.
    unfoldable pub interpret : Conversation → String → Result Conversation
    interpret s text =
        or_next (choose s (normalize lib catalog fixtures text)) (after_choices s text s.active)

    unfoldable pub select_intent : Conversation → String → Option String → Result Conversation
    select_intent s text none = interpret s text
    select_intent s text (some intent) =
        if elem intent (keys catalog.intents)
        then activate lib catalog fixtures (record s { trace = explicit_selection }) intent text
        else err (value_error "Unknown intent")

    -- `turn` behind its first three lines.
    unfoldable pub dispatch : Conversation → String → Option String → Result Conversation
    dispatch s text selected_intent =
        let command = normalize lib catalog fixtures text in
        if elem command resume_words
        then resume s (pop_last s.suspended)
        else if elem command no_words && (is_some s.active || non_empty s.choices)
        then ok (cancel s)
        else select_intent s text (given selected_intent)

    -- `turn`
    unfoldable pub turn : Conversation → String → Option String → Result Conversation
    turn s text selected_intent = dispatch (begin_turn s text) text selected_intent
