-- ===== src/CustomerService/Dialogue/Gate.antt =====
-- Lemmas on the stages of `turn` in dialogue.py, up to `turn` itself.
use vllm_verifier.Base.{
  ◌≤◌, ◌≡◌, refl, sym, subst, ◌∙◌, ◌⊎◌, inl, inr, String, true, ◌&&◌, ◌||◌, Option, none, some, [],
  keys, elem, length, &&_true, if-split, if-cases,
}
use vllm_verifier.Errors.{Result, ok, err}
use vllm_verifier.Prompts.{given}
use vllm_verifier.CustomerService.Catalog.{Intent, Catalog, intent_of}
use vllm_verifier.CustomerService.Texts.{TextLibrary}
use vllm_verifier.CustomerService.Store.{Fixtures, DemoStore}
use vllm_verifier.CustomerService.Actions.{Reply, execute}
use vllm_verifier.CustomerService.Actions.Tickets.{execute_lem, Filed}
use vllm_verifier.CustomerService.Slots.{normalize}
use vllm_verifier.CustomerService.Dialogue.{
  FramePhase, collecting, confirming, completed, Frame, Conversation, Classification,
}
use vllm_verifier.CustomerService.Dialogue.Turn.{
  yes_words, no_words, resume_words, thanks_words, pop_last, is_some, non_empty, is_confirming,
  confirm, fill_frame, after_choices, select_intent, interpret, dispatch, begin_turn, turn,
}
use vllm_verifier.CustomerService.Dialogue.Calm.{
  Gives, bind-Gives, Gives-mono, Ready, Calm, reply-Calm, finish_frame-Calm, confirms_mutations,
}
use vllm_verifier.CustomerService.Dialogue.Stages.{
  Stage, Stays, ends-Stage, or_next-Gives, popped-pop_last, resume-Calm, choose-Stays,
  collect_slots-Stays, activating, ask_classifier-Calm, after_task-Calm,
}

is_confirming_lem : (p : FramePhase) → is_confirming p ≡ true → p ≡ confirming
is_confirming_lem collecting h = cc
is_confirming_lem confirming h = refl
is_confirming_lem completed h = cc

module _ (lib : TextLibrary) (catalog : Catalog) (fixtures : Fixtures) (before : DemoStore) where
  -- The text says yes to the active frame, which waits for a confirmation; the request is a change,
  -- and it is filed, once and with the slots of the frame.
  pub record Confirmed (active : Option Frame) (text : String) (after : DemoStore) : Type 0 where
    pub frame : Frame
    pub is_active : active ≡ some frame
    pub waiting : frame.phase ≡ confirming
    pub says_yes : elem (normalize lib catalog fixtures text) yes_words ≡ true
    pub intent : Intent
    pub known : intent_of catalog frame.intent ≡ ok intent
    pub message : Reply
    pub filed : Filed intent frame.slots before after message

  -- What a turn leaves behind.
  pub record Turned (active : Option Frame) (text : String) (s : Conversation) : Type 0 where
    pub store : (s.store ≡ before) ⊎ Confirmed active text s.store
    pub suspended : length s.suspended ≤ 8
    pub messages : length s.messages ≤ 30

  turned :
      (active : Option Frame) (text : String) (s : Conversation)
      → Calm before s
      → Turned active text s
  turned active text s h = record {
    store = inl h.store;
    suspended = h.suspended;
    messages = h.messages;
  }

  keeps_store :
      (active : Option Frame) (text : String) (r : Result Conversation)
      → Gives (Calm before) r
      → Gives (Turned active text) r
  keeps_store active text r = Gives-mono (Calm before) (Turned active text) r (turned active text)

  as_ended :
      (active : Option Frame) (text : String) (r : Result (Option Conversation))
      → Gives (Stays before) r
      → Gives (Stage (Turned active text)) r
  as_ended active text (err x) h = tt
  as_ended active text (ok none) h = tt
  as_ended active text (ok (some s)) h = turned active text s h

  module _ (confirms : confirms_mutations catalog ≡ true) where
    confirm-Turned :
        (f : Frame) (s : Conversation) (text : String)
        → f.phase ≡ confirming
        → elem (normalize lib catalog fixtures text) yes_words ≡ true
        → Ready before s
        → Gives (Turned (some f) text) (confirm lib catalog fixtures f s)
    unfolding confirm
    confirm-Turned f s text waiting says h =
        bind-Gives (Turned (some f) text) (intent_of catalog f.intent) _ λ intent e.
          bind-Gives (Turned (some f) text) (execute lib fixtures intent f.slots s.store) _
            λ done e₂.
              let filed =
                subst (λ st. (done.1 ≡ st) ⊎ Filed intent f.slots st done.1 done.0) h.store
                  (execute_lem lib fixtures intent f.slots s.store done.1 done.0 e₂) in
              let calm =
                finish_frame-Calm done.1 f (record s { store = done.1 }) done.0.0 done.0.1
                  (record { store = refl; suspended = h.suspended }) in
              record {
                store = elim filed [
                  | inl kept ↦ inl (calm.store ∙ kept)
                  | inr made ↦ inr (record {
                    frame = f;
                    is_active = refl;
                    waiting = waiting;
                    says_yes = says;
                    intent = intent;
                    known = e;
                    message = done.0;
                    filed =
                        subst (λ st. Filed intent f.slots before st done.0) (sym calm.store) made;
                  })
                ];
                suspended = calm.suspended;
                messages = calm.messages;
              }

    fill_frame-Turned :
        (f : Frame) (s : Conversation) (text : String)
        → Ready before s
        → Gives (Stage (Turned (some f) text)) (fill_frame lib catalog fixtures f s text)
    unfolding fill_frame
    fill_frame-Turned f s text h =
        if-cases (Gives (Stage (Turned (some f) text)))
          (is_confirming f.phase && elem (normalize lib catalog fixtures text) yes_words) _ _
          (λ both.
            let (waiting, says) = &&_true _ _ both in
            ends-Stage (Turned (some f) text) _
              (confirm-Turned f s text (is_confirming_lem f.phase waiting) says h))
          (λ other.
            bind-Gives (Stage (Turned (some f) text)) (intent_of catalog f.intent) _ λ intent e.
              as_ended (some f) text _
                (collect_slots-Stays lib catalog fixtures before confirms intent f s text _ h))

    module _ (classify : (text context : String) → Result Classification) where
      after_choices-Turned :
          (s : Conversation) (text : String) (active : Option Frame)
          → Ready before s
          → Gives (Turned active text) (after_choices lib catalog fixtures classify s text active)
      unfolding after_choices
      after_choices-Turned s text none h =
          keeps_store none text _ (
            after_task-Calm lib catalog fixtures before confirms classify s text s.last_completed h)
      after_choices-Turned s text (some f) h =
          let ask =
            keeps_store (some f) text _
              (ask_classifier-Calm lib catalog fixtures before confirms classify s text h) in
          if-split (Gives (Turned (some f) text))
            (elem (normalize lib catalog fixtures text) thanks_words) _ _
            (turned (some f) text _ (reply-Calm before s _ [] [] h))
            (if-split (Gives (Turned (some f) text)) (non_empty s.choices) _ _ ask
              (or_next-Gives (Turned (some f) text) _ _ (fill_frame-Turned f s text h) ask))

      interpret-Turned :
          (s : Conversation) (text : String)
          → Ready before s
          → Gives (Turned s.active text) (interpret lib catalog fixtures classify s text)
      unfolding interpret
      interpret-Turned s text h =
          or_next-Gives (Turned s.active text) _ _
            (as_ended s.active text _ (choose-Stays lib catalog fixtures before confirms s _ h))
            (after_choices-Turned s text s.active h)

      select_intent-Turned :
          (s : Conversation) (text : String) (selected : Option String)
          → Ready before s
          → Gives
              (Turned s.active text)
              (select_intent lib catalog fixtures classify s text selected)
      unfolding select_intent
      select_intent-Turned s text none h = interpret-Turned s text h
      select_intent-Turned s text (some intent) h =
          if-split (Gives (Turned s.active text)) (elem intent (keys catalog.intents)) _ _
            (keeps_store s.active text _ (
              activating lib catalog fixtures before confirms _ intent text
                (record { store = h.store; suspended = h.suspended })))
            tt

      dispatch-Turned :
          (s : Conversation) (text : String) (selected : Option String)
          → Ready before s
          → Gives (Turned s.active text) (dispatch lib catalog fixtures classify s text selected)
      unfolding dispatch
      dispatch-Turned s text selected h =
          if-split (Gives (Turned s.active text))
            (elem (normalize lib catalog fixtures text) resume_words) _ _
            (keeps_store s.active text _ (
              resume-Calm lib catalog fixtures before confirms s (pop_last s.suspended)
                (subst (λ n. n ≤ 8) (sym (popped-pop_last s.suspended)) h.suspended) h))
            (if-split (Gives (Turned s.active text))
              (elem (normalize lib catalog fixtures text) no_words
                && (is_some s.active || non_empty s.choices))
              _ _
              (turned s.active text _
                (reply-Calm before _ _ [] [] (record { store = h.store; suspended = h.suspended })))
              (select_intent-Turned s text (given selected) h))

-- The lemmas on the stages, for `turn`.
pub turn_lem :
    (lib : TextLibrary) (catalog : Catalog) (fixtures : Fixtures)
    (classify : (text context : String) → Result Classification) (s after : Conversation)
    (text : String) (selected : Option String)
    → confirms_mutations catalog ≡ true
    → length s.suspended ≤ 8
    → turn lib catalog fixtures classify s text selected ≡ ok after
    → Turned lib catalog fixtures s.store s.active text after
unfolding turn
turn_lem lib catalog fixtures classify s after text selected confirms few h =
    subst (Gives (Turned lib catalog fixtures s.store s.active text)) h (
      dispatch-Turned lib catalog fixtures s.store confirms classify (begin_turn s text) text
        selected (record { store = refl; suspended = few }))
