-- ===== src/CustomerService/Dialogue/Stages.antt =====
-- Lemmas on the stages of `turn` in dialogue.py that do not confirm a request.
use vllm_verifier.Base.{
  ℕ, suc, ◌≤◌, ◌≡◌, refl, ap, ◌∙◌, String, Bool, true, Option, none, some, List, [], ◌∷◌, arith,
  elem, length, length-append, if-split,
}
use vllm_verifier.Errors.{Result, ok, err, item}
use vllm_verifier.CustomerService.Catalog.{Intent, Catalog, intent_of, slot_texts}
use vllm_verifier.CustomerService.Texts.{TextLibrary}
use vllm_verifier.CustomerService.Store.{Fixtures, DemoStore}
use vllm_verifier.CustomerService.Slots.{normalize, is_request, extract}
use vllm_verifier.CustomerService.Dialogue.{
  Frame, Conversation, CandidateIntent, Classification, classified, or_frame, missing_of, activate,
}
use vllm_verifier.CustomerService.Dialogue.Turn.{
  yes_words, pop_last, pop_behind, as_list, or_next, ends, Reading, resume, named_choice,
  activate_chosen, choose, expected_of, invalid_attempt, ask_again, collect_slots, follow_up,
  context_of, names_product, names_order, labels_of, set_aside, clarify, route_to, route,
  ask_classifier, after_task,
}
use vllm_verifier.CustomerService.Dialogue.Calm.{
  Gives, bind-Gives, Ready, Calm, reply-Calm, suspend-Ready, advance_frame-Calm, activate-Calm,
  confirms_mutations,
}

-- How many frames there were before the last one was taken.
abbrev pub popped : Option (Frame × List Frame) → ℕ
popped none = 0
popped (some (last, others)) = suc (length others)

popped-pop_behind :
    (f : Frame) (o : Option (Frame × List Frame)) → popped (pop_behind f o) ≡ suc (popped o)
popped-pop_behind f none = refl
popped-pop_behind f (some p) = refl

pub popped-pop_last : (frames : List Frame) → popped (pop_last frames) ≡ length frames
popped-pop_last [] = refl
popped-pop_last (f ∷ frames) =
    popped-pop_behind f (pop_last frames) ∙ ap suc (popped-pop_last frames)

length-as_list : (f : Option Frame) → length (as_list f) ≤ 1
length-as_list none = omega arith
length-as_list (some f) = omega arith

-- If the stage ends the turn, that is what it leaves.
abbrev pub Stage : (Conversation → Type 0) → Option Conversation → Type 0
Stage P none = Unit
Stage P (some s) = P s

abbrev pub Stays : DemoStore → Option Conversation → Type 0
Stays before = Stage (Calm before)

pub ends-Stage :
    (P : Conversation → Type 0) (r : Result Conversation) → Gives P r → Gives (Stage P) (ends r)
ends-Stage P (ok s) h = h
ends-Stage P (err x) h = tt

pub or_next-Gives :
    (P : Conversation → Type 0) (r : Result (Option Conversation)) (next : Result Conversation)
    → Gives (Stage P) r
    → Gives P next
    → Gives P (or_next r next)
or_next-Gives P (err x) next h k = tt
or_next-Gives P (ok none) next h k = k
or_next-Gives P (ok (some s)) next h k = h

module _ (lib : TextLibrary) (catalog : Catalog) (fixtures : Fixtures) (before : DemoStore) where
  module _ (confirms : confirms_mutations catalog ≡ true) where
    pub activating :
        (s : Conversation) (key text : String)
        → Ready before s
        → Gives (Calm before) (activate lib catalog fixtures s key text)
    activating = activate-Calm lib catalog fixtures before confirms

    pub resume-Calm :
        (s : Conversation) (o : Option (Frame × List Frame))
        → popped o ≤ 8
        → Ready before s
        → Gives (Calm before) (resume lib catalog fixtures s o)
    unfolding resume
    resume-Calm s none few h = reply-Calm before s _ [] [] h
    resume-Calm s (some (previous, others)) few h =
        advance_frame-Calm lib catalog fixtures before confirms previous _ _ (record {
          store = h.store;
          suspended =
              omega (arith, length-append others (as_list s.active), length-as_list s.active);
        })

    activate_chosen-Stays :
        (s : Conversation) (key : Option String)
        → Ready before s
        → Gives (Stays before) (activate_chosen lib catalog fixtures s key)
    activate_chosen-Stays s none h = tt
    activate_chosen-Stays s (some key) h = ends-Stage (Calm before) _ (activating s key _ h)

    pub choose-Stays :
        (s : Conversation) (command : String)
        → Ready before s
        → Gives (Stays before) (choose lib catalog fixtures s command)
    unfolding choose
    choose-Stays s command h =
        bind-Gives (Stays before) (named_choice lib catalog fixtures command s.choices) _
          λ named e. activate_chosen-Stays s _ h

    ask_again-Stays :
        (s : Conversation) (expected : Option String)
        → Ready before s
        → Gives (Stays before) (ask_again s expected)
    ask_again-Stays s none h = tt
    ask_again-Stays s (some expected) h =
        bind-Gives (Stage (Calm before)) (item expected slot_texts) _
          λ t e. reply-Calm before s _ [] _ h

    pub collect_slots-Stays :
        (intent : Intent) (f : Frame) (s : Conversation) (text : String) (reading : Reading)
        → Ready before s
        → Gives (Stays before) (collect_slots lib catalog fixtures intent f s text reading)
    unfolding collect_slots
    collect_slots-Stays intent f s text reading h =
        if-split (Gives (Stays before)) reading.is_answer _ _
          (ends-Stage (Calm before) _ (
            advance_frame-Calm lib catalog fixtures before confirms _ _ _
              (record { store = h.store; suspended = h.suspended })))
          (if-split (Gives (Stays before)) (elem (normalize lib catalog fixtures text) yes_words) _
            _
            (ends-Stage (Calm before) _
              (advance_frame-Calm lib catalog fixtures before confirms f s "" h))
            (if-split (Gives (Stays before))
              (invalid_attempt lib catalog fixtures text (expected_of (missing_of intent f.slots)))
              _ _ (ask_again-Stays s _ h) tt))

    follow_up-Stays :
        (last : Frame) (s : Conversation) (text : String)
        → Ready before s
        → Gives (Stays before) (follow_up lib catalog fixtures last s text)
    unfolding follow_up
    follow_up-Stays last s text h =
        bind-Gives (Stays before) (intent_of catalog last.intent) _ λ intent e.
          if-split (Gives (Stays before))
            (names_product intent (extract lib catalog fixtures text none)) _ _
            (ends-Stage (Calm before) _
              (activating _ _ text (record { store = h.store; suspended = h.suspended })))
            (if-split (Gives (Stays before))
              (names_order intent (extract lib catalog fixtures text none)) _ _
              (ends-Stage (Calm before) _
                (activating _ _ text (record { store = h.store; suspended = h.suspended })))
              tt)

    set_aside-Ready :
        (request : Bool) (s : Conversation) (active : Option Frame)
        → Ready before s
        → Ready before (set_aside request s active)
    set_aside-Ready request s none h = h
    set_aside-Ready request s (some f) h =
        if-split (Ready before) request _ _ (suspend-Ready before f s h) h

    clarify-Calm :
        (s : Conversation) (text : String) (choices : List String)
        → Ready before s
        → Gives (Calm before) (clarify lib catalog fixtures s text choices)
    unfolding clarify
    clarify-Calm s text choices h =
        bind-Gives (Calm before) (labels_of lib catalog fixtures choices) _ λ labels e.
          reply-Calm before _ _ [] _ (record { store = h.store; suspended = h.suspended })

    route_to-Calm :
        (s : Conversation) (text : String) (intent : Option String)
        (candidates : List CandidateIntent)
        → Ready before s
        → Gives (Calm before) (route_to lib catalog fixtures s text intent candidates)
    route_to-Calm s text (some intent) candidates h = activating s intent text h
    route_to-Calm s text none candidates h = clarify-Calm _ text _ (set_aside-Ready _ s s.active h)

    route-Calm :
        (s : Conversation) (text : String) (result : Classification)
        → Ready before s
        → Gives (Calm before) (route lib catalog fixtures s text result)
    unfolding route
    route-Calm s text result h =
        route_to-Calm (record s { trace = classified result }) text result.intent result.candidates
          (record { store = h.store; suspended = h.suspended })

    module _ (classify : (text context : String) → Result Classification) where
      pub ask_classifier-Calm :
          (s : Conversation) (text : String)
          → Ready before s
          → Gives (Calm before) (ask_classifier lib catalog fixtures classify s text)
      unfolding ask_classifier
      ask_classifier-Calm s text h =
          bind-Gives (Calm before)
            (context_of lib catalog fixtures (or_frame s.active s.last_completed)) _
            λ context e.
              bind-Gives (Calm before) (classify text _) _ λ result e₂. route-Calm s text result h

      pub after_task-Calm :
          (s : Conversation) (text : String) (last : Option Frame)
          → Ready before s
          → Gives (Calm before) (after_task lib catalog fixtures classify s text last)
      unfolding after_task
      after_task-Calm s text none h = ask_classifier-Calm s text h
      after_task-Calm s text (some last) h =
          if-split (Gives (Calm before)) (is_request lib catalog fixtures text) _ _
            (ask_classifier-Calm s text h)
            (or_next-Gives (Calm before) _ _ (follow_up-Stays last s text h)
              (ask_classifier-Calm s text h))
