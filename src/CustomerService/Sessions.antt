-- ===== src/CustomerService/Sessions.antt =====
-- The sessions of app.py in examples/customer_service: their expiry, their number, and the lock and the
-- copy behind which a turn runs. Requests of different sessions run interleaved, as events on the
-- sessions. The clock gives natural numbers, and the tokens of `secrets` come with the events.
pub mod Sound
use vllm_verifier.Base.{
  ℕ, ◌-◌, ◌≤◌, ◌<◌, ◌≡◌, ◌≢◌, refl, sym, ap, ◌∙◌, subst, inl, inr, String, Bool, true, false, ◌&&◌,
  ◌||◌, not, Option, none, some, List, [], ◌∷◌, length, lookup, insert, keys, elem, All, All-insert,
  arith, ltb, leb, str_eq, str_eq_iff, Bool-cases, if◌then◌else◌, if-split, if-cases,
}
use vllm_verifier.Errors.{Exception, Result, ok, err, is_value_error}
use vllm_verifier.CustomerService.Catalog.{Catalog}
use vllm_verifier.CustomerService.Texts.{TextLibrary}
use vllm_verifier.CustomerService.Store.{Fixtures, new_store}
use vllm_verifier.CustomerService.Actions.{select}
use vllm_verifier.CustomerService.Dialogue.{Classification, Conversation, new_conversation}
use vllm_verifier.CustomerService.Dialogue.Turn.{turn}
use vllm_verifier.CustomerService.Dialogue.Talks.{Talks, begun, spoken}

pub record Session : Type 0 where
  pub state : Conversation
  pub locked : Bool
  pub accessed : ℕ

-- `sessions`, by their tokens
abbrev pub Sessions : Type 0
Sessions = List (String × Session)

pub data SessionEvent : Type 0 where
  -- A request comes with its cookie; `fresh` is the token that it would get.
  visit : (now : ℕ) (cookie : Option String) (fresh : String) → SessionEvent
  -- A request gets the lock of its session.
  lock : (token : String) → SessionEvent
  -- The holder of the lock ends: a chat, a reset, or one that changes nothing, since it reads, its
  -- client is gone, or the classifier or its deadline failed.
  chat : (token : String) (now : ℕ) (text : String) (selected : Option String) → SessionEvent
  reset release : (token : String) → SessionEvent

-- `sessions[token]` changes, if it is there.
abbrev pub adjust : String → (Session → Session) → Sessions → Sessions
adjust token f [] = []
adjust token f ((k, s) ∷ sessions) =
    (k, if str_eq k token then f s else s) ∷ adjust token f sessions

-- `now - value.accessed > ttl and not value.lock.locked()`
abbrev pub has_expired : ℕ → ℕ → Session → Bool
has_expired ttl now s = ltb ttl (now - s.accessed) && not s.locked

abbrev pub expire : ℕ → ℕ → Sessions → Sessions
expire ttl now sessions = select (λ p. not (has_expired ttl now p.1)) sessions

-- `token in sessions`, for a cookie that may be missing
abbrev pub known_token : Option String → Sessions → Option String
known_token none sessions = none
known_token (some token) sessions = if elem token (keys sessions) then some token else none

-- The state of a session behind a turn: a copy is what the turn changes, and only a turn that returns
-- puts it back.
abbrev pub after_turn : ℕ → Session → Result Conversation → Session
after_turn now s (ok working) = record s { state = working; accessed = now; locked = false }
after_turn now s (err x) = record s { locked = false }

-- The status of the response to a chat.
abbrev pub chat_status : Result Conversation → ℕ
chat_status (ok working) = 200
chat_status (err x) = if is_value_error x then 422 else 500

module _ (lib : TextLibrary) (catalog : Catalog) (fixtures : Fixtures)
    (classify : (text context : String) → Result Classification) (max_sessions ttl : ℕ) where
  abbrev pub new_session : ℕ → Session
  new_session now = record {
    state = new_conversation (new_store fixtures);
    locked = false;
    accessed = now;
  }

  -- `session` behind the expiry; the token is `none` for the HTTPException 503.
  unfoldable pub admit_session : ℕ → Option String → String → Sessions → Option String × Sessions
  admit_session now (some token) fresh sessions =
      (some token, adjust token (λ s. record s { accessed = now }) sessions)
  admit_session now none fresh sessions =
      if leb max_sessions (length sessions)
      then (none, sessions)
      else (some fresh, insert fresh (new_session now) sessions)

  -- `session`
  unfoldable pub session : ℕ → Option String → String → Sessions → Option String × Sessions
  session now cookie fresh sessions =
      let live = expire ttl now sessions in admit_session now (known_token cookie live) fresh live

  abbrev pub chatted : ℕ → String → Option String → Session → Session
  chatted now text selected s =
      if s.locked
      then after_turn now s (turn lib catalog fixtures classify s.state text selected)
      else s

  abbrev pub renewed : Session → Session
  renewed s =
      if s.locked
      then record s { state = new_conversation (new_store fixtures); locked = false }
      else s

  unfoldable pub on_event : SessionEvent → Sessions → Sessions
  on_event (visit now cookie fresh) sessions = (session now cookie fresh sessions).1
  on_event (lock token) sessions = adjust token (λ s. record s { locked = true }) sessions
  on_event (chat token now text selected) sessions =
      adjust token (chatted now text selected) sessions
  on_event (reset token) sessions = adjust token renewed sessions
  on_event (release token) sessions = adjust token (λ s. record s { locked = false }) sessions

  unfoldable pub on_events : List SessionEvent → Sessions → Sessions
  on_events [] sessions = sessions
  on_events (event ∷ events) sessions = on_events events (on_event event sessions)
