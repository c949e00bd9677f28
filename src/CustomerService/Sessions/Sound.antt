-- ===== src/CustomerService/Sessions/Sound.antt =====
-- The sessions of app.py after events: their number, their conversations and their locks.
use vllm_verifier.Base.{
  ℕ, suc, ◌-◌, ◌≤◌, ◌<◌, ◌≡◌, ◌≢◌, refl, sym, ap, ap₂, ◌∙◌, subst, inl, inr, String, Bool, true,
  false, ◌&&◌, not, Option, none, some, List, [], ◌∷◌, length, lookup, insert, lookup-insert, All,
  All-insert, arith, ltb, leb, str_eq, str_eq_iff, Bool-cases, if◌then◌else◌, if-split, if-cases,
}
use vllm_verifier.Errors.{Result, ok, err}
use vllm_verifier.CustomerService.Catalog.{Catalog}
use vllm_verifier.CustomerService.Texts.{TextLibrary}
use vllm_verifier.CustomerService.Store.{Fixtures}
use vllm_verifier.CustomerService.Actions.{select}
use vllm_verifier.CustomerService.Dialogue.{Classification, Conversation}
use vllm_verifier.CustomerService.Dialogue.Turn.{turn}
use vllm_verifier.CustomerService.Dialogue.Talks.{Talks, begun, spoken}
use vllm_verifier.CustomerService.Sessions.{
  Session, Sessions, SessionEvent, visit, lock, chat, reset, release, adjust, has_expired,
  after_turn, new_session, admit_session, session, chatted, on_event, on_events,
}

length-adjust :
    (token : String) (f : Session → Session) (sessions : Sessions)
    → length (adjust token f sessions) ≡ length sessions
length-adjust token f [] = refl
length-adjust token f ((k, s) ∷ sessions) = ap suc (length-adjust token f sessions)

length-insert :
    {V : Type 0} (k : String) (v : V) (d : List (String × V))
    → length (insert k v d) ≤ suc (length d)
unfolding insert
length-insert k v [] = omega arith
length-insert k v ((j, w) ∷ d) =
    if-split (λ l. length l ≤ suc (suc (length d))) (str_eq j k) ((j, v) ∷ d)
      ((j, w) ∷ insert k v d) (omega arith) (omega (arith, length-insert k v d))

length-select : {A : Type 0} (test : A → Bool) (xs : List A) → length (select test xs) ≤ length xs
length-select test [] = omega arith
length-select test (x ∷ xs) =
    if-split (λ l. length l ≤ suc (length xs)) (test x) _ _ (omega (arith, length-select test xs))
      (omega (arith, length-select test xs))

All-select :
    {A : Type 0} (P : A → Type 0) (test : A → Bool) (xs : List A)
    → All P xs
    → All P (select test xs)
All-select P test [] h = tt
All-select P test (x ∷ xs) h =
    if-split (All P) (test x) _ _ (h.0, All-select P test xs h.1) (All-select P test xs h.1)

All-adjust :
    (P : String × Session → Type 0) (token : String) (f : Session → Session) (sessions : Sessions)
    → ((k : String) (s : Session) → P (k, s) → P (k, f s))
    → All P sessions
    → All P (adjust token f sessions)
All-adjust P token f [] keep h = tt
All-adjust P token f ((k, s) ∷ sessions) keep h = (
  if-split (λ t. P (k, t)) (str_eq k token) (f s) s (keep k s h.0) h.0,
  All-adjust P token f sessions keep h.1,
)

lookup-select :
    {V : Type 0} (test : String × V → Bool) (k : String) (d : List (String × V)) {v : V}
    → lookup k d ≡ some v
    → test (k, v) ≡ true
    → lookup k (select test d) ≡ some v
unfolding lookup
lookup-select test k [] h t = cc
lookup-select test k ((j, w) ∷ d) {v} h t = elim (Bool-cases (str_eq j k)) [
  | inl same ↦
      let value : w ≡ v = ground arith in
      let key : k ≡ j = sym ((str_eq_iff j k).0 same) in
      let kept : test (j, w) ≡ true =
        subst (λ x. test (j, x) ≡ true) (sym value) (subst (λ i. test (i, v) ≡ true) key t) in
      rw (kept, lookup, same) (ap some value)
  | inr other ↦
      let rest = lookup-select test k d (ground arith) t in
      if-split (λ l. lookup k l ≡ some v) (test (j, w)) _ _ (rw (lookup, other) rest) rest
]

lookup-adjust :
    (token k : String) (f : Session → Session) (sessions : Sessions) {s : Session}
    → lookup k sessions ≡ some s
    → lookup k (adjust token f sessions) ≡ some (if str_eq k token then f s else s)
unfolding lookup
lookup-adjust token k f [] h = cc
lookup-adjust token k f ((j, w) ∷ sessions) {s} h = elim (Bool-cases (str_eq j k)) [
  | inl same ↦
      let key : j ≡ k = (str_eq_iff j k).0 same in
      let value : w ≡ s = ground arith in
      rw same (ap some (ap₂ (λ i t. if str_eq i token then f t else t) key value))
  | inr other ↦ rw other (lookup-adjust token k f sessions (ground arith))
]

module _ (lib : TextLibrary) (catalog : Catalog) (fixtures : Fixtures)
    (classify : (text context : String) → Result Classification) (max_sessions ttl : ℕ) where
  -- The conversation of a session is one that turns led to.
  abbrev pub IsTalk : String × Session → Type 0
  IsTalk p = Talks lib catalog fixtures classify p.1.state

  pub record IsSound (sessions : Sessions) : Type 0 where
    pub bounded : length sessions ≤ max_sessions
    pub talks : All IsTalk sessions

  admit_session-IsSound :
      (now : ℕ) (cookie : Option String) (fresh : String) (sessions : Sessions)
      → IsSound sessions
      → IsSound
          (admit_session lib catalog fixtures classify max_sessions ttl now cookie fresh sessions).1
  unfolding admit_session
  admit_session-IsSound now (some token) fresh sessions h = record {
    bounded =
        omega (arith, length-adjust token (λ s. record s { accessed = now }) sessions, h.bounded);
    talks =
        All-adjust IsTalk token (λ s. record s { accessed = now }) sessions (λ k s t. t) h.talks;
  }
  admit_session-IsSound now none fresh sessions h =
      if-cases (λ (p : Option String × Sessions). IsSound p.1) (leb max_sessions (length sessions))
        _ _ (λ full. h)
        (λ room. record {
          bounded = omega (
            arith,
            length-insert fresh (new_session lib catalog fixtures classify max_sessions ttl now)
                sessions,
            below room,
          );
          talks = All-insert IsTalk fresh _ sessions h.talks begun;
        })
    where
      below : leb max_sessions (length sessions) ≡ false → length sessions < max_sessions
      below room = ground arith

  session-IsSound :
      (now : ℕ) (cookie : Option String) (fresh : String) (sessions : Sessions)
      → IsSound sessions
      → IsSound (session lib catalog fixtures classify max_sessions ttl now cookie fresh sessions).1
  unfolding session
  session-IsSound now cookie fresh sessions h = admit_session-IsSound now _ fresh _ (record {
    bounded = omega (
      arith,
      length-select (λ (p : String × Session). not (has_expired ttl now p.1)) sessions,
      h.bounded,
    );
    talks = All-select IsTalk _ sessions h.talks;
  })

  adjust-IsSound :
      (token : String) (f : Session → Session) (sessions : Sessions)
      → ((k : String) (s : Session) → IsTalk (k, s) → IsTalk (k, f s))
      → IsSound sessions
      → IsSound (adjust token f sessions)
  adjust-IsSound token f sessions keep h = record {
    bounded = omega (arith, length-adjust token f sessions, h.bounded);
    talks = All-adjust IsTalk token f sessions keep h.talks;
  }

  chatted-IsTalk :
      (now : ℕ) (text : String) (selected : Option String) (k : String) (s : Session)
      → IsTalk (k, s)
      → IsTalk (k, chatted lib catalog fixtures classify max_sessions ttl now text selected s)
  chatted-IsTalk now text selected k s h =
      if-split (λ t. IsTalk (k, t)) s.locked _ _
        (by_turn (turn lib catalog fixtures classify s.state text selected) refl) h
    where
      by_turn :
          (r : Result Conversation)
          → turn lib catalog fixtures classify s.state text selected ≡ r
          → IsTalk (k, after_turn now s r)
      by_turn (ok working) e = spoken text selected h e
      by_turn (err x) e = h

  on_event-IsSound :
      (event : SessionEvent) (sessions : Sessions)
      → IsSound sessions
      → IsSound (on_event lib catalog fixtures classify max_sessions ttl event sessions)
  unfolding on_event
  on_event-IsSound (visit now cookie fresh) sessions h = session-IsSound now cookie fresh sessions h
  on_event-IsSound (lock token) sessions h = adjust-IsSound token _ sessions (λ k s t. t) h
  on_event-IsSound (chat token now text selected) sessions h =
      adjust-IsSound token _ sessions (chatted-IsTalk now text selected) h
  on_event-IsSound (reset token) sessions h =
      adjust-IsSound token _ sessions (λ k s t. if-split (λ u. IsTalk (k, u)) s.locked _ _ begun t)
        h
  on_event-IsSound (release token) sessions h = adjust-IsSound token _ sessions (λ k s t. t) h

  on_events-IsSound :
      (events : List SessionEvent) (sessions : Sessions)
      → IsSound sessions
      → IsSound (on_events lib catalog fixtures classify max_sessions ttl events sessions)
  unfolding on_events
  on_events-IsSound [] sessions h = h
  on_events-IsSound (event ∷ events) sessions h =
      on_events-IsSound events _ (on_event-IsSound event sessions h)

  -- After any events on an app with no sessions, there are at most `max_sessions` of them, and the
  -- conversation of each session is one that turns, each of which returned, led to from a new one.
  pub sessions_sound :
      (events : List SessionEvent)
      → (length (on_events lib catalog fixtures classify max_sessions ttl events []) ≤ max_sessions)
        × All IsTalk (on_events lib catalog fixtures classify max_sessions ttl events [])
  sessions_sound events =
      let h = on_events-IsSound events [] (record { bounded = omega arith; talks = tt }) in
      (h.bounded, h.talks)

  admit_session_keeps :
      (now : ℕ) (cookie : Option String) (fresh k : String) (sessions : Sessions) {s : Session}
      → lookup k sessions ≡ some s
      → fresh ≢ k
      → (t : Session) × (lookup k
            (admit_session lib catalog fixtures classify max_sessions ttl now cookie fresh
              sessions).1
          ≡ some t)
        × (t.state ≡ s.state)
        × (t.locked ≡ s.locked)
  unfolding admit_session
  admit_session_keeps now (some token) fresh k sessions {s} h other = (
    if str_eq k token then record s { accessed = now } else s,
    lookup-adjust token k (λ s. record s { accessed = now }) sessions h,
    if-split (λ (t : Session). t.state ≡ s.state) (str_eq k token) _ _ refl refl,
    if-split (λ (t : Session). t.locked ≡ s.locked) (str_eq k token) _ _ refl refl,
  )
  admit_session_keeps now none fresh k sessions {s} h other = (
    s,
    if-split (λ (p : Option String × Sessions). lookup k p.1 ≡ some s)
        (leb max_sessions (length sessions)) _ _ h
        (lookup-insert fresh k _ sessions
          ∙ (if-cases (λ o. o ≡ some s) (str_eq fresh k) _ _
              (λ same. absurd (other ((str_eq_iff fresh k).0 same))) (λ _. h))),
    refl,
    refl,
  )

  -- A request that comes leaves a session whose lock is held where it is, with its conversation and
  -- its lock, if the token that the request would get is not that of the session.
  pub session_keeps_locked :
      (now : ℕ) (cookie : Option String) (fresh k : String) (sessions : Sessions) (s : Session)
      → lookup k sessions ≡ some s
      → s.locked ≡ true
      → fresh ≢ k
      → (t : Session) × (lookup k
            (session lib catalog fixtures classify max_sessions ttl now cookie fresh sessions).1
          ≡ some t)
        × (t.state ≡ s.state)
        × (t.locked ≡ true)
  unfolding session
  session_keeps_locked now cookie fresh k sessions s h held other =
      let live =
        lookup-select (λ (p : String × Session). not (has_expired ttl now p.1)) k sessions h
          (kept s.locked held) in
      let (t, there, state, holds) = admit_session_keeps now _ fresh k _ live other in
      (t, there, state, holds ∙ held)
    where
      kept : (b : Bool) → b ≡ true → not (ltb ttl (now - s.accessed) && not b) ≡ true
      kept b e = ground arith
