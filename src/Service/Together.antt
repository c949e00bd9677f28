-- ===== src/Service/Together.antt =====
-- The answers that `evaluate` of service.py puts together.
use vllm_verifier.Base.{
  ℕ, zip, map, length-map, sym, ap, suc, ◌∙◌, ◌≡◌, refl, subst, inl, inr, String, some, List, [],
  ◌∷◌, length, values, lookup, insert, lookup-insert, All, All-insert, Any, arith, not, elem,
  str_eq, str_eq_refl, Bool-cases,
}
use vllm_verifier.Errors.{
  Exception, Result, ok, err, >>=-eq-ok, traverse, length-traverse, ok-injective,
}
use vllm_verifier.Models.{
  Question, Answer, Content, Usage, no_usage, add_usage, Completion, SystemOneRequest,
  SystemOneResponse,
}
use vllm_verifier.Floats.{Floats, FloatLaws}
use vllm_verifier.Verification.{JsonReader}
use vllm_verifier.Verification.Builds.{SumsAreFinite, HasCriteria}
use vllm_verifier.Answers.Fits.{Fits}
use vllm_verifier.Prompts.{JsonWriter, Message}
use vllm_verifier.Backend.Protocol.{OnlyService, OnlyService-raise_if}
use vllm_verifier.Service.Tasks.{
  Task, ServiceSettings, check_model, merge, alone, in_order, TaskEvent, evaluate_tasks,
}
use vllm_verifier.Service.Schedules.{
  run_of, run_of-Kept, had, evaluate_tasks-in_order, evaluate_tasks_raises,
}
use vllm_verifier.Service.Alone.{
  Sound, alone-Sound, Serves, EventServes, run_tasks-RepliesServe, begin-RepliesServe,
}

abbrev pub HasKey : {V : Type 0} → String → List (String × V) → Type 0
HasKey k d = (v : _) × (lookup k d ≡ some v)

HasKey-insert :
    {V : Type 0} (k j : String) (v : V) (d : List (String × V))
    → HasKey k d
    → HasKey k (insert j v d)
HasKey-insert k j v d (w, found) = elim (Bool-cases (str_eq j k)) [
  | inl same ↦ (v, rw (lookup-insert j k v d, same) refl)
  | inr other ↦ (w, rw (lookup-insert j k v d, other) found)
]

HasKey-insert_self :
    {V : Type 0} (k : String) (v : V) (d : List (String × V)) → HasKey k (insert k v d)
HasKey-insert_self k v d = (v, rw (lookup-insert k k v d, str_eq_refl k) refl)

module _ {F : Type 0} where
  merge_keeps :
      (k : String) (questions : List (String × Question F)) (rs : List (Answer F × Usage))
      (d : List (String × Answer F)) (u : Usage)
      → HasKey k d
      → HasKey k (merge questions rs (d, u)).0
  merge_keeps k [] rs d u h = h
  merge_keeps k ((j, q) ∷ questions) [] d u h = h
  merge_keeps k ((j, q) ∷ questions) ((a, used) ∷ rs) d u h =
      merge_keeps k questions rs (insert j a d) (add_usage u used) (HasKey-insert k j a d h)

  merge_keys :
      (questions : List (String × Question F)) (rs : List (Answer F × Usage))
      (d : List (String × Answer F)) (u : Usage)
      → length rs ≡ length (values questions)
      → All (λ x. HasKey x.0 (merge questions rs (d, u)).0) questions
  merge_keys [] rs d u h = tt
  merge_keys ((k, q) ∷ questions) [] d u h = absurd (omega (arith, h))
  merge_keys ((k, q) ∷ questions) ((a, used) ∷ rs) d u h = (
    merge_keeps k questions rs (insert k a d) (add_usage u used) (HasKey-insert_self k a d),
    merge_keys questions rs (insert k a d) (add_usage u used) (omega (arith, h)),
  )

  module _ (P : String × Answer F → Type 0) where
    -- The property holds of each name with its answer.
    abbrev Paired : List (String × Question F) → List (Answer F × Usage) → Type 0
    Paired ((k, q) ∷ questions) ((a, u) ∷ rs) = P (k, a) × Paired questions rs
    Paired _ _ = Unit

    merge-All :
        (questions : List (String × Question F)) (rs : List (Answer F × Usage))
        (d : List (String × Answer F)) (u : Usage)
        → Paired questions rs
        → All P d
        → All P (merge questions rs (d, u)).0
    merge-All [] rs d u h all_d = all_d
    merge-All ((k, q) ∷ questions) [] d u h all_d = all_d
    merge-All ((k, q) ∷ questions) ((a, used) ∷ rs) d u h all_d =
        merge-All questions rs (insert k a d) (add_usage u used) h.1 (All-insert P k a d all_d h.0)

length-zip :
    {A B : Type 0} (xs : List A) (ys : List B)
    → length ys ≡ length xs
    → length (zip xs ys) ≡ length xs
length-zip [] ys h = refl
length-zip (x ∷ xs) [] h = absurd (omega (arith, h))
length-zip (x ∷ xs) (y ∷ ys) h = ap suc (length-zip xs ys (omega (arith, h)))

module _ (fl : Floats) (reader : JsonReader fl.F) (writer : JsonWriter fl.F) (cfg : ServiceSettings)
    (state : Content fl.F) where
  open fl use {F}

  -- An answer of one of these questions, which it fits.
  abbrev pub IsAnswerOf : List (String × Question F) → String × Answer F → Type 0
  IsAnswerOf questions p = Any (λ x. (x.0 ≡ p.0) × Fits fl x.1 p.1) questions

  -- Each answer fits a question of its name, and each question has an answer.
  abbrev pub AllAnswered : List (String × Question F) → List (String × Answer F) → Type 0
  AllAnswered questions answers =
      All (IsAnswerOf questions) answers × All (λ x. HasKey x.0 answers) questions

  -- How `evaluate` may end.
  abbrev pub Evaluated : SystemOneRequest F → Result (SystemOneResponse F) → Type 0
  Evaluated request (ok response) = AllAnswered request.questions response.answers
  Evaluated request (err x) = OnlyService {A = Unit {0}} (err x)

  module _ (laws : FloatLaws fl) (sums : SumsAreFinite fl reader) where
    sound :
        (q : Question F) (replies : List (List Message → Result Completion))
        {r : Result (Answer F × Usage)}
        → HasCriteria fl reader q
        → All Serves replies
        → alone fl reader writer cfg state (q, replies) ≡ r
        → Sound fl reader writer cfg state q r
    sound q replies has serve e =
        subst (Sound fl reader writer cfg state q) e
          (alone-Sound fl reader writer cfg state laws sums q has replies serve)

    paired :
        (whole questions : List (String × Question F))
        (scripts : List (List (List Message → Result Completion))) (rs : List (Answer F × Usage))
        → ((p : String × Answer F) → IsAnswerOf questions p → IsAnswerOf whole p)
        → All (λ x. HasCriteria fl reader x.1) questions
        → All (All Serves) scripts
        → traverse (alone fl reader writer cfg state) (zip (values questions) scripts) ≡ ok rs
        → Paired (IsAnswerOf whole) questions rs
    paired whole [] scripts rs among has serve h = tt
    paired whole ((k, q) ∷ questions) [] rs among has serve h =
        subst (Paired (IsAnswerOf whole) ((k, q) ∷ questions)) (ok-injective h) tt
    paired whole ((k, q) ∷ questions) (script ∷ scripts) rs among has serve h =
        let ((a, u), one, r₁) = >>=-eq-ok (alone fl reader writer cfg state (q, script)) _ h in
        let (more, others, r₂) =
          >>=-eq-ok (traverse (alone fl reader writer cfg state) (zip (values questions) scripts)) _
            r₁ in
        subst (Paired (IsAnswerOf whole) ((k, q) ∷ questions)) (ok-injective r₂) (
          among (k, a) (inl (refl, sound q script has.0 serve.0 one)),
          paired whole questions scripts more (λ p x. among p (inr x)) has.1 serve.1 others,
        )

    pub Any-OnlyService :
        (questions : List (String × Question F))
        (scripts : List (List (List Message → Result Completion))) (x : Exception)
        → All (λ x. HasCriteria fl reader x.1) questions
        → All (All Serves) scripts
        → Any (λ p. alone fl reader writer cfg state p ≡ err x) (zip (values questions) scripts)
        → OnlyService {A = Unit {0}} (err x)
    Any-OnlyService [] scripts x has serve h = elim h [ ]
    Any-OnlyService ((k, q) ∷ questions) [] x has serve h = elim h [ ]
    Any-OnlyService ((k, q) ∷ questions) (script ∷ scripts) x has serve (inl one) =
        sound q script has.0 serve.0 one
    Any-OnlyService ((k, q) ∷ questions) (script ∷ scripts) x has serve (inr more) =
        Any-OnlyService questions scripts x has.1 serve.1 more

    pub in_order-Evaluated :
        (request : SystemOneRequest F) (scripts : List (List (List Message → Result Completion)))
        (response : SystemOneResponse F)
        → All (λ x. HasCriteria fl reader x.1) request.questions
        → All (All Serves) scripts
        → length scripts ≡ length (values request.questions)
        → in_order fl reader writer cfg state request scripts ≡ ok response
        → AllAnswered request.questions response.answers
    in_order-Evaluated request scripts response has serve long h =
        let asked = zip (values request.questions) scripts in
        let (u, known, r₁) = >>=-eq-ok (check_model cfg request.model) _ h in
        let (rs, all_of_them, r₂) =
          >>=-eq-ok (traverse (alone fl reader writer cfg state) asked) _ r₁ in
        subst (λ (r : SystemOneResponse F). AllAnswered request.questions r.answers)
          (ok-injective r₂)
          (
            merge-All (IsAnswerOf request.questions) request.questions rs [] no_usage
                (paired request.questions request.questions scripts rs (λ p x. x) has serve
                  all_of_them)
                tt,
            merge_keys request.questions rs [] no_usage (
                length-traverse _ asked all_of_them
                ∙ length-zip (values request.questions) scripts long),
          )

pub check_model-OnlyService :
    (cfg : ServiceSettings) (m : String) (x : Exception)
    → check_model cfg m ≡ err x
    → OnlyService {A = Unit {0}} (err x)
unfolding check_model
check_model-OnlyService cfg m x h =
    subst OnlyService h
      (OnlyService-raise_if (not (elem m ("jev-latest" ∷ "diffusion-jev" ∷ cfg.model ∷ []))) _)

module _ (fl : Floats) (reader : JsonReader fl.F) (writer : JsonWriter fl.F)
    (cfg : ServiceSettings) where
  open fl use {F}

  pub length-had :
      (free : ℕ) (events : List TaskEvent) (request : SystemOneRequest F)
      → length (had fl reader writer cfg free events request) ≡ length (values request.questions)
  length-had free events request =
      let e = run_of fl reader writer cfg free events request in
      length-map (λ (t : Task F). t.replies) e.tasks
      ∙ sym (length-map (λ (t : Task F). t.question) e.tasks)
      ∙ ap length (run_of-Kept fl reader writer cfg free events request).asked

  All-scripts :
      (tasks : List (Task F))
      → All (λ (t : Task F). All Serves t.replies) tasks
      → All (All Serves) (map (λ (t : Task F). t.replies) tasks)
  All-scripts [] h = tt
  All-scripts (t ∷ tasks) h = (h.0, All-scripts tasks h.1)

  pub had-Serves :
      (free : ℕ) (events : List TaskEvent) (request : SystemOneRequest F)
      → All EventServes events
      → All (All Serves) (had fl reader writer cfg free events request)
  had-Serves free events request serves =
      All-scripts (run_of fl reader writer cfg free events request).tasks (
        run_tasks-RepliesServe fl reader writer cfg request.state events _ serves
          (begin-RepliesServe fl reader writer cfg request.state (values request.questions)))

  -- If `evaluate` ends, in whatever order its tasks run and however the backend replies, each
  -- question has an answer, each answer fits its question, or it raises a `ServiceError`.
  pub evaluate_tasks-Evaluated :
      FloatLaws fl
      → SumsAreFinite fl reader
      → (free : ℕ) (events : List TaskEvent) (request : SystemOneRequest F)
        (r : Result (SystemOneResponse F))
      → All EventServes events
      → All (λ x. HasCriteria fl reader x.1) request.questions
      → evaluate_tasks fl reader writer cfg request.state free events request ≡ some r
      → Evaluated fl reader writer cfg request.state request r
  evaluate_tasks-Evaluated laws sums free events request (ok response) serves has h =
      in_order-Evaluated fl reader writer cfg request.state laws sums request _ response has
        (had-Serves free events request serves) (length-had free events request)
        (evaluate_tasks-in_order fl reader writer cfg free events request response h)
  evaluate_tasks-Evaluated laws sums free events request (err x) serves has h =
      elim (evaluate_tasks_raises fl reader writer cfg free events request x h) [
        | inl unknown ↦ check_model-OnlyService cfg request.model x unknown
        | inr asked ↦
            Any-OnlyService fl reader writer cfg request.state laws sums request.questions _ x has
              (had-Serves free events request serves) asked
      ]
