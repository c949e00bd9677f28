-- ===== src/Engine/Isolation.antt =====
-- Where the answers of a run come from.
use vllm_verifier.Base.{
  ℕ, zero, suc, ◌+◌, ◌≡◌, subst, refl, sym, List, [], ◌∷◌, ◌++◌, some, none, String, arith, Text,
  length, modify, insert, get_elem?, All, All-append, All-append_left, All-append_right, All-insert,
  not, str_eq,
}
use vllm_verifier.Errors.{ok, >>=-eq-ok, raise_if, ok-injective}
use vllm_verifier.Models.{Question, Answer, Completion, SystemOneRequest}
use vllm_verifier.Prompts.{content_json}
use vllm_verifier.Verification.{verify}
use vllm_verifier.Engine.{WorkItem, DecisionEngine, Progress, take_batch}
use vllm_verifier.Engine.Batches.{take_batch-append}
use vllm_verifier.Engine.Steps.{new_job-IsJob, Absorbed, answered, repaired, absorb-Absorbed}
use vllm_verifier.Engine.Accounting.{settle-eq-ok}
use vllm_verifier.Engine.Evaluate.{
  new_job, request_jobs, all_jobs, judge, absorb, absorb_all, count_batch, round,
}

module _ (e : DecisionEngine) (requests : List (SystemOneRequest e.floats.F)) where
  open e use {floats, reader, config, writer}
  open floats use {F}

  -- Request `i` asks `q` under the key `k`.
  pub record Asked (i : ℕ) (k : String) (q : Question F) : Type 0 where
    pub request : SystemOneRequest F
    pub place : ℕ
    pub of_request : get_elem? requests i ≡ some request
    pub of_question : get_elem? request.questions place ≡ some (k, q)

  -- `a` is the verified answer of some completion to the question that request `i` asks under `k`.
  pub record Verified (i : ℕ) (k : String) (a : Answer F) : Type 0 where
    pub question : Question F
    pub asked : Asked i k question
    pub text : Text
    pub verified : verify floats reader text question ≡ ok a

  abbrev pub IsAsked : WorkItem F → Type 0
  IsAsked j = Asked j.request_index j.question_id j.question

  abbrev pub AnswersFrom : ℕ → List (List (String × Answer F)) → Type 0
  AnswersFrom i [] = Unit
  AnswersFrom i (d ∷ answers) =
      All (λ (x : String × Answer F). Verified i x.0 x.1) d × AnswersFrom (suc i) answers

  AnswersFrom-insert :
      (b i j : ℕ) (k : String) (a : Answer F) (answers : List (List (String × Answer F)))
      → j ≡ b + i
      → AnswersFrom b answers
      → Verified j k a
      → AnswersFrom b (modify (insert k a) i answers)
  AnswersFrom-insert b i j k a [] at h v = tt
  AnswersFrom-insert b zero j k a (d ∷ answers) at h v =
      let here : j ≡ b = omega arith in
      (
        All-insert (λ (x : String × Answer F). Verified b x.0 x.1) k a d h.0
            (subst (λ n. Verified n k a) here v),
        h.1,
      )
  AnswersFrom-insert b (suc i) j k a (d ∷ answers) at h v =
      (h.0, AnswersFrom-insert (suc b) i j k a answers (omega arith) h.1 v)

  judge-verify :
      (job : WorkItem F) (c : Completion) {a : Answer F}
      → judge e job c ≡ ok a
      → verify floats reader c.text job.question ≡ ok a
  unfolding judge
  judge-verify job c h =
      let (u, stopped, rest) = >>=-eq-ok (raise_if (not (str_eq c.finish_reason "stop")) _) _ h in
      rest

  -- The state of a run in which every pending job is asked and every answer verified.
  pub record IsIsolated (p : Progress F) : Type 0 where
    pub pending : All IsAsked p.pending
    pub answers : AnswersFrom 0 p.answers

  Absorbed-IsIsolated :
      {job : WorkItem F} {c : Completion} {p q : Progress F}
      → Absorbed e job c p q
      → IsAsked job
      → IsIsolated p
      → IsIsolated q
  Absorbed-IsIsolated {job} {c} {p} (answered a j eq) asked h = subst IsIsolated (sym eq) (record {
    pending = h.pending;
    answers =
        AnswersFrom-insert 0 job.request_index job.request_index job.question_id a p.answers
          (omega arith) h.answers
          (record {
            question = job.question;
            asked = asked;
            text = c.text;
            verified = judge-verify job c j;
          });
  })
  Absorbed-IsIsolated {job} {c} {p} (repaired m next j low made eq) asked h =
      let again : IsAsked next = rw (made.request_index, made.question_id, made.question) asked in
      subst IsIsolated (sym eq) (record {
        pending = All-append IsAsked p.pending (next ∷ []) h.pending (again, tt);
        answers = h.answers;
      })

  absorb_all-IsIsolated :
      (states : List Text) (jobs : List (WorkItem F)) (cs : List Completion) (p : Progress F)
      {q : Progress F}
      → All IsAsked jobs
      → IsIsolated p
      → absorb_all e states jobs cs p ≡ ok q
      → IsIsolated q
  unfolding absorb_all
  absorb_all-IsIsolated states [] cs p asked h eq = subst IsIsolated (ok-injective eq) h
  absorb_all-IsIsolated states (j ∷ jobs) [] p asked h eq = subst IsIsolated (ok-injective eq) h
  absorb_all-IsIsolated states (j ∷ jobs) (c ∷ cs) p asked h eq =
      let (next, one, rest) = >>=-eq-ok (absorb e states j c p) _ eq in
      absorb_all-IsIsolated states jobs cs next asked.1
        (Absorbed-IsIsolated (absorb-Absorbed e states j c p one) asked.0 h) rest

  pub round-IsIsolated :
      (states : List Text) (s : e.runtime.State) (p : Progress F) (j : WorkItem F)
      (js : List (WorkItem F)) (q : Progress F)
      → IsIsolated p
      → p.pending ≡ j ∷ js
      → (round e states s p).0 ≡ ok q
      → IsIsolated q
  unfolding round
  round-IsIsolated states s p j js q h eq ran =
      let (batch, rest) = take_batch config 0 0 p.pending in
      let whole : All IsAsked (batch ++ rest) =
        rw (take_batch-append config 0 0 p.pending) h.pending in
      let cut : Progress F = record p { pending = rest } in
      let (cs, same, did) = settle-eq-ok e states batch _ cut ran in
      absorb_all-IsIsolated states batch cs (count_batch e (length batch) cut)
        (All-append_left IsAsked batch rest whole)
        (record { pending = All-append_right IsAsked batch rest whole; answers = h.answers }) did

  -- The jobs that `evaluate` makes at first.
  request_jobs-IsAsked :
      (i : ℕ) (state : Text) (questions : List (String × Question F)) {queue : List (WorkItem F)}
      → ((n : ℕ) (k : String) (q : Question F) → get_elem? questions n ≡ some (k, q) → Asked i k q)
      → request_jobs e i state questions ≡ ok queue
      → All IsAsked queue
  request_jobs-IsAsked i state [] asked h = subst (All IsAsked) (ok-injective h) tt
  request_jobs-IsAsked i state ((k, q) ∷ questions) asked h =
      let (j, made, rest) = >>=-eq-ok (new_job e i k state q 0 none) _ h in
      let (js, more, last) = >>=-eq-ok (request_jobs e i state questions) _ rest in
      let job = new_job-IsJob e i k state q 0 none made in
      subst (All IsAsked) (ok-injective last) (
        rw (job.request_index, job.question_id, job.question) (asked 0 k q refl),
        request_jobs-IsAsked i state questions (λ n. asked (suc n)) more,
      )

  pub all_jobs-IsAsked :
      (i : ℕ) (some_requests : List (SystemOneRequest F)) {queues : List (List (WorkItem F))}
      → ((n : ℕ) (r : SystemOneRequest F)
          → get_elem? some_requests n ≡ some r
          → get_elem? requests (n + i) ≡ some r)
      → all_jobs e i some_requests ≡ ok queues
      → All (All IsAsked) queues
  unfolding all_jobs
  all_jobs-IsAsked i [] asked h = subst (All (All IsAsked)) (ok-injective h) tt
  all_jobs-IsAsked i (r ∷ rs) asked h =
      let state = writer.dumps (content_json r.state) in
      let (q, made, rest) = >>=-eq-ok (request_jobs e i state r.questions) _ h in
      let (qs, more, last) = >>=-eq-ok (all_jobs e (suc i) rs) _ rest in
      let here : get_elem? requests i ≡ some r =
        let at : 0 + i ≡ i = omega arith in
        subst (λ n. get_elem? requests n ≡ some r) at (asked 0 r refl) in
      subst (All (All IsAsked)) (ok-injective last) (
        request_jobs-IsAsked i state r.questions
            (λ n k q at. record { request = r; place = n; of_request = here; of_question = at })
            made,
        all_jobs-IsAsked (suc i) rs
            (λ n x at.
              let shifted : suc n + i ≡ n + suc i = omega arith in
              subst (λ m. get_elem? requests m ≡ some x) shifted (asked (suc n) x at))
            more,
      )
