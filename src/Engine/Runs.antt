-- ===== src/Engine/Runs.antt =====
-- A run of `evaluate` that returns, taken apart.
use vllm_verifier.Base.{◌≡◌, ap, inl, inr, some, List, arith, Option-cases}
use vllm_verifier.Errors.{Result, ok, err, >>=-eq-ok, Result-cases, ok-injective}
use vllm_verifier.Models.{SystemOneRequest, SystemOneResponse}
use vllm_verifier.Engine.{DecisionEngine, DecisionRun, Progress}
use vllm_verifier.Engine.Evaluate.{
  prepare, states_of, enough, drain, responses_for, finish, evaluate,
}

module _ (e : DecisionEngine) where
  open e use {floats, runtime}
  open floats use {F}
  open runtime use {State}

  pub record Returned (s : State) (requests : List (SystemOneRequest F)) (run : DecisionRun F)
      (s' : State) : Type 0 where
    pub start : Progress F
    pub last : Progress F
    pub prepared : prepare e requests ≡ ok start
    pub drained : drain e (enough e requests) (states_of e requests) s start ≡ some (ok last, s')
    pub responded : responses_for e requests last.answers last.usage ≡ ok run.responses
    pub stats : run.stats ≡ last.stats

  pub evaluate-Returned :
      (s : State) (requests : List (SystemOneRequest F)) {run : DecisionRun F} {s' : State}
      → evaluate e s requests ≡ some (ok run, s')
      → Returned s requests run s'
  unfolding evaluate
  evaluate-Returned s requests {run} {s'} h = elim (Result-cases (prepare e requests)) [
    | inr (x, raised) ↦ absurd (ground (arith, raised))
    | inl (p, ready) ↦
        elim (Option-cases (drain e (enough e requests) (states_of e requests) s p)) [
          | inl out ↦ absurd (ground arith)
          | inr (outcome, went) ↦ finish_of p ready outcome went (ground arith)
        ]
  ]
    where
      finish_of :
          (p : Progress F)
          → prepare e requests ≡ ok p
          → (o : Result (Progress F) × State)
          → drain e (enough e requests) (states_of e requests) s p ≡ some o
          → finish e requests o ≡ (ok run, s')
          → Returned s requests run s'
      finish_of p ready (ok q, s'') went done =
          let (rs, responded, whole) =
            >>=-eq-ok (responses_for e requests q.answers q.usage) _ (ap (λ x. x.0) done) in
          let made : record { responses = rs; stats = q.stats } ≡ run = ok-injective whole in
          record {
            start = p;
            last = q;
            prepared = ready;
            drained = cc (went, ap (λ (x : Result (DecisionRun F) × State). x.1) done);
            responded = cc (responded, made);
            stats = cc (made);
          }
      finish_of p ready (err x, s'') went done = absurd (ground arith)

  pub evaluate_of :
      (s : State) (requests : List (SystemOneRequest F)) (p q : Progress F) (s' : State)
      (xs : List (SystemOneResponse F))
      → prepare e requests ≡ ok p
      → drain e (enough e requests) (states_of e requests) s p ≡ some (ok q, s')
      → responses_for e requests q.answers q.usage ≡ ok xs
      → evaluate e s requests ≡ some (ok (record { responses = xs; stats = q.stats }), s')
  unfolding evaluate
  evaluate_of s requests p q s' xs ready went responded =
      rw (ready, evaluate) (rw (went, evaluate) (rw (responded, evaluate)))
