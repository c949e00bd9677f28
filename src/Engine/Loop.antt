-- ===== src/Engine/Loop.antt =====
-- The loop `while pending` of `evaluate`: its steps, and the rule for its invariants.
use vllm_verifier.Base.{
  ℕ, zero, suc, ◌≡◌, ◌∙◌, sym, subst, refl, List, [], ◌∷◌, some, none, arith, Text,
}
use vllm_verifier.Errors.{Exception, Result, ok, err}
use vllm_verifier.Engine.{WorkItem, DecisionEngine, Progress}
use vllm_verifier.Engine.Evaluate.{round, drain}

module _ (e : DecisionEngine) (states : List Text) where
  open e use {floats, runtime}
  open floats use {F}
  open runtime use {State}

  pub drain_end :
      (fuel : ℕ) (s : State) (p : Progress F)
      → p.pending ≡ []
      → drain e fuel states s p ≡ some (ok p, s)
  unfolding drain
  drain_end zero s p h = ground arith
  drain_end (suc fuel) s p h = ground arith

  pub drain_no_fuel :
      (s : State) (p : Progress F) (j : WorkItem F) (js : List (WorkItem F))
      → p.pending ≡ j ∷ js
      → drain e 0 states s p ≡ none
  unfolding drain
  drain_no_fuel s p j js h = rw (h, drain)

  pub drain_next :
      (fuel : ℕ) (s : State) (p : Progress F) (j : WorkItem F) (js : List (WorkItem F))
      (q : Progress F)
      → p.pending ≡ j ∷ js
      → (round e states s p).0 ≡ ok q
      → drain e (suc fuel) states s p ≡ drain e fuel states (round e states s p).1 q
  unfolding drain
  drain_next fuel s p j js q h r = ground arith

  pub drain_raise :
      (fuel : ℕ) (s : State) (p : Progress F) (j : WorkItem F) (js : List (WorkItem F))
      (x : Exception)
      → p.pending ≡ j ∷ js
      → (round e states s p).0 ≡ err x
      → drain e (suc fuel) states s p ≡ some (err x, (round e states s p).1)
  unfolding drain
  drain_raise fuel s p j js x h r = ground arith

  -- What each round keeps holds when the loop ends, and then nothing is pending.
  module _ {κ} (P : Progress F → Type κ)
      (keep : (s : State) (p : Progress F) (j : WorkItem F) (js : List (WorkItem F))
          (q : Progress F)
        → P p
        → p.pending ≡ j ∷ js
        → (round e states s p).0 ≡ ok q
        → P q) where
    drain_inv_at :
        (fuel : ℕ) (s : State) (p : Progress F) (l : List (WorkItem F)) (r : Result (Progress F))
        {q : Progress F} {s' : State}
        → p.pending ≡ l
        → (round e states s p).0 ≡ r
        → P p
        → drain e fuel states s p ≡ some (ok q, s')
        → P q × (q.pending ≡ [])
    drain_inv_at fuel s p [] r {q} h ran inv eq =
        let same : p ≡ q = cc (eq, drain_end fuel s p h) in
        (subst P same inv, subst (λ (x : Progress F). x.pending ≡ []) same h)
    drain_inv_at zero s p (j ∷ js) r h ran inv eq = cc (eq, drain_no_fuel s p j js h)
    drain_inv_at (suc fuel) s p (j ∷ js) (ok q) h ran inv eq =
        let s'' = (round e states s p).1 in
        drain_inv_at fuel s'' q q.pending (round e states s'' q).0 refl refl
          (keep s p j js q inv h ran) (sym (drain_next fuel s p j js q h ran) ∙ eq)
    drain_inv_at (suc fuel) s p (j ∷ js) (err x) h ran inv eq =
        cc (eq, drain_raise fuel s p j js x h ran)

    pub drain_inv :
        (fuel : ℕ) (s : State) (p : Progress F) {q : Progress F} {s' : State}
        → P p
        → drain e fuel states s p ≡ some (ok q, s')
        → P q × (q.pending ≡ [])
    drain_inv fuel s p = drain_inv_at fuel s p p.pending (round e states s p).0 refl refl
