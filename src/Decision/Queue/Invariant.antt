-- ===== src/Decision/Queue/Invariant.antt =====
-- The invariant of the queue, kept by each step of `evaluate`, the worker and `close`.
use vllm_verifier.Base.{
  ℕ, suc, ◌-◌, ◌≡◌, ◌≤◌, ◌<◌, refl, subst, ap, ap₂, ◌∙◌, ◌⊎◌, inl, inr, Bool, true, false, ◌||◌,
  not, Option, none, some, List, [], ◌∷◌, ◌++◌, arith, length, length-append, take, drop, leb, ◌==◌,
  Bool-cases, ==_iff,
}
use vllm_verifier.Errors.{ServiceError, Result, ok, err, >>=-eq-ok, raise_if, raise_if-eq-ok}
use vllm_verifier.Models.{SystemOneRequest, SystemOneResponse}
use vllm_verifier.Decision.Queue.{
  QueueSettings, Job, Outcome, Scheduler, is_done, fail_all, engine_error, stopped, known_model,
  next_batch, admission, push, enqueue_if, begin, fill, skip_dead, gather_jobs, settled_by,
  finish_batch, fail_batch, shut_down,
}
use vllm_verifier.Decision.Queue.Futures.{
  ltb_room, or_left, or_right, or_cases, fill_moves, close_moves, first_moves, length-take-le,
  length-drop-le, drop-nil, take-nil, has_job, has_job-append, has_job-take-drop, is_done-fail_all,
  is_done-set_results, live_of-done,
}

module _ {F : Type 0} where
  -- The job waits, is with the worker, or its future is done.
  abbrev pub accounted : ℕ → Scheduler F → Bool
  accounted id s = has_job id s.queue || (has_job id s.jobs || is_done id s.done)

  -- The live jobs are the jobs of the worker that were not done.
  abbrev pub CoversJobs : Scheduler F → Option (List (Job F)) → Type 0
  CoversJobs s none = Unit
  CoversJobs s (some live) =
      (id : ℕ) → has_job id s.jobs ≡ true → (has_job id live || is_done id s.done) ≡ true

  module _ (cfg : QueueSettings) where
    -- Every future that was handed out is accounted for, and the queue and the batch are within
    -- their limits.
    pub record IsAccounted (s : Scheduler F) : Type 0 where
      pub all_jobs : (id : ℕ) → id < s.next → accounted id s ≡ true
      pub covers : CoversJobs s s.live
      pub queue_le : length s.queue ≤ cfg.max_requests
      pub jobs_le : length s.jobs ≤ cfg.batch_requests
      pub closed_empty : s.closed ≡ true → (s.queue ≡ []) × (s.jobs ≡ [])

    push-accounted :
        (request : SystemOneRequest F) (s : Scheduler F) (id : ℕ)
        → ((i : ℕ) → i < s.next → accounted i s ≡ true)
        → id < suc s.next
        → accounted id (push cfg request s) ≡ true
    push-accounted request s id all lt = elim (Bool-cases (s.next == id)) [
      | inl new ↦
          rw (has_job-append id s.queue (record { id = s.next; request = request } ∷ []))
            (or_left _ _ (or_right (has_job id s.queue) _ (or_left (s.next == id) false new)))
      | inr old ↦
          rw (has_job-append id s.queue (record { id = s.next; request = request } ∷ []))
            (elim (or_cases (has_job id s.queue) _ (all id (ground arith))) [
              | inl waits ↦ or_left _ _ (or_left (has_job id s.queue) _ waits)
              | inr rest ↦ or_right _ (has_job id s.jobs || is_done id s.done) rest
            ])
    ]

    pub enqueue_if-IsAccounted :
        (r : Result (Unit {0})) (request : SystemOneRequest F) (s : Scheduler F)
        → admission cfg request s ≡ r
        → IsAccounted s
        → IsAccounted (enqueue_if cfg r request s).1
    unfolding enqueue_if admission
    enqueue_if-IsAccounted (err x) request s e h = h
    enqueue_if-IsAccounted (ok u) request s e h =
        let (v, _, e₁) = >>=-eq-ok (raise_if (not (known_model request.model)) _) _ e in
        let (w, open_now, e₂) = >>=-eq-ok (raise_if s.closed _) _ e₁ in
        let room = raise_if-eq-ok (leb cfg.max_requests (length s.queue)) _ e₂ in
        let is_open = raise_if-eq-ok s.closed _ open_now in
        record {
          all_jobs = λ id lt. push-accounted request s id h.all_jobs lt;
          covers = h.covers;
          queue_le = omega (
            arith,
            length-append s.queue (record { id = s.next; request = request } ∷ []),
            ltb_room room,
          );
          jobs_le = h.jobs_le;
          closed_empty = λ shut. absurd (cc (shut, is_open));
        }

    -- The worker's batch ends with every future of its jobs done.
    pub next_batch-IsAccounted :
        (done : List (ℕ × Outcome F)) (s : Scheduler F)
        → ((id : ℕ) → (has_job id s.jobs || is_done id s.done) ≡ true → is_done id done ≡ true)
        → IsAccounted s
        → IsAccounted (next_batch done s)
    next_batch-IsAccounted done s all_done h = record {
      all_jobs = λ id lt. elim (or_cases (has_job id s.queue) _ (h.all_jobs id lt)) [
        | inl waits ↦ or_left (has_job id s.queue) _ waits
        | inr rest ↦ or_right (has_job id s.queue) _ (all_done id rest)
      ];
      covers = tt;
      queue_le = h.queue_le;
      jobs_le = omega arith;
      closed_empty = λ shut. ((h.closed_empty shut).0, refl);
    }

    pub begin-IsAccounted :
        (queue jobs : List (Job F)) (s : Scheduler F)
        → 1 ≤ cfg.batch_requests
        → s.queue ≡ queue
        → s.jobs ≡ jobs
        → IsAccounted s
        → IsAccounted (begin cfg queue jobs s)
    unfolding begin
    begin-IsAccounted [] jobs s room q e h = h
    begin-IsAccounted (j ∷ queue) (i ∷ jobs) s room q e h = h
    begin-IsAccounted (j ∷ queue) [] s room q e h = record {
      all_jobs = λ id lt. first_moves (j.id == id) (has_job id queue) (is_done id s.done) (
          subst (λ l. (has_job id (j ∷ queue) || (has_job id l || is_done id s.done)) ≡ true) e
            (subst (λ l. (has_job id l || (has_job id s.jobs || is_done id s.done)) ≡ true) q
              (h.all_jobs id lt)));
      covers = tt;
      queue_le = omega (arith, h.queue_le, ap (length {0}) q);
      jobs_le = omega arith;
      closed_empty = λ shut. absurd (cc ((h.closed_empty shut).0, q));
    }

    pub fill-IsAccounted : (s : Scheduler F) → IsAccounted s → IsAccounted (fill cfg s)
    unfolding fill
    fill-IsAccounted s h =
        let room = cfg.batch_requests - length s.jobs in
        let more = take room s.queue in
        record {
          all_jobs = λ id lt. rw (has_job-append id s.jobs more) (
              fill_moves (has_job id more) (has_job id (drop room s.queue)) (has_job id s.jobs)
                (is_done id s.done)
                (subst (λ b. (b || (has_job id s.jobs || is_done id s.done)) ≡ true)
                  (has_job-take-drop id room s.queue) (h.all_jobs id lt)));
          covers = λ id has. live_of-done id (s.jobs ++ more) s.done has;
          queue_le = omega (arith, h.queue_le, length-drop-le room s.queue);
          jobs_le =
              omega (arith, h.jobs_le, length-append s.jobs more, length-take-le room s.queue);
          closed_empty = λ shut.
              let (no_queue, no_jobs) = h.closed_empty shut in
              (
                ap (drop room) no_queue ∙ drop-nil room,
                ap₂ (λ a b. a ++ take room b) no_jobs no_queue ∙ take-nil room,
              );
        }

    pub skip_dead-IsAccounted :
        (l : Option (List (Job F))) (s : Scheduler F)
        → s.live ≡ l
        → IsAccounted s
        → IsAccounted (skip_dead cfg l s)
    unfolding skip_dead
    skip_dead-IsAccounted none s e h = h
    skip_dead-IsAccounted (some (j ∷ live)) s e h = h
    skip_dead-IsAccounted (some []) s e h =
        let covers : CoversJobs s (some []) = subst (CoversJobs s) e h.covers in
        next_batch-IsAccounted s.done s
          (λ id has. elim (or_cases (has_job id s.jobs) _ has) [
            | inl busy ↦ covers id busy
            | inr done ↦ done
          ])
          h

    pub gather_jobs-IsAccounted :
        (jobs : List (Job F)) (l : Option (List (Job F))) (s : Scheduler F)
        → IsAccounted s
        → IsAccounted (gather_jobs cfg jobs l s)
    unfolding gather_jobs
    gather_jobs-IsAccounted [] l s h = h
    gather_jobs-IsAccounted (j ∷ jobs) (some live) s h = h
    gather_jobs-IsAccounted (j ∷ jobs) none s h =
        skip_dead-IsAccounted (fill cfg s).live (fill cfg s) refl (fill-IsAccounted s h)

    -- A way to resolve the live jobs resolves all jobs of the worker.
    live_resolved :
        (s : Scheduler F) (live : List (Job F)) (done : List (ℕ × Outcome F))
        → CoversJobs s (some live)
        → ((id : ℕ) → (has_job id live || is_done id s.done) ≡ true → is_done id done ≡ true)
        → (id : ℕ) → (has_job id s.jobs || is_done id s.done) ≡ true
        → is_done id done ≡ true
    live_resolved s live done covers resolves id has = elim (or_cases (has_job id s.jobs) _ has) [
      | inl busy ↦ resolves id (covers id busy)
      | inr old ↦ resolves id (or_right (has_job id live) _ old)
    ]

    pub finish_batch-IsAccounted :
        (l : Option (List (Job F))) (results : List (SystemOneResponse F ⊎ ServiceError))
        (s : Scheduler F)
        → s.live ≡ l
        → IsAccounted s
        → IsAccounted (finish_batch cfg l results s)
    unfolding finish_batch
    finish_batch-IsAccounted none results s e h = h
    finish_batch-IsAccounted (some live) results s e h =
        next_batch-IsAccounted (settled_by cfg live results s.done) s
          (live_resolved s live (settled_by cfg live results s.done)
            (subst (CoversJobs s) e h.covers)
            λ id has. elim (Bool-cases (length results == length live)) [
              | inl same ↦
                  rw same (is_done-set_results id live results s.done ((==_iff _ _).0 same) has)
              | inr other ↦ rw other (is_done-fail_all id live engine_error s.done has)
            ])
          h

    pub fail_batch-IsAccounted :
        (l : Option (List (Job F))) (s : Scheduler F)
        → s.live ≡ l
        → IsAccounted s
        → IsAccounted (fail_batch cfg l s)
    unfolding fail_batch
    fail_batch-IsAccounted none s e h = h
    fail_batch-IsAccounted (some live) s e h =
        next_batch-IsAccounted (fail_all live engine_error s.done) s
          (live_resolved s live (fail_all live engine_error s.done)
            (subst (CoversJobs s) e h.covers)
            λ id has. is_done-fail_all id live engine_error s.done has)
          h

    CoversJobs-mono :
        (s : Scheduler F) (l : Option (List (Job F))) (done : List (ℕ × Outcome F))
        → ((id : ℕ) → is_done id s.done ≡ true → is_done id done ≡ true)
        → CoversJobs s l
        → CoversJobs (record s { done = done }) l
    CoversJobs-mono s none done mono h = tt
    CoversJobs-mono s (some live) done mono h = λ id has.
        elim (or_cases (has_job id live) _ (h id has)) [
          | inl lives ↦ or_left (has_job id live) _ lives
          | inr old ↦ or_right (has_job id live) _ (mono id old)
        ]

    pub more_done-IsAccounted :
        (s : Scheduler F) (done : List (ℕ × Outcome F))
        → ((id : ℕ) → is_done id s.done ≡ true → is_done id done ≡ true)
        → IsAccounted s
        → IsAccounted (record s { done = done })
    more_done-IsAccounted s done mono h = record {
      all_jobs = λ id lt. elim (or_cases (has_job id s.queue) _ (h.all_jobs id lt)) [
        | inl waits ↦ or_left (has_job id s.queue) _ waits
        | inr rest ↦ or_right (has_job id s.queue) _ (elim (or_cases (has_job id s.jobs) _ rest) [
          | inl busy ↦ or_left (has_job id s.jobs) _ busy
          | inr old ↦ or_right (has_job id s.jobs) _ (mono id old)
        ])
      ];
      covers = CoversJobs-mono s s.live done mono h.covers;
      queue_le = h.queue_le;
      jobs_le = h.jobs_le;
      closed_empty = h.closed_empty;
    }

    pub shut_down-IsAccounted :
        (test : Bool) (s : Scheduler F) → IsAccounted s → IsAccounted (shut_down cfg test s)
    unfolding shut_down
    shut_down-IsAccounted true s h = h
    shut_down-IsAccounted false s h = record {
      all_jobs = λ id lt. is_done-fail_all id (s.jobs ++ s.queue) stopped s.done (
          rw (has_job-append id s.jobs s.queue) (
            close_moves (has_job id s.queue) (has_job id s.jobs) (is_done id s.done)
              (h.all_jobs id lt)));
      covers = tt;
      queue_le = omega arith;
      jobs_le = omega arith;
      closed_empty = λ shut. (refl, refl);
    }
