-- ===== src/Decision/Queue/Accounting.antt =====
-- No admitted job is lost: it waits, is with the worker, or its future is done.
use vllm_verifier.Base.{
  ℕ, ◌≡◌, ◌≤◌, ◌<◌, refl, subst, inl, inr, true, ◌||◌, List, [], ◌∷◌, arith, ltb, ◌==◌, Bool-cases,
}
use vllm_verifier.Decision.Queue.{
  QueueSettings, cancelled, Scheduler, Event, submit, get_first, gather, returned, raised, cancel,
  close, is_done, resolve, admission, enqueue, opened, handle, handle_all,
}
use vllm_verifier.Decision.Queue.Futures.{or_right, has_job, is_done-resolve}
use vllm_verifier.Decision.Queue.Invariant.{
  IsAccounted, enqueue_if-IsAccounted, begin-IsAccounted, gather_jobs-IsAccounted,
  finish_batch-IsAccounted, fail_batch-IsAccounted, more_done-IsAccounted, shut_down-IsAccounted,
}

module _ {F : Type 0} where
  module _ (cfg : QueueSettings) where
    module _ (room : 1 ≤ cfg.batch_requests) where
      handle-IsAccounted :
          (event : Event F) (s : Scheduler F)
          → IsAccounted cfg s
          → IsAccounted cfg (handle cfg event s)
      unfolding handle enqueue
      handle-IsAccounted (submit request) s h =
          enqueue_if-IsAccounted cfg (admission cfg request s) request s refl h
      handle-IsAccounted get_first s h = begin-IsAccounted cfg s.queue s.jobs s room refl refl h
      handle-IsAccounted gather s h = gather_jobs-IsAccounted cfg s.jobs s.live s h
      handle-IsAccounted (returned results) s h =
          finish_batch-IsAccounted cfg s.live results s refl h
      handle-IsAccounted raised s h = fail_batch-IsAccounted cfg s.live s refl h
      handle-IsAccounted (cancel id) s h = elim (Bool-cases (ltb id s.next)) [
        | inl known ↦ rw known (
            more_done-IsAccounted cfg s (resolve id cancelled s.done)
              (λ j old. is_done-resolve j id cancelled s.done (or_right (id == j) _ old)) h)
        | inr unknown ↦ rw unknown h
      ]
      handle-IsAccounted close s h = shut_down-IsAccounted cfg s.closed s h

      -- Whatever events come in whatever order, no future that `evaluate` handed out is lost: its job
      -- is in the queue, or with the worker, or the future is done; and the queue and the worker's
      -- batch stay within their limits. A batch may hold a job.
      pub handle_all-IsAccounted :
          (events : List (Event F)) (s : Scheduler F)
          → IsAccounted cfg s
          → IsAccounted cfg (handle_all cfg events s)
      unfolding handle_all
      handle_all-IsAccounted [] s h = h
      handle_all-IsAccounted (event ∷ events) s h =
          handle_all-IsAccounted events (handle cfg event s) (handle-IsAccounted event s h)

    -- If a batch may hold a job, then after `close`, whatever events came in whatever order,
    -- every future that `evaluate` handed out is done.
    pub closed-all_done :
        (events : List (Event F)) (id : ℕ)
        → 1 ≤ cfg.batch_requests
        → (handle_all cfg events opened).closed ≡ true
        → id < (handle_all cfg events opened).next
        → is_done id (handle_all cfg events opened).done ≡ true
    closed-all_done events id room shut lt =
        let s = handle_all cfg events opened in
        let h = handle_all-IsAccounted room events opened start in
        let (no_queue, no_jobs) = h.closed_empty shut in
        subst (λ l. (has_job id l || is_done id s.done) ≡ true) no_jobs
          (subst (λ l. (has_job id l || (has_job id s.jobs || is_done id s.done)) ≡ true) no_queue
            (h.all_jobs id lt))
      where
        start : IsAccounted {F = F} cfg opened
        start = record {
          all_jobs = λ i bad. absurd (omega arith);
          covers = tt;
          queue_le = omega arith;
          jobs_le = omega arith;
          closed_empty = λ e. (refl, refl);
        }
