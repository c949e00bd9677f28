-- ===== src/Decision/Queue.antt =====
-- decision/service.py: `DirectDecisionService`, the bounded queue in front of one worker. Tasks run
-- interleaved on one event loop, so the service is a state that events change; between two `await`s
-- nothing else runs. The loading of the runtime and the executor are left out: the service starts
-- with a runtime and a live worker.
pub mod Futures
pub mod Invariant
pub mod Accounting
use vllm_verifier.Base.{
  ℕ, suc, ◌+◌, ◌-◌, String, Bool, true, false, ◌&&◌, ◌||◌, not, Option, none, some, List, [], ◌∷◌,
  ◌++◌, ◌⊎◌, inl, inr, length, take, drop, elem, ltb, leb, ◌==◌, if◌then◌else◌,
}
use vllm_verifier.Errors.{ServiceError, Result, ok, err, service, ◌>>=◌, ◌>>◌, raise_if}
use vllm_verifier.Models.{SystemOneRequest, SystemOneResponse}

-- `decision_batch_requests` and `max_requests` of the settings
pub record QueueSettings : Type 0 where
  pub max_requests : ℕ
  pub batch_requests : ℕ

module _ (F : Type 0) where
  -- `Job`; `id` names its future.
  pub record Job : Type 0 where
    pub id : ℕ
    pub request : SystemOneRequest F

  -- A future that is done: a result, an exception, or cancelled by its client.
  pub data Outcome : Type 0 where
    answered : SystemOneResponse F → Outcome
    failed : ServiceError → Outcome
    cancelled : Outcome

  -- `queue`, the local `jobs` of the worker, its `live` jobs while the executor runs, the futures that
  -- are done, and `closed`. `next` numbers the futures.
  pub record Scheduler : Type 0 where
    pub queue : List Job
    pub jobs : List Job
    pub live : Option (List Job)
    pub done : List (ℕ × Outcome)
    pub closed : Bool
    pub next : ℕ

  pub data Event : Type 0 where
    -- `evaluate`, up to the `await` of its future
    submit : SystemOneRequest F → Event
    -- `jobs = [await self.queue.get()]`
    get_first : Event
    -- what follows the sleep, up to the call of the executor
    gather : Event
    -- the executor returned
    returned : List (SystemOneResponse F ⊎ ServiceError) → Event
    -- the executor raised
    raised : Event
    -- the client of a future gave up
    cancel : ℕ → Event
    -- `close`, up to the end of the cancelled worker
    close : Event

-- The models that `evaluate` knows.
abbrev pub known_model : String → Bool
known_model m = elem m (
    "llm-semantic-router/Decision-1.0-Kai-0.6B" ∷ "Decision-1.0-Kai-0.6B" ∷ "jev-latest"
    ∷ "diffusion-jev" ∷ [])

module _ {F : Type 0} where
  -- `job.future.done()`
  abbrev pub is_done : ℕ → List (ℕ × Outcome F) → Bool
  is_done id [] = false
  is_done id ((j, o) ∷ done) = j == id || is_done id done

  -- `if not job.future.done(): job.future.set_...`
  unfoldable pub resolve : ℕ → Outcome F → List (ℕ × Outcome F) → List (ℕ × Outcome F)
  resolve id o done = if is_done id done then done else (id, o) ∷ done

  -- The same outcome for every job.
  unfoldable pub fail_all : List (Job F) → Outcome F → List (ℕ × Outcome F) → List (ℕ × Outcome F)
  fail_all [] o done = done
  fail_all (j ∷ jobs) o done = fail_all jobs o (resolve j.id o done)

  abbrev pub outcome_of : SystemOneResponse F ⊎ ServiceError → Outcome F
  outcome_of (inl response) = answered response
  outcome_of (inr error) = failed error

  -- `for job, result in zip(live, results, strict=True)`
  unfoldable pub set_results :
      List (Job F)
      → List (SystemOneResponse F ⊎ ServiceError)
      → List (ℕ × Outcome F)
      → List (ℕ × Outcome F)
  set_results [] results done = done
  set_results (j ∷ jobs) [] done = done
  set_results (j ∷ jobs) (r ∷ results) done =
      set_results jobs results (resolve j.id (outcome_of r) done)

  -- `[job for job in jobs if not job.future.done()]`
  unfoldable pub live_of : List (Job F) → List (ℕ × Outcome F) → List (Job F)
  live_of [] done = []
  live_of (j ∷ jobs) done =
      let rest = live_of jobs done in if is_done j.id done then rest else j ∷ rest

  abbrev pub engine_error : Outcome F
  engine_error =
      failed (record { status = 502; code = "engine_error"; message = "Candidate scoring failed" })

  abbrev pub stopped : Outcome F
  stopped =
      failed
        (record { status = 503; code = "engine_unavailable"; message = "Decision engine stopped" })

  -- The worker has finished its batch.
  abbrev pub next_batch : List (ℕ × Outcome F) → Scheduler F → Scheduler F
  next_batch done s = record s { jobs = []; live = none; done = done }

  module _ (cfg : QueueSettings) where
    -- The tests of `evaluate`.
    unfoldable pub admission : SystemOneRequest F → Scheduler F → Result (Unit {0})
    admission request s = do
      raise_if (not (known_model request.model))
          (service 422 "unknown_model" "Use jev-latest or the served model")
      raise_if s.closed (service 503 "engine_unavailable" "Decision engine is not ready")
      raise_if (leb cfg.max_requests (length s.queue))
          (service 529 "overloaded" "Decision queue is full")

    abbrev pub push : SystemOneRequest F → Scheduler F → Scheduler F
    push request s = record s {
      queue = s.queue ++ record { id = s.next; request = request } ∷ [];
      next = suc s.next;
    }

    -- What `evaluate` does with the outcome of its tests: the number of the new future, or the
    -- exception.
    unfoldable pub enqueue_if :
        Result (Unit {0}) → SystemOneRequest F → Scheduler F → Result ℕ × Scheduler F
    enqueue_if (err x) request s = (err x, s)
    enqueue_if (ok u) request s = (ok s.next, push request s)

    unfoldable pub enqueue : SystemOneRequest F → Scheduler F → Result ℕ × Scheduler F
    enqueue request s = enqueue_if (admission request s) request s

    -- The worker takes a job if it waits for one.
    unfoldable pub begin : List (Job F) → List (Job F) → Scheduler F → Scheduler F
    begin (j ∷ queue) [] s = record s { queue = queue; jobs = j ∷ []; live = none }
    begin _ _ s = s

    -- `while len(jobs) < self.settings.decision_batch_requests`, then the choice of `live`.
    unfoldable pub fill : Scheduler F → Scheduler F
    fill s =
        let room = cfg.batch_requests - length s.jobs in
        let jobs = s.jobs ++ take room s.queue in
        record s { queue = drop room s.queue; jobs = jobs; live = some (live_of jobs s.done) }

    -- With no live job the worker goes on to its next batch.
    unfoldable pub skip_dead : Option (List (Job F)) → Scheduler F → Scheduler F
    skip_dead (some []) s = next_batch s.done s
    skip_dead _ s = s

    -- Behind the sleep, the worker fills its batch and calls the executor with the live jobs.
    unfoldable pub gather_jobs : List (Job F) → Option (List (Job F)) → Scheduler F → Scheduler F
    gather_jobs (j ∷ jobs) none s = skip_dead (fill s).live (fill s)
    gather_jobs _ _ s = s

    -- The futures behind the call of the executor.
    abbrev pub settled_by :
        List (Job F)
        → List (SystemOneResponse F ⊎ ServiceError)
        → List (ℕ × Outcome F)
        → List (ℕ × Outcome F)
    settled_by live results done =
        if length results == length live
        then set_results live results done
        else fail_all live engine_error done

    unfoldable pub finish_batch :
        Option (List (Job F))
        → List (SystemOneResponse F ⊎ ServiceError)
        → Scheduler F
        → Scheduler F
    finish_batch none results s = s
    finish_batch (some live) results s = next_batch (settled_by live results s.done) s

    unfoldable pub fail_batch : Option (List (Job F)) → Scheduler F → Scheduler F
    fail_batch none s = s
    fail_batch (some live) s = next_batch (fail_all live engine_error s.done) s

    -- `close` of an open service, with the `finally` block of the cancelled worker.
    abbrev pub drop_jobs : Scheduler F → Scheduler F
    drop_jobs s = record s {
      queue = [];
      jobs = [];
      live = none;
      done = fail_all (s.jobs ++ s.queue) stopped s.done;
      closed = true;
    }

    -- `close`: the test is that of `self.closed`.
    unfoldable pub shut_down : Bool → Scheduler F → Scheduler F
    shut_down true s = s
    shut_down false s = drop_jobs s

    unfoldable pub handle : Event F → Scheduler F → Scheduler F
    handle (submit request) s = (enqueue request s).1
    handle get_first s = begin s.queue s.jobs s
    handle gather s = gather_jobs s.jobs s.live s
    handle (returned results) s = finish_batch s.live results s
    handle raised s = fail_batch s.live s
    handle (cancel id) s =
        if ltb id s.next then record s { done = resolve id cancelled s.done } else s
    handle close s = shut_down s.closed s

    unfoldable pub handle_all : List (Event F) → Scheduler F → Scheduler F
    handle_all [] s = s
    handle_all (event ∷ events) s = handle_all events (handle event s)

  -- `__init__`
  abbrev pub opened : Scheduler F
  opened = record { queue = []; jobs = []; live = none; done = []; closed = false; next = 0 }
