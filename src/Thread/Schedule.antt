-- ===== src/Thread/Schedule.antt =====
-- The consistency of the ready queue with the task states, through the steps of `schedule`.
use seeking_os.Prelude.{
  ℕ, ◌≡◌, refl, subst, ◌∙◌, ◌≢◌, inl, inr, true, false, not, List, [], ◌∷◌, arith, ok, Bool-cases,
  if◌then◌else◌, ==-refl, assert_holds, ◌>>=◌,
}
use seeking_os.Thread.Queue.{
  elem_find, list_append, list_empty, Distinct, find-append, Distinct-append,
}
use seeking_os.Thread.{
  TaskStatus, Kernel, is_running, is_ready, is_asleep, set_task, set_status, thread_unblock,
  requeue, dispatch, schedule,
}

-- The ready queue holds exactly the tasks that are ready, each once, and the idle task never ends.
pub record IsQueued (k : Kernel) : Type 0 where
  pub queued : (t : ℕ) → elem_find k.ready_list t ≡ is_ready (k.task t).status
  pub distinct : Distinct k.ready_list
  pub idle_lives : (k.task k.idle_thread).status ≢ TaskStatus.over

abbrev pub OnlyRuns : Kernel → ℕ → Type 0
OnlyRuns k c = (t : ℕ) → is_running (k.task t).status ≡ true → t ≡ c

abbrev pub NoneRuns : Kernel → Type 0
NoneRuns k = (t : ℕ) → is_running (k.task t).status ≡ false

-- Between calls the current task runs, and no other does.
pub record IsConsistent (k : Kernel) : Type 0 where
  pub queues : IsQueued k
  pub runs : is_running (k.task k.current).status ≡ true
  pub only : OnlyRuns k k.current

-- The state that `thread_unblock` leaves.
abbrev pub unblocked : ℕ → Kernel → Kernel
unblocked t k = set_status (record k { ready_list = t ∷ k.ready_list }) t TaskStatus.ready

module _ (t : ℕ) (k : Kernel) (q : IsQueued k) (asleep : is_asleep (k.task t).status ≡ true) where
  not_ready : is_ready (k.task t).status ≡ false
  not_ready = ground arith

  pub thread_unblock-ok : thread_unblock t k ≡ ok (unblocked t k)
  unfolding thread_unblock
  thread_unblock-ok =
      let out : elem_find k.ready_list t ≡ false = ground (arith, not_ready, q.queued t) in
      rw (asleep, not_ready, out)

  pub unblocked-IsQueued : IsQueued (unblocked t k)
  unblocked-IsQueued = record {
    queued = λ u. ground (arith, q.queued u);
    distinct = (ground (arith, not_ready, q.queued t), q.distinct);
    idle_lives = ground arith;
  }

  pub unblocked-runs :
      (u : ℕ) → is_running ((unblocked t k).task u).status ≡ is_running (k.task u).status
  unblocked-runs u = ground arith

-- The state that `requeue` leaves, if the current task runs.
abbrev pub requeued : Kernel → Kernel
requeued k =
    set_task (record k { ready_list = list_append k.ready_list k.current }) k.current
      (record (k.task k.current) { ticks = (k.task k.current).priority; status = TaskStatus.ready })

-- What `dispatch` has to be given.
pub record IsIdle (k : Kernel) : Type 0 where
  pub queues : IsQueued k
  pub none_runs : NoneRuns k

module _ (k : Kernel) (q : IsQueued k) (only : OnlyRuns k k.current) where
  module _ (runs : is_running (k.task k.current).status ≡ true) where
    out_of_queue : elem_find k.ready_list k.current ≡ false
    out_of_queue = ground (arith, q.queued k.current)

    pub requeue-ok : requeue k ≡ ok (requeued k)
    unfolding requeue
    requeue-ok = rw (runs, out_of_queue)

    pub requeued-IsIdle : IsIdle (requeued k)
    requeued-IsIdle = record {
      queues = record {
        queued = λ u. ground (arith, find-append k.ready_list k.current u, q.queued u);
        distinct = Distinct-append k.ready_list k.current q.distinct out_of_queue;
        idle_lives = ground arith;
      };
      none_runs = λ u. ground (arith, only u);
    }

  requeue_lem : (k' : Kernel) × (requeue k ≡ ok k') × IsIdle k'
  unfolding requeue
  requeue_lem = elim (Bool-cases (is_running (k.task k.current).status)) [
    | inl r ↦ (requeued k, requeue-ok r, requeued-IsIdle r)
    | inr r ↦ (k, rw r, record { queues = q; none_runs = λ u. ground (arith, only u) })
  ]

dispatch_lem :
    (l : List ℕ) (k : Kernel)
    → k.ready_list ≡ l
    → list_empty l ≡ false
    → IsIdle k
    → (k' : Kernel) × (dispatch l k ≡ ok k') × IsConsistent k'
unfolding dispatch
dispatch_lem [] k e some_ready i = cc
dispatch_lem (next ∷ rest) k e some_ready i =
    let q = i.queues in
    let d : Distinct (next ∷ rest) = subst Distinct e q.distinct in
    (
      _,
      refl,
      record {
        queues = record {
          queued = λ u. ground (arith, q.queued u);
          distinct = d.1;
          idle_lives = ground (arith, q.idle_lives);
        };
        runs = rw ==-refl;
        only = λ u. ground (arith, i.none_runs u);
      },
    )

find_empty : (l : List ℕ) (t : ℕ) → list_empty l ≡ true → elem_find l t ≡ false
find_empty [] t e = refl
find_empty (x ∷ xs) t e = cc

asleep_of :
    (s : TaskStatus)
    → is_ready s ≡ false
    → is_running s ≡ false
    → s ≢ TaskStatus.over
    → is_asleep s ≡ true
asleep_of s r u o = ground arith

-- The idle task sleeps where no task is ready or running.
idle_asleep :
    (k : Kernel)
    → IsIdle k
    → list_empty k.ready_list ≡ true
    → is_asleep (k.task k.idle_thread).status ≡ true
idle_asleep k i e =
    asleep_of (k.task k.idle_thread).status
      (ground (arith, i.queues.queued k.idle_thread, find_empty k.ready_list k.idle_thread e))
      (i.none_runs k.idle_thread) i.queues.idle_lives

-- With interrupts off, from a ready queue that holds exactly the ready tasks, each once, and no
-- running task but the current one, and with an idle task that has not ended, `schedule` fails no
-- ASSERT and ends with exactly one task running, out of the ready queue.
pub schedule_lem :
    (k : Kernel)
    → k.intr_on ≡ false
    → IsQueued k
    → OnlyRuns k k.current
    → (k' : Kernel) × (schedule k ≡ ok k') × IsConsistent k'
unfolding schedule
schedule_lem k off q only =
    let (k₁, e₁, i₁) = requeue_lem k q only in
    let start : schedule k ≡ (do
      k₁ ← requeue k
      k₂ ← if list_empty k₁.ready_list then thread_unblock k₁.idle_thread k₁ else ok k₁
      dispatch k₂.ready_list k₂) =
      assert_holds (not k.intr_on) _ (ground arith) in
    elim (Bool-cases (list_empty k₁.ready_list)) [
      | inl none_ready ↦
          let asleep = idle_asleep k₁ i₁ none_ready in
          let t = k₁.idle_thread in
          let i₂ : IsIdle (unblocked t k₁) = record {
            queues = unblocked-IsQueued t k₁ i₁.queues asleep;
            none_runs = λ u. unblocked-runs t k₁ i₁.queues asleep u ∙ i₁.none_runs u;
          } in
          let (k₃, e₃, c) = dispatch_lem (t ∷ k₁.ready_list) (unblocked t k₁) refl refl i₂ in
          (k₃, rw start (rw (e₁, none_ready, thread_unblock-ok t k₁ i₁.queues asleep) e₃), c)
      | inr some_ready ↦
          let (k₃, e₃, c) = dispatch_lem k₁.ready_list k₁ refl some_ready i₁ in
          (k₃, rw start (rw (e₁, some_ready) e₃), c)
    ]
