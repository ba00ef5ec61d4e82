-- ===== src/Thread/Keeps.antt =====
-- Every operation of the scheduler keeps the kernel consistent and fails no ASSERT.
use seeking_os.Prelude.{
  ℕ, zero, suc, ◌-◌, ◌≡◌, refl, ◌∙◌, sym, subst, inl, inr, true, false, not, List, [], ◌∷◌, arith,
  ok, ok-injective, assert_holds, ◌==◌, Bool-cases, ==-refl, add32,
}
use seeking_os.Thread.Queue.{elem_find, list_append, find-append, Distinct-append}
use seeking_os.Thread.{
  TaskStatus, Task, Kernel, is_asleep, set_task, set_status, intr_disable, thread_unblock,
  thread_block, thread_yield, intr_timer_handler, dispatch, schedule,
}
use seeking_os.Thread.Schedule.{
  IsQueued, IsConsistent, schedule_lem, thread_unblock-ok, unblocked, unblocked-IsQueued,
  unblocked-runs, requeue-ok, requeued,
}

-- A change of the current task that keeps its state keeps everything.
same_status-IsConsistent :
    (k : Kernel) (p : Task) (n : ℕ)
    → IsConsistent k
    → p.status ≡ (k.task k.current).status
    → IsConsistent (record (set_task k k.current p) { ticks = n })
same_status-IsConsistent k p n c e = record {
  queues = record {
    queued = λ u. ground (arith, c.queues.queued u);
    distinct = c.queues.distinct;
    idle_lives = ground (arith, c.queues.idle_lives);
  };
  runs = ground (arith, c.runs);
  only = λ u. ground (arith, c.only u);
}

appended_first :
    (xs : List ℕ) (t : ℕ) → (next : ℕ) × (rest : List ℕ) × (list_append xs t ≡ next ∷ rest)
appended_first [] t = (t, [], refl)
appended_first (x ∷ xs) t = (x, list_append xs t, refl)

-- The current task has run out of its time: it goes to the end, and the first one runs.
schedule_preempts :
    (k : Kernel)
    → k.intr_on ≡ false
    → IsConsistent k
    → (k' : Kernel) × (schedule k ≡ ok k')
      × IsConsistent k'
      × (list_append k.ready_list k.current ≡ k'.current ∷ k'.ready_list)
      × ((k'.task k.current).ticks ≡ (k.task k.current).priority)
      × ((k'.task k.current).elapsed_ticks ≡ (k.task k.current).elapsed_ticks)
      × (k'.ticks ≡ k.ticks)
unfolding schedule dispatch
schedule_preempts k off c =
    let (k₁, ran, c₁) = schedule_lem k off c.queues c.only in
    let (next, rest, e) = appended_first k.ready_list k.current in
    let k' : Kernel = record (set_status (requeued k) next TaskStatus.running) {
      ready_list = rest;
      current = next;
    } in
    let turn : schedule k ≡ ok k' =
      assert_holds (not k.intr_on) _ (ground arith)
      ∙ rw (requeue-ok k c.queues c.only c.runs) (rw e) in
    (
      k',
      turn,
      subst IsConsistent (ok-injective (sym ran ∙ turn)) c₁,
      e,
      ground arith,
      ground arith,
      refl,
    )

-- What a clock interrupt does to the queue and to the time left of the current task, by that time
abbrev pub Ticked : ℕ → Kernel → Kernel → Type 0
Ticked zero k k' =
    (list_append k.ready_list k.current ≡ k'.current ∷ k'.ready_list)
    × ((k'.task k.current).ticks ≡ (k.task k.current).priority)
Ticked (suc n) k k' =
    (k'.current ≡ k.current) × (k'.ready_list ≡ k.ready_list) × ((k'.task k.current).ticks ≡ n)

Ticked-over :
    (time : ℕ) (k k' : Kernel)
    → time ≡ 0
    → list_append k.ready_list k.current ≡ k'.current ∷ k'.ready_list
    → (k'.task k.current).ticks ≡ (k.task k.current).priority
    → Ticked time k k'
Ticked-over zero k k' over first time = (first, time)
Ticked-over (suc n) k k' over first time = absurd (omega arith)

Ticked-down :
    (time : ℕ) (k k' : Kernel)
    → (time == 0) ≡ false
    → k'.current ≡ k.current
    → k'.ready_list ≡ k.ready_list
    → (k'.task k.current).ticks ≡ time - 1
    → Ticked time k k'
Ticked-down zero k k' more same ready time = absurd (ground arith)
Ticked-down (suc n) k k' more same ready time = (same, ready, omega arith)

abbrev pub Handled : Kernel → Kernel → Type 0
Handled k k' =
    (k'.ticks ≡ add32 k.ticks 1)
    × ((k'.task k.current).elapsed_ticks ≡ add32 (k.task k.current).elapsed_ticks 1)
    × Ticked (k.task k.current).ticks k k'

module _ (k : Kernel) (c : IsConsistent k) where
  open c use {queues, runs, only}

  out_of_queue : elem_find k.ready_list k.current ≡ false
  out_of_queue = ground (arith, queues.queued k.current)

  -- In a consistent kernel `thread_block` with a state for sleeping fails no ASSERT and leaves a
  -- consistent kernel.
  pub thread_block-IsConsistent :
      (statu : TaskStatus)
      → is_asleep statu ≡ true
      → (k' : Kernel) × (thread_block statu k ≡ ok k') × IsConsistent k'
  unfolding thread_block
  thread_block-IsConsistent statu asleep =
      let k₁ = set_status (intr_disable k) k.current statu in
      let q : IsQueued k₁ = record {
        queued = λ u. ground (arith, queues.queued u);
        distinct = queues.distinct;
        idle_lives = ground (arith, queues.idle_lives);
      } in
      let (k', e, c') = schedule_lem k₁ refl q (λ u. ground (arith, only u)) in
      (k', rw asleep e, c')

  -- In a consistent kernel `thread_yield` fails no ASSERT and leaves a consistent kernel.
  pub thread_yield-IsConsistent : (k' : Kernel) × (thread_yield k ≡ ok k') × IsConsistent k'
  unfolding thread_yield
  thread_yield-IsConsistent =
      let k₁ =
        set_status (record (intr_disable k) { ready_list = list_append k.ready_list k.current })
          k.current TaskStatus.ready in
      let q : IsQueued k₁ = record {
        queued = λ u. ground (arith, find-append k.ready_list k.current u, queues.queued u);
        distinct = Distinct-append k.ready_list k.current queues.distinct out_of_queue;
        idle_lives = ground (arith, queues.idle_lives);
      } in
      let (k', e, c') = schedule_lem k₁ refl q (λ u. ground (arith, only u)) in
      (k', rw out_of_queue e, c')

  -- In a consistent kernel `thread_unblock` of a sleeping task fails no ASSERT, puts the task at
  -- the front of the ready queue, leaves the current task and a consistent kernel.
  pub thread_unblock-IsConsistent :
      (t : ℕ)
      → is_asleep (k.task t).status ≡ true
      → (k' : Kernel) × (thread_unblock t k ≡ ok k')
        × IsConsistent k'
        × (k'.current ≡ k.current)
        × (k'.ready_list ≡ t ∷ k.ready_list)
  thread_unblock-IsConsistent t asleep = (
    unblocked t k,
    thread_unblock-ok t k queues asleep,
    record {
      queues = unblocked-IsQueued t k queues asleep;
      runs = unblocked-runs t k queues asleep k.current ∙ runs;
      only = λ u r. only u (sym (unblocked-runs t k queues asleep u) ∙ r);
    },
    refl,
    refl,
  )

  -- In a consistent kernel with interrupts off and the stack of the current task intact, the
  -- handler of the clock interrupt fails no ASSERT, leaves a consistent kernel and counts the tick
  -- for the kernel and for the task; a task with time left runs on with one tick less, and one
  -- without goes to the end of the ready queue, with its priority as its new time, and the first in
  -- the queue runs.
  pub intr_timer_handler-IsConsistent :
      k.intr_on ≡ false
      → (k.task k.current).stack_magic ≡ 0x20050608
      → (k' : Kernel) × (intr_timer_handler k ≡ ok k') × IsConsistent k' × Handled k k'
  unfolding intr_timer_handler
  intr_timer_handler-IsConsistent off magic =
      let p = k.task k.current in
      let intact : (p.stack_magic == 0x20050608) ≡ true = ground arith in
      let p₁ = record p { elapsed_ticks = add32 p.elapsed_ticks 1 } in
      let c₁ = same_status-IsConsistent k p₁ (add32 k.ticks 1) c refl in
      elim (Bool-cases (p.ticks == 0)) [
        | inl spent ↦
            let k₁ = record (set_task k k.current p₁) { ticks = add32 k.ticks 1 } in
            let (k', e, c', first, time, elapsed, ticks) = schedule_preempts k₁ off c₁ in
            let over : p.ticks ≡ 0 = ground arith in
            let here : (k₁.task k.current) ≡ p₁ = rw ==-refl refl in
            (
              k',
              rw (intact, spent) e,
              c',
              (ticks, rw here at elapsed, Ticked-over p.ticks k k' over first (rw here at time)),
            )
        | inr more ↦ (
          _,
          rw (intact, more),
          same_status-IsConsistent _ (record p₁ { ticks = p.ticks - 1 }) (add32 k.ticks 1) c₁
              (rw ==-refl),
          (refl, rw ==-refl refl, Ticked-down p.ticks k _ more refl refl (rw ==-refl refl)),
        )
      ]
