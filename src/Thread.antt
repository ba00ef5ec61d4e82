-- ===== src/Thread.antt =====
-- thread/thread.c: the scheduler's queues and the states of its tasks.
-- A task is its number; the ready queue is the list that lib/kernel/list.c keeps in links. A call
-- that ends in `switch_to` is modelled up to the switch: what follows it in the source, the
-- `intr_set_status(old_status)`, runs when the task is scheduled again.
pub mod Queue
pub mod Schedule
pub mod Keeps
pub mod RoundRobin
mod Tests
use seeking_os.Prelude.{
  ℕ, ◌+◌, ◌-◌, ◌%◌, Bool, true, false, not, ◌||◌, Option, none, some, List, [], ◌∷◌, ◌++◌, Outcome,
  ok, panic, assert, ◌>>=◌, ◌>>◌, ◌==◌, if◌then◌else◌, add32,
}
use Queue.{elem_find, list_append, list_push, list_empty}

-- `enum task_status`
pub data TaskStatus : Type 0 where
  running ready blocked waiting hanging over : TaskStatus

-- The fields of `struct task` that scheduling reads or writes
pub record Task : Type 0 where
  pub status : TaskStatus
  pub priority : ℕ
  pub ticks : ℕ
  pub elapsed_ticks : ℕ
  pub stack_magic : ℕ

-- The kernel's variables: the task on the processor, `idle_thread`, `thread_ready_list`, the PCBs,
-- whether interrupts are on, and the `ticks` of device/timer.c.
pub record Kernel : Type 0 where
  pub current : ℕ
  pub idle_thread : ℕ
  pub ready_list : List ℕ
  pub task : ℕ → Task
  pub intr_on : Bool
  pub ticks : ℕ

abbrev pub is_running : TaskStatus → Bool
is_running TaskStatus.running = true
is_running _ = false

abbrev pub is_ready : TaskStatus → Bool
is_ready TaskStatus.ready = true
is_ready _ = false

-- `s == TASK_BLOCKED || s == TASK_HANGING || s == TASK_WAITING`
abbrev pub is_asleep : TaskStatus → Bool
is_asleep TaskStatus.blocked = true
is_asleep TaskStatus.hanging = true
is_asleep TaskStatus.waiting = true
is_asleep _ = false

abbrev pub set_task : Kernel → ℕ → Task → Kernel
set_task k t p = record k { task = λ u. if u == t then p else k.task u }

abbrev pub set_status : Kernel → ℕ → TaskStatus → Kernel
set_status k t s = set_task k t (record (k.task t) { status = s })

abbrev pub intr_disable : Kernel → Kernel
intr_disable k = record k { intr_on = false }

unfoldable pub thread_unblock : ℕ → Kernel → Outcome Kernel
thread_unblock t k = do
  let k₁ = intr_disable k
  assert (is_asleep (k₁.task t).status)
  k₂ ←
      if not (is_ready (k₁.task t).status)
      then (do
        assert (not (elem_find k₁.ready_list t))
        ok (set_status (record k₁ { ready_list = list_push k₁.ready_list t }) t TaskStatus.ready))
      else ok k₁
  ok (record k₂ { intr_on = k.intr_on })

-- The task that ran out of its time goes to the end of the ready queue.
unfoldable pub requeue : Kernel → Outcome Kernel
requeue k =
    let cur = k.task k.current in
    if is_running cur.status
    then (do
      assert (not (elem_find k.ready_list k.current))
      ok (
          set_task (record k { ready_list = list_append k.ready_list k.current }) k.current
            (record cur { ticks = cur.priority; status = TaskStatus.ready })))
    else ok k

-- `list_pop` and the switch to what it returns
unfoldable pub dispatch : List ℕ → Kernel → Outcome Kernel
dispatch [] k = panic
dispatch (next ∷ rest) k =
    ok (record (set_status k next TaskStatus.running) { ready_list = rest; current = next })

unfoldable pub schedule : Kernel → Outcome Kernel
schedule k = do
  assert (not k.intr_on)
  k₁ ← requeue k
  k₂ ← if list_empty k₁.ready_list then thread_unblock k₁.idle_thread k₁ else ok k₁
  dispatch k₂.ready_list k₂

unfoldable pub thread_block : TaskStatus → Kernel → Outcome Kernel
thread_block statu k = do
  assert (is_asleep statu)
  schedule (set_status (intr_disable k) k.current statu)

unfoldable pub thread_yield : Kernel → Outcome Kernel
thread_yield k = do
  let k₁ = intr_disable k
  assert (not (elem_find k₁.ready_list k₁.current))
  schedule (
      set_status (record k₁ { ready_list = list_append k₁.ready_list k₁.current }) k₁.current
        TaskStatus.ready)

-- device/timer.c: the handler of the clock interrupt, which the processor enters with interrupts off
unfoldable pub intr_timer_handler : Kernel → Outcome Kernel
intr_timer_handler k = do
  let cur = k.task k.current
  assert (cur.stack_magic == 0x20050608)
  let cur₁ = record cur { elapsed_ticks = add32 cur.elapsed_ticks 1 }
  let k₁ = record (set_task k k.current cur₁) { ticks = add32 k.ticks 1 }
  if cur₁.ticks == 0
      then schedule k₁
      else ok (set_task k₁ k₁.current (record cur₁ { ticks = cur₁.ticks - 1 }))
