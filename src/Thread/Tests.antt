-- ===== src/Thread/Tests.antt =====
-- A kernel of four tasks for thread/thread.c: task 1 runs, 2 and 3 are ready, the rest sleep.
use seeking_os.Prelude.{ℕ, ◌≡◌, refl, false, ◌||◌, [], ◌∷◌, arith, ok, ◌==◌, if◌then◌else◌}
use seeking_os.Thread.{Kernel, TaskStatus, schedule, intr_timer_handler}
use seeking_os.Thread.Schedule.{IsConsistent, schedule_lem}
use seeking_os.Thread.Keeps.{Handled, intr_timer_handler-IsConsistent}
use seeking_os.Thread.RoundRobin.{rounds, rounds-current}

abbrev status_at : ℕ → TaskStatus
status_at u =
    if u == 1
    then TaskStatus.running
    else if u == 2 || u == 3
    then TaskStatus.ready
    else TaskStatus.blocked

abbrev two_ready : Kernel
two_ready = record {
  current = 1;
  idle_thread = 0;
  ready_list = 2 ∷ 3 ∷ [];
  task = λ u. record {
    status = status_at u;
    priority = 31;
    ticks = 0;
    elapsed_ticks = 5;
    stack_magic = 0x20050608;
  };
  intr_on = false;
  ticks = 9;
}

two_ready-IsConsistent : IsConsistent two_ready
two_ready-IsConsistent = record {
  queues = record {
    queued = λ t. ground arith;
    distinct = (refl, (refl, tt));
    idle_lives = λ e. cc;
  };
  runs = refl;
  only = λ t r. ground arith;
}

schedule_lem_example : (k : Kernel) × (schedule two_ready ≡ ok k) × IsConsistent k
schedule_lem_example =
    schedule_lem two_ready refl two_ready-IsConsistent.queues two_ready-IsConsistent.only

intr_timer_handler-IsConsistent_example :
    (k : Kernel) × (intr_timer_handler two_ready ≡ ok k) × IsConsistent k × Handled two_ready k
intr_timer_handler-IsConsistent_example =
    intr_timer_handler-IsConsistent two_ready two_ready-IsConsistent refl refl

rounds-current_example :
    (k : Kernel) × (rounds 2 two_ready ≡ ok k) × IsConsistent k × (k.current ≡ 3)
rounds-current_example = rounds-current (2 ∷ []) [] two_ready 3 refl two_ready-IsConsistent refl
