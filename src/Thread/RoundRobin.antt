-- ===== src/Thread/RoundRobin.antt =====
-- Tasks that only run out of their time are scheduled in turn.
use seeking_os.Prelude.{
  ok-injective, ℕ, zero, suc, ◌≡◌, refl, ◌∙◌, sym, subst, false, not, List, [], ◌∷◌, ◌++◌, arith,
  Outcome, ok, length, assert_holds, ◌>>=◌,
}
use mathlib.Core.List.{append_assoc}
use seeking_os.Thread.{Kernel, TaskStatus, set_status, dispatch, schedule}
use seeking_os.Thread.Schedule.{IsConsistent, requeue-ok, requeued, schedule_lem}

-- `n` calls of `schedule` by tasks that run out of their time
abbrev pub rounds : ℕ → Kernel → Outcome Kernel
rounds zero k = ok k
rounds (suc n) k = schedule k >>= rounds n

-- The state after a turn.
abbrev turned : Kernel → ℕ → List ℕ → Kernel
turned k next rest = record (set_status (requeued k) next TaskStatus.running) {
  ready_list = rest ++ (k.current ∷ []);
  current = next;
}

-- One call takes the first ready task and puts the current one at the end.
schedule_turn :
    (k : Kernel) (next : ℕ) (rest : List ℕ)
    → k.intr_on ≡ false
    → IsConsistent k
    → k.ready_list ≡ next ∷ rest
    → (k' : Kernel) × (schedule k ≡ ok k')
      × IsConsistent k'
      × (k'.current ≡ next)
      × (k'.ready_list ≡ rest ++ (k.current ∷ []))
      × (k'.intr_on ≡ false)
unfolding schedule dispatch
schedule_turn k next rest off c e =
    let (k', ran, c') = schedule_lem k off c.queues c.only in
    let turn : schedule k ≡ ok (turned k next rest) =
      assert_holds (not k.intr_on) _ (ground arith)
      ∙ rw (requeue-ok k c.queues c.only c.runs) (rw e) in
    (
      turned k next rest,
      turn,
      subst IsConsistent (ok-injective (sym ran ∙ turn)) c',
      refl,
      refl,
      off,
    )

-- In a consistent kernel with interrupts off, a ready task with `n` tasks before it is the current
-- one after `n + 1` calls of `schedule` by tasks that ran out of their time.
pub rounds-current :
    (before after : List ℕ) (k : Kernel) (t : ℕ)
    → k.intr_on ≡ false
    → IsConsistent k
    → k.ready_list ≡ before ++ (t ∷ after)
    → (k' : Kernel) × (rounds (suc (length before)) k ≡ ok k') × IsConsistent k' × (k'.current ≡ t)
rounds-current [] after k t off c e =
    let (k₁, ran, c₁, now, later, off₁) = schedule_turn k t after off c e in (k₁, rw ran, c₁, now)
rounds-current (x ∷ before) after k t off c e =
    let (k₁, ran, c₁, now, later, off₁) = schedule_turn k x (before ++ (t ∷ after)) off c e in
    let (k₂, rest, c₂, t_runs) =
      rounds-current before (after ++ (k.current ∷ [])) k₁ t off₁ c₁
        (later ∙ append_assoc before (t ∷ after) (k.current ∷ [])) in
    (k₂, rw ran rest, c₂, t_runs)
