-- ===== src/Sync/Mutex.antt =====
-- Every step of a lock keeps its invariant and fails no ASSERT.
use seeking_os.Prelude.{
  ℕ, ◌+◌, ◌-◌, ◌^◌, ◌≤◌, ◌<◌, ◌≡◌, refl, ◌≢◌, ◌⊎◌, inl, inr, Bool, true, false, Option, none, some,
  List, [], ◌∷◌, arith, ok, ◌==◌, Bool-cases, Option-cases, ltb, if◌then◌else◌, add32, ==-refl,
}
use seeking_os.Thread.Queue.{elem_find, list_append, Distinct, find-append, Distinct-append}
use seeking_os.Sync.{
  Place, System, set_place, set_semaphore, holds, sema_down, wake_first, sema_up, lock_acquire,
  lock_taken, lock_release, is_waiting, is_downing,
}

-- The task has brought the semaphore down, and not yet up.
abbrev pub owns : Place → Bool
owns Place.took = true
owns Place.inside = true
owns Place.upping = true
owns _ = false

abbrev pub is_inside : Place → Bool
is_inside Place.inside = true
is_inside _ = false

-- The semaphore is down exactly while a task owns it, which at most one does; the holder is the task inside;
-- the waiters are the tasks asleep, each once; and if there are any while the semaphore is up, a task
-- that has been woken is on its way.
pub record IsSound (s : System) : Type 0 where
  pub free : s.lock.semaphore.value ≢ 0 → (t : ℕ) → owns (s.place t) ≡ false
  pub binary : s.lock.semaphore.value ≤ 1
  pub owned : s.lock.semaphore.value ≡ 0 → (t : ℕ) × (owns (s.place t) ≡ true)
  pub one : (t u : ℕ) → owns (s.place t) ≡ true → owns (s.place u) ≡ true → t ≡ u
  pub held : (t : ℕ) → holds s.lock.holder t ≡ is_inside (s.place t)
  pub none_held : s.lock.holder ≡ none → s.lock.holder_repeat_nr ≡ 0
  pub some_held : s.lock.holder ≢ none → 1 ≤ s.lock.holder_repeat_nr
  pub waiting : (t : ℕ) → elem_find s.lock.semaphore.waiters t ≡ is_waiting (s.place t)
  pub distinct : Distinct s.lock.semaphore.waiters
  pub on_its_way :
      s.lock.semaphore.waiters ≢ []
      → s.lock.semaphore.value ≢ 0
      → (t : ℕ) × (is_downing (s.place t) ≡ true)

-- The states that the two branches of `sema_down` leave
abbrev slept : ℕ → System → System
slept t s =
    set_place
      (set_semaphore s
        (record s.lock.semaphore { waiters = list_append s.lock.semaphore.waiters t }))
      t Place.asleep

abbrev lowered : ℕ → System → System
lowered t s =
    set_place (set_semaphore s (record s.lock.semaphore { value = s.lock.semaphore.value - 1 })) t
      Place.took

pub sema_down-IsSound :
    (t : ℕ) (s : System)
    → IsSound s
    → is_downing (s.place t) ≡ true
    → (s' : System) × (sema_down t s ≡ ok s') × IsSound s'
unfolding sema_down
sema_down-IsSound t s i d = elim (Bool-cases (s.lock.semaphore.value == 0)) [
  | inl down ↦
      let out : elem_find s.lock.semaphore.waiters t ≡ false = ground (arith, i.waiting t) in
      (
        slept t s,
        rw (down, out),
        record {
          free = λ up. absurd (ground arith);
          binary = i.binary;
          owned = λ e. let (x, o) = i.owned e in (x, ground arith);
          one = λ u v. ground (arith, i.one u v);
          held = λ u. ground (arith, i.held u);
          none_held = i.none_held;
          some_held = i.some_held;
          waiting = λ u. ground (arith, i.waiting u, find-append s.lock.semaphore.waiters t u);
          distinct = Distinct-append s.lock.semaphore.waiters t i.distinct out;
          on_its_way = λ some up. absurd (ground arith);
        },
      )
  | inr up ↦
      let last : (s.lock.semaphore.value - 1 == 0) ≡ true = ground (arith, i.binary) in
      (
        lowered t s,
        rw (up, last),
        record {
          free = λ e. absurd (ground (arith, i.binary));
          binary = ground (arith, i.binary);
          owned = λ e. (t, rw ==-refl);
          one = λ u v. ground (arith, i.free (ground arith) u, i.free (ground arith) v);
          held = λ u. ground (arith, i.held u);
          none_held = i.none_held;
          some_held = i.some_held;
          waiting = λ u. ground (arith, i.waiting u);
          distinct = i.distinct;
          on_its_way = λ some e. absurd (ground (arith, i.binary));
        },
      )
]

abbrev woken : List ℕ → System → System
woken [] s = s
woken (first ∷ rest) s =
    set_place (set_semaphore s (record s.lock.semaphore { waiters = rest })) first Place.downing

-- The state that `sema_up` leaves, for the waiters
abbrev raised : List ℕ → ℕ → System → System
raised ws t s =
    let s₁ = woken ws s in
    set_place (set_semaphore s₁ (record s₁.lock.semaphore { value = 1 })) t Place.outside

raised-IsSound :
    (ws : List ℕ) (t : ℕ) (s : System)
    → s.lock.semaphore.waiters ≡ ws
    → s.lock.semaphore.value ≡ 0
    → (s.place t ≡ Place.upping)
    → IsSound s
    → (sema_up t s ≡ ok (raised ws t s)) × IsSound (raised ws t s)
unfolding sema_up wake_first
raised-IsSound [] t s e down up i = (
  rw (e, down),
  record {
    free = λ h u. ground (arith, i.one t u);
    binary = omega arith;
    owned = λ h. absurd (omega arith);
    one = λ u v. ground (arith, i.one u v);
    held = λ u. ground (arith, i.held u);
    none_held = i.none_held;
    some_held = i.some_held;
    waiting = λ u. ground (arith, i.waiting u);
    distinct = i.distinct;
    on_its_way = λ some h. absurd (some e);
  },
)
raised-IsSound (first ∷ rest) t s e down up i =
    let asleep : is_waiting (s.place first) ≡ true = ground (arith, i.waiting first) in
    let others : Distinct (first ∷ rest) = rw e at i.distinct in
    let waits : (u : ℕ) → elem_find (first ∷ rest) u ≡ is_waiting (s.place u) = rw e at i.waiting in
    (
      rw (e, down, asleep),
      record {
        free = λ h u. ground (arith, i.one t u);
        binary = omega arith;
        owned = λ h. absurd (omega arith);
        one = λ u v. ground (arith, i.one u v);
        held = λ u. ground (arith, i.held u);
        none_held = i.none_held;
        some_held = i.some_held;
        waiting = λ u. ground (arith, waits u);
        distinct = others.1;
        on_its_way = λ some h. (first, ground arith);
      },
    )

pub sema_up-IsSound :
    (t : ℕ) (s : System)
    → IsSound s
    → s.place t ≡ Place.upping
    → (s' : System) × (sema_up t s ≡ ok s') × IsSound s'
sema_up-IsSound t s i up =
    let down : s.lock.semaphore.value ≡ 0 = elim (Bool-cases (s.lock.semaphore.value == 0)) [
      | inl e ↦ ground arith
      | inr e ↦ absurd (ground (arith, i.free (ground arith) t))
    ] in
    let (ran, sound) = raised-IsSound s.lock.semaphore.waiters t s refl down up i in
    (raised s.lock.semaphore.waiters t s, ran, sound)

holds-none : (h : Option ℕ) (t : ℕ) → h ≡ none → holds h t ≡ false
holds-none h t e = rw e refl

-- While a task that is not inside owns the semaphore, no task holds the lock.
nobody_holds :
    (t : ℕ) (s : System)
    → IsSound s
    → owns (s.place t) ≡ true
    → is_inside (s.place t) ≡ false
    → s.lock.holder ≡ none
nobody_holds t s i own not_inside = elim (Option-cases s.lock.holder) [
  | inl e ↦ e
  | inr (u, e) ↦
      let within : is_inside (s.place u) ≡ true = ground (arith, i.held u) in
      absurd (ground (arith, i.one t u))
]

-- A task that is not inside calls `lock_acquire`, or the holder calls it again.
pub lock_acquire-IsSound :
    (t : ℕ) (s : System)
    → IsSound s
    → (s.place t ≡ Place.outside) ⊎ (s.place t ≡ Place.inside)
    → s.lock.holder_repeat_nr + 1 < 2 ^ 32
    → (s' : System) × (lock_acquire t s ≡ ok s') × IsSound s'
unfolding lock_acquire
lock_acquire-IsSound t s i (inl out) few =
    let other : holds s.lock.holder t ≡ false = ground (arith, i.held t) in
    (
      set_place s t Place.downing,
      rw other,
      record {
        free = λ h u. ground (arith, i.free h u);
        binary = i.binary;
        owned = λ e. let (x, d) = i.owned e in (x, ground arith);
        one = λ u v. ground (arith, i.one u v);
        held = λ u. ground (arith, i.held u);
        none_held = i.none_held;
        some_held = i.some_held;
        waiting = λ u. ground (arith, i.waiting u);
        distinct = i.distinct;
        on_its_way = λ some h. (t, rw ==-refl);
      },
    )
lock_acquire-IsSound t s i (inr within) few =
    let own : holds s.lock.holder t ≡ true = ground (arith, i.held t) in
    (
      record s { lock = record s.lock { holder_repeat_nr = add32 s.lock.holder_repeat_nr 1 } },
      rw own,
      record {
        free = i.free;
        binary = i.binary;
        owned = i.owned;
        one = i.one;
        held = i.held;
        none_held =
            λ none_holds. absurd (ground (arith, own, holds-none s.lock.holder t none_holds));
        some_held = λ h. omega arith;
        waiting = i.waiting;
        distinct = i.distinct;
        on_its_way = i.on_its_way;
      },
    )

pub lock_taken-IsSound :
    (t : ℕ) (s : System)
    → IsSound s
    → s.place t ≡ Place.took
    → (s' : System) × (lock_taken t s ≡ ok s') × IsSound s'
unfolding lock_taken
lock_taken-IsSound t s i took =
    let nobody : s.lock.holder ≡ none = nobody_holds t s i (ground arith) (ground arith) in
    let fresh : s.lock.holder_repeat_nr ≡ 0 = i.none_held nobody in
    (
      set_place (record s { lock = record s.lock { holder = some t; holder_repeat_nr = 1 } }) t
          Place.inside,
      rw fresh,
      record {
        free = λ h u. absurd (ground (arith, i.free h t));
        binary = i.binary;
        owned = λ e. let (x, d) = i.owned e in (x, ground arith);
        one = λ u v. ground (arith, i.one u v);
        held = λ u. ground (arith, i.held u, holds-none s.lock.holder u nobody);
        none_held = λ e. cc;
        some_held = λ h. omega arith;
        waiting = λ u. ground (arith, i.waiting u);
        distinct = i.distinct;
        on_its_way = λ some h. let (x, d) = i.on_its_way some h in (x, ground arith);
      },
    )

pub lock_release-IsSound :
    (t : ℕ) (s : System)
    → IsSound s
    → s.place t ≡ Place.inside
    → (s' : System) × (lock_release t s ≡ ok s') × IsSound s'
unfolding lock_release
lock_release-IsSound t s i within =
    let own : holds s.lock.holder t ≡ true = ground (arith, i.held t) in
    let some_holder : s.lock.holder ≢ none =
      λ e. absurd (ground (arith, own, holds-none s.lock.holder t e)) in
    let counted : 1 ≤ s.lock.holder_repeat_nr = i.some_held some_holder in
    elim (Bool-cases (ltb 1 s.lock.holder_repeat_nr)) [
      | inl more ↦ (
        record s { lock = record s.lock { holder_repeat_nr = s.lock.holder_repeat_nr - 1 } },
        rw (own, more),
        record {
          free = i.free;
          binary = i.binary;
          owned = i.owned;
          one = i.one;
          held = i.held;
          none_held = λ e. absurd (some_holder e);
          some_held = λ h. ground arith;
          waiting = i.waiting;
          distinct = i.distinct;
          on_its_way = i.on_its_way;
        },
      )
      | inr last ↦
          let once : (s.lock.holder_repeat_nr == 1) ≡ true = ground arith in
          (
            set_place (record s { lock = record s.lock { holder = none; holder_repeat_nr = 0 } }) t
                Place.upping,
            rw (own, last, once),
            record {
              free = λ h u. absurd (ground (arith, i.free h t));
              binary = i.binary;
              owned = λ e. let (x, d) = i.owned e in (x, ground arith);
              one = λ u v. ground (arith, i.one u v);
              held = λ u. left t s i within u;
              none_held = λ e. refl;
              some_held = λ h. absurd (h refl);
              waiting = λ u. ground (arith, i.waiting u);
              distinct = i.distinct;
              on_its_way = λ some h. let (x, d) = i.on_its_way some h in (x, ground arith);
            },
          )
    ]
  where
    left :
        (t : ℕ) (s : System)
        → IsSound s
        → s.place t ≡ Place.inside
        → (u : ℕ) → false ≡ is_inside (if u == t then Place.upping else s.place u)
    left t s i within u = ground (arith, i.one t u)
