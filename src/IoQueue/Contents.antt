-- ===== src/IoQueue/Contents.antt =====
-- The ring refines a queue of at most `bufsize - 1` bytes.
use seeking_os.Prelude.{
  ℕ, ◌-◌, ◌<◌, ◌≡◌, refl, ap, ◌≢◌, true, false, none, some, List, [], ◌∷◌, ◌++◌, arith, length,
  Option-cases, Bool-cases, inl, inr, ◌⊎◌,
}
use seeking_os.IoQueue.{
  IoQueue, Call, done, sleeps, locked_out, failed, bufsize, next_pos, ioq_full, ioq_empty,
  ioq_getchar, ioq_putchar, ioq_lenth,
}
pub use seeking_os.IoQueue.Ring.{
  IsValid, contents, length-contents, ioq_lenth-lt, empty-lenth, full-lenth, taken, put,
  contents-taken, contents-put, contents_empty, length_full, length_not_full, to_list,
}
use seeking_os.IoQueue.Locking.{free_lock, held_lock, acquire_free, acquire_held}
use seeking_os.Thread.Queue.{elem_find, list_append}
use seeking_os.Sync.{Lock}

-- The lock of the ring, seen by a task that neither has it nor waits for it: nobody has it, or another
abbrev pub Ready : ℕ → Lock → Type 0
Ready cur lock =
    ((ws : List ℕ) × (lock ≡ free_lock ws))
    ⊎ ((u : ℕ) × (ws : List ℕ) × (lock ≡ held_lock u ws) × (u ≢ cur) × (elem_find ws cur ≡ false))

-- What a pass of `ioq_getchar` in task `cur` promises.
abbrev pub GetSpec : ℕ → IoQueue → Call ℕ → Type 0
GetSpec cur ioq (done byte ioq' woken) =
    (contents ioq ≡ byte ∷ contents ioq')
    × IsValid ioq'
    × (woken ≡ to_list ioq.producer)
    × (ioq'.producer ≡ none)
    × (ioq'.consumer ≡ ioq.consumer)
    × (ioq'.lock ≡ ioq.lock)
GetSpec cur ioq (sleeps ioq') =
    (contents ioq ≡ [])
    × (ioq.consumer ≡ none)
    × ((ws : List ℕ) × (ioq.lock ≡ free_lock ws)
        × (ioq' ≡ record ioq { lock = held_lock cur ws; consumer = some cur }))
GetSpec cur ioq (locked_out ioq') =
    (contents ioq ≡ [])
    × ((u : ℕ) × (ws : List ℕ) × (ioq.lock ≡ held_lock u ws)
        × (ioq' ≡ record ioq { lock = held_lock u (list_append ws cur) }))
GetSpec cur ioq failed =
    (contents ioq ≡ []) × (ioq.consumer ≢ none) × ((ws : List ℕ) × (ioq.lock ≡ free_lock ws))

-- What a pass of `ioq_putchar` in task `cur` promises.
abbrev pub PutSpec : ℕ → IoQueue → ℕ → Call (Unit {0}) → Type 0
PutSpec cur ioq byte (done _ ioq' woken) =
    (contents ioq' ≡ contents ioq ++ (byte ∷ []))
    × (length (contents ioq) < bufsize - 1)
    × IsValid ioq'
    × (woken ≡ to_list ioq.consumer)
    × (ioq'.consumer ≡ none)
    × (ioq'.producer ≡ ioq.producer)
    × (ioq'.lock ≡ ioq.lock)
PutSpec cur ioq byte (sleeps ioq') =
    (length (contents ioq) ≡ bufsize - 1)
    × (ioq.producer ≡ none)
    × ((ws : List ℕ) × (ioq.lock ≡ free_lock ws)
        × (ioq' ≡ record ioq { lock = held_lock cur ws; producer = some cur }))
PutSpec cur ioq byte (locked_out ioq') =
    (length (contents ioq) ≡ bufsize - 1)
    × ((u : ℕ) × (ws : List ℕ) × (ioq.lock ≡ held_lock u ws)
        × (ioq' ≡ record ioq { lock = held_lock u (list_append ws cur) }))
PutSpec cur ioq byte failed =
    (length (contents ioq) ≡ bufsize - 1)
    × (ioq.producer ≢ none)
    × ((ws : List ℕ) × (ioq.lock ≡ free_lock ws))

-- A pass on a ring that is not empty
getchar_takes :
    (cur : ℕ) (ioq : IoQueue)
    → IsValid ioq
    → ioq_empty ioq ≡ false
    → GetSpec cur ioq (ioq_getchar false cur ioq)
unfolding ioq_getchar ioq_lenth
getchar_takes cur ioq v e =
    let rest = contents-taken ioq v e in
    let v' : IsValid (taken ioq) = record { head_in = v.head_in; tail_in = omega arith } in
    elim (Option-cases ioq.producer) [
      | inl p ↦
          rw (e, p)
            (rest, record { head_in = v'.head_in; tail_in = v'.tail_in }, refl, p, refl, refl)
      | inr (t, p) ↦
          rw (e, p)
            (rest, record { head_in = v'.head_in; tail_in = v'.tail_in }, refl, refl, refl, refl)
    ]

-- A pass on an empty ring, by its lock and its consumer
pub getchar_waits :
    (cur : ℕ) (ioq : IoQueue) (ws : List ℕ)
    → ioq_empty ioq ≡ true
    → ioq.lock ≡ free_lock ws
    → ioq.consumer ≡ none
    → ioq_getchar false cur ioq
      ≡ sleeps (record ioq { lock = held_lock cur ws; consumer = some cur })
unfolding ioq_getchar
getchar_waits cur ioq ws e l c = rw (e, l, acquire_free cur ws, c) refl

getchar_fails :
    (cur t : ℕ) (ioq : IoQueue) (ws : List ℕ)
    → ioq_empty ioq ≡ true
    → ioq.lock ≡ free_lock ws
    → ioq.consumer ≡ some t
    → ioq_getchar false cur ioq ≡ failed
unfolding ioq_getchar
getchar_fails cur t ioq ws e l c = rw (e, l, acquire_free cur ws, c) refl

pub getchar_queues :
    (cur u : ℕ) (ioq : IoQueue) (ws : List ℕ)
    → ioq_empty ioq ≡ true
    → ioq.lock ≡ held_lock u ws
    → u ≢ cur
    → elem_find ws cur ≡ false
    → ioq_getchar false cur ioq
      ≡ locked_out (record ioq { lock = held_lock u (list_append ws cur) })
unfolding ioq_getchar
getchar_queues cur u ioq ws e l other out = rw (e, l, acquire_held cur u ws other out) refl

-- With interrupts off, on a ring with both positions in the buffer, and in a task that neither has
-- the lock of the ring nor waits for it, `ioq_getchar` takes the oldest byte and wakes the noted
-- producer; on an empty ring its task waits for the lock if another has it, and else takes the lock
-- and sleeps as the noted consumer, or fails the ASSERT if one is noted already.
pub ioq_getchar_lem :
    (cur : ℕ) (ioq : IoQueue)
    → IsValid ioq
    → Ready cur ioq.lock
    → GetSpec cur ioq (ioq_getchar false cur ioq)
unfolding ioq_lenth
ioq_getchar_lem cur ioq v ready = elim (Bool-cases (ioq_empty ioq)) [
  | inr e ↦ getchar_takes cur ioq v e
  | inl e ↦
      let nothing = contents_empty ioq v e in
      elim ready [
        | inl (ws, l) ↦ elim (Option-cases ioq.consumer) [
          | inl c ↦ rw (getchar_waits cur ioq ws e l c) (nothing, c, (ws, l, refl))
          | inr (t, c) ↦ rw (getchar_fails cur t ioq ws e l c) (nothing, λ q. cc, (ws, l))
        ]
        | inr (u, ws, l, other, out) ↦
            rw (getchar_queues cur u ioq ws e l other out) (nothing, (u, ws, l, refl))
      ]
]

-- A pass on a ring that is not full
putchar_puts :
    (cur : ℕ) (ioq : IoQueue) (byte : ℕ)
    → IsValid ioq
    → ioq_full ioq ≡ false
    → PutSpec cur ioq byte (ioq_putchar false cur ioq byte)
unfolding ioq_putchar ioq_lenth
putchar_puts cur ioq byte v e =
    let longer = contents-put ioq byte v e in
    let short = length_not_full ioq v e in
    let place : next_pos ioq.head < bufsize = omega arith in
    elim (Option-cases ioq.consumer) [
      | inl c ↦
          rw (e, c)
            (longer, short, record { head_in = place; tail_in = v.tail_in }, refl, c, refl, refl)
      | inr (t, c) ↦
          rw (e, c)
            (longer, short, record { head_in = place; tail_in = v.tail_in }, refl, refl, refl, refl)
    ]

-- A pass on a full ring, by its lock and its producer
pub putchar_waits :
    (cur : ℕ) (ioq : IoQueue) (byte : ℕ) (ws : List ℕ)
    → ioq_full ioq ≡ true
    → ioq.lock ≡ free_lock ws
    → ioq.producer ≡ none
    → ioq_putchar false cur ioq byte
      ≡ sleeps (record ioq { lock = held_lock cur ws; producer = some cur })
unfolding ioq_putchar
putchar_waits cur ioq byte ws e l c = rw (e, l, acquire_free cur ws, c) refl

putchar_fails :
    (cur t : ℕ) (ioq : IoQueue) (byte : ℕ) (ws : List ℕ)
    → ioq_full ioq ≡ true
    → ioq.lock ≡ free_lock ws
    → ioq.producer ≡ some t
    → ioq_putchar false cur ioq byte ≡ failed
unfolding ioq_putchar
putchar_fails cur t ioq byte ws e l c = rw (e, l, acquire_free cur ws, c) refl

pub putchar_queues :
    (cur u : ℕ) (ioq : IoQueue) (byte : ℕ) (ws : List ℕ)
    → ioq_full ioq ≡ true
    → ioq.lock ≡ held_lock u ws
    → u ≢ cur
    → elem_find ws cur ≡ false
    → ioq_putchar false cur ioq byte
      ≡ locked_out (record ioq { lock = held_lock u (list_append ws cur) })
unfolding ioq_putchar
putchar_queues cur u ioq byte ws e l other out = rw (e, l, acquire_held cur u ws other out) refl

-- With interrupts off, on a ring with both positions in the buffer, and in a task that neither has
-- the lock of the ring nor waits for it, `ioq_putchar` appends the byte and wakes the noted
-- consumer; with `bufsize - 1` bytes in the ring its task waits for the lock if another has it, and
-- else takes the lock and sleeps as the noted producer, or fails the ASSERT if one is noted
-- already.
pub ioq_putchar_lem :
    (cur : ℕ) (ioq : IoQueue) (byte : ℕ)
    → IsValid ioq
    → Ready cur ioq.lock
    → PutSpec cur ioq byte (ioq_putchar false cur ioq byte)
unfolding ioq_lenth
ioq_putchar_lem cur ioq byte v ready = elim (Bool-cases (ioq_full ioq)) [
  | inr e ↦ putchar_puts cur ioq byte v e
  | inl e ↦
      let full = length_full ioq v e in
      elim ready [
        | inl (ws, l) ↦ elim (Option-cases ioq.producer) [
          | inl p ↦ rw (putchar_waits cur ioq byte ws e l p) (full, p, (ws, l, refl))
          | inr (t, p) ↦ rw (putchar_fails cur t ioq byte ws e l p) (full, λ q. cc, (ws, l))
        ]
        | inr (u, ws, l, other, out) ↦
            rw (putchar_queues cur u ioq byte ws e l other out) (full, (u, ws, l, refl))
      ]
]

-- The spec at a queue where the call cannot sleep.
getchar_of_spec :
    (cur : ℕ) (ioq : IoQueue) (c : Call ℕ)
    → ioq_getchar false cur ioq ≡ c
    → GetSpec cur ioq c
    → 0 < length (contents ioq)
    → (byte : ℕ) × (ioq' : IoQueue) × (woken : List ℕ) × (ioq_getchar false cur ioq
        ≡ done byte ioq' woken)
      × (contents ioq ≡ byte ∷ contents ioq')
      × IsValid ioq'
getchar_of_spec cur ioq (done byte ioq' woken) e s some_left = (byte, ioq', woken, e, s.0, s.1)
getchar_of_spec cur ioq (sleeps ioq') e s some_left = absurd (omega (arith, ap length s.0))
getchar_of_spec cur ioq (locked_out ioq') e s some_left = absurd (omega (arith, ap length s.0))
getchar_of_spec cur ioq failed e s some_left = absurd (omega (arith, ap length s.0))

pub getchar_done :
    (cur : ℕ) (ioq : IoQueue)
    → IsValid ioq
    → 0 < length (contents ioq)
    → (byte : ℕ) × (ioq' : IoQueue) × (woken : List ℕ) × (ioq_getchar false cur ioq
        ≡ done byte ioq' woken)
      × (contents ioq ≡ byte ∷ contents ioq')
      × IsValid ioq'
getchar_done cur ioq v some_left =
    let e : ioq_empty ioq ≡ false = ground (arith, empty-lenth ioq v, length-contents ioq) in
    getchar_of_spec cur ioq (ioq_getchar false cur ioq) refl (getchar_takes cur ioq v e) some_left

putchar_of_spec :
    (cur : ℕ) (ioq : IoQueue) (byte : ℕ) (c : Call (Unit {0}))
    → ioq_putchar false cur ioq byte ≡ c
    → PutSpec cur ioq byte c
    → length (contents ioq) < bufsize - 1
    → (ioq' : IoQueue) × (woken : List ℕ) × (ioq_putchar false cur ioq byte ≡ done tt ioq' woken)
      × (contents ioq' ≡ contents ioq ++ (byte ∷ []))
      × IsValid ioq'
      × (ioq'.producer ≡ ioq.producer)
      × (ioq'.lock ≡ ioq.lock)
putchar_of_spec cur ioq byte (done _ ioq' woken) e s room = (ioq', woken, e, s.0, s.2, s.5, s.6)
putchar_of_spec cur ioq byte (sleeps ioq') e s room = absurd (omega (arith, s.0))
putchar_of_spec cur ioq byte (locked_out ioq') e s room = absurd (omega (arith, s.0))
putchar_of_spec cur ioq byte failed e s room = absurd (omega (arith, s.0))

pub putchar_done :
    (cur : ℕ) (ioq : IoQueue) (byte : ℕ)
    → IsValid ioq
    → length (contents ioq) < bufsize - 1
    → (ioq' : IoQueue) × (woken : List ℕ) × (ioq_putchar false cur ioq byte ≡ done tt ioq' woken)
      × (contents ioq' ≡ contents ioq ++ (byte ∷ []))
      × IsValid ioq'
      × (ioq'.producer ≡ ioq.producer)
      × (ioq'.lock ≡ ioq.lock)
putchar_done cur ioq byte v room =
    let e : ioq_full ioq ≡ false = ground (arith, full-lenth ioq v, length-contents ioq) in
    putchar_of_spec cur ioq byte (ioq_putchar false cur ioq byte) refl
      (putchar_puts cur ioq byte v e) room

pub putchar_sleeps :
    (cur : ℕ) (ioq : IoQueue) (byte : ℕ) (ws : List ℕ)
    → IsValid ioq
    → length (contents ioq) ≡ bufsize - 1
    → ioq.lock ≡ free_lock ws
    → ioq.producer ≡ none
    → (ioq' : IoQueue) × (ioq_putchar false cur ioq byte ≡ sleeps ioq')
      × (length (contents ioq') ≡ bufsize - 1)
      × (ioq'.producer ≡ some cur)
      × (ioq'.lock ≡ held_lock cur ws)
unfolding ioq_lenth
putchar_sleeps cur ioq byte ws v full l p =
    let e : ioq_full ioq ≡ true = ground (arith, full-lenth ioq v, length-contents ioq) in
    (
      record ioq { lock = held_lock cur ws; producer = some cur },
      putchar_waits cur ioq byte ws e l p,
      full,
      refl,
      refl,
    )
