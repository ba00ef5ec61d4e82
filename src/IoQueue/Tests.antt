-- ===== src/IoQueue/Tests.antt =====
-- Rings for device/ioqueue.c.
use seeking_os.Prelude.{◌%◌, ◌≡◌, refl, false, none, some, [], ◌∷◌, arith, inl}
use seeking_os.Sync.{lock_init, sema_init}
use seeking_os.IoQueue.{IoQueue, ioqueue_init, ioq_getchar, ioq_putchar, ioq_lenth}
use seeking_os.IoQueue.Locking.{free_lock, held_lock}
use seeking_os.IoQueue.Contents.{
  IsValid, contents, GetSpec, PutSpec, ioq_getchar_lem, ioq_putchar_lem,
}

-- Two bytes, one on each side of the end of the buffer
abbrev wrapped : IoQueue
wrapped = record {
  lock = free_lock [];
  producer = none;
  consumer = none;
  buf = λ a. a % 256;
  head = 1;
  tail = 2047;
}

wrapped-IsValid : IsValid wrapped
wrapped-IsValid = record { head_in = omega arith; tail_in = omega arith }

holds_two : contents wrapped ≡ 255 ∷ 0 ∷ []
unfolding ioq_lenth
holds_two = refl

init_free : (ioqueue_init wrapped).lock ≡ free_lock []
unfolding ioqueue_init lock_init sema_init
init_free = refl

ioq_getchar_lem_example : GetSpec 7 wrapped (ioq_getchar false 7 wrapped)
ioq_getchar_lem_example = ioq_getchar_lem 7 wrapped wrapped-IsValid (inl ([], refl))

ioq_putchar_lem_example : PutSpec 7 wrapped 65 (ioq_putchar false 7 wrapped 65)
ioq_putchar_lem_example = ioq_putchar_lem 7 wrapped 65 wrapped-IsValid (inl ([], refl))

-- An empty ring whose consumer, task 4, sleeps
abbrev awaited : IoQueue
awaited = record wrapped { lock = held_lock 4 []; consumer = some 4; head = 0; tail = 0 }
