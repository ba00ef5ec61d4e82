-- ===== src/Keyboard/Typing.antt =====
-- What the keyboard's interrupts do to its buffer and its flags.
use seeking_os.Prelude.{
  ℕ, ◌-◌, ◌<◌, ◌≡◌, refl, ◌⊎◌, inl, inr, ◌≢◌, ◌∙◌, all_below, all_below_sound, true, false, ◌&&◌,
  ◌||◌, List, [], ◌∷◌, ◌++◌, arith, length, bit_and, bit_or, ◌==◌, Bool-cases, ltb,
}
use seeking_os.IoQueue.{IoQueue, Call, done, bufsize, ioq_full}
use seeking_os.IoQueue.Contents.{IsValid, contents, putchar_done, length_full, length_not_full}
use seeking_os.Keyboard.Layout.{expected, char_of-eq-expected}
use seeking_os.Keyboard.{
  Keyboard, char_of, modifier_down, key_up, enqueue, key_down, scanned, intr_keyboard_handler,
}

-- The buffer has got the character, or is full and as it was.
abbrev pub Typed : IoQueue → ℕ → IoQueue → Type 0
Typed q c q' =
    IsValid q'
    × ((contents q' ≡ contents q ++ (c ∷ [])) ⊎ ((length (contents q) ≡ bufsize - 1) × (q' ≡ q)))

enqueue_lem :
    (cur : ℕ) (kb : Keyboard) (q : IoQueue) (c : ℕ)
    → IsValid q
    → (q' : IoQueue) × (woken : List ℕ) × (enqueue cur kb q c ≡ done kb q' woken) × Typed q c q'
unfolding enqueue
enqueue_lem cur kb q c v = elim (Bool-cases (ioq_full q)) [
  | inl full ↦ (q, [], rw full, (v, inr (length_full q v full, refl)))
  | inr room ↦
      let (q', w, put, back, v', p, l) = putchar_done cur q c v (length_not_full q v room) in
      (q', w, rw (room, put), (v', inl back))
]

-- What one interrupt may do: no character or one, which is not 0.
pub record Kept (q : IoQueue) (c : Call Keyboard) : Type 0 where
  pub kb : Keyboard
  pub queue : IoQueue
  pub woken : List ℕ
  pub ran : c ≡ done kb queue woken
  pub typed : (queue ≡ q) ⊎ ((char : ℕ) × (char ≢ 0) × Typed q char queue)

key_down-Kept :
    (cur : ℕ) (kb : Keyboard) (q : IoQueue) (sc : ℕ) → IsValid q → Kept q (key_down cur kb q sc)
unfolding key_down
key_down-Kept cur kb q sc v =
    elim (Bool-cases ((ltb 0 sc && ltb sc 59) || sc == 57400 || sc == 57373)) [
      | inl known ↦ elim (Bool-cases (char_of kb sc == 0)) [
        | inl silent ↦ record {
          kb = modifier_down kb sc;
          queue = q;
          woken = [];
          ran = rw (known, silent);
          typed = inl refl;
        }
        | inr char ↦
            let (q', w, ran, t) = enqueue_lem cur kb q (char_of kb sc) v in
            record {
              kb = kb;
              queue = q';
              woken = w;
              ran = rw (known, char) ran;
              typed = inr (char_of kb sc, ground arith, t);
            }
      ]
      | inr unknown ↦ record { kb = kb; queue = q; woken = []; ran = rw unknown; typed = inl refl }
    ]

scanned-Kept :
    (cur : ℕ) (kb : Keyboard) (q : IoQueue) (sc : ℕ) → IsValid q → Kept q (scanned cur kb q sc)
unfolding scanned
scanned-Kept cur kb q sc v = elim (Bool-cases (bit_and sc 0x0080 == 0)) [
  | inl down ↦ rw down (key_down-Kept cur kb q sc v)
  | inr up ↦ record { kb = key_up kb sc; queue = q; woken = []; ran = rw up; typed = inl refl }
]

-- On a valid buffer the handler returns for every scan code: it never sleeps and fails no ASSERT,
-- and it leaves the buffer alone or types one character, which is not 0 and is dropped only if the
-- buffer is full.
pub intr_keyboard_handler-Kept :
    (cur : ℕ) (kb : Keyboard) (q : IoQueue) (sc : ℕ)
    → IsValid q
    → Kept q (intr_keyboard_handler cur kb q sc)
unfolding intr_keyboard_handler
intr_keyboard_handler-Kept cur kb q sc v = elim (Bool-cases (sc == 0xe0)) [
  | inl prefix ↦ rw prefix (record {
    kb = record kb { ext_scancode = true };
    queue = q;
    woken = [];
    ran = refl;
    typed = inl refl;
  })
  | inr code ↦ elim (Bool-cases kb.ext_scancode) [
    | inl ext ↦
        rw (code, ext)
          (scanned-Kept cur (record kb { ext_scancode = false }) q (bit_or 0xe000 sc) v)
    | inr plain ↦ simp (code, plain) (scanned-Kept cur kb q sc v)
  ]
]

down_table : all_below 0x3b (λ sc. bit_and sc 0x0080 == 0) ≡ true
unfolding all_below
down_table = refl

handler_plain :
    (cur : ℕ) (kb : Keyboard) (q : IoQueue) (sc : ℕ)
    → kb.ext_scancode ≡ false
    → sc < 0x3b
    → intr_keyboard_handler cur kb q sc ≡ key_down cur kb q sc
unfolding intr_keyboard_handler scanned
handler_plain cur kb q sc plain lt =
    let down = all_below_sound 0x3b (λ sc. bit_and sc 0x0080 == 0) sc down_table lt in
    let code : (sc == 0xe0) ≡ false = ground arith in simp (code, plain) (rw down)

key_down_char :
    (cur : ℕ) (kb : Keyboard) (q : IoQueue) (sc : ℕ)
    → 0 < sc
    → sc < 0x3b
    → char_of kb sc ≢ 0
    → key_down cur kb q sc ≡ enqueue cur kb q (char_of kb sc)
unfolding key_down
key_down_char cur kb q sc pos lt some_char =
    let low : ltb 0 sc ≡ true = ground arith in
    let high : ltb sc 59 ≡ true = ground arith in
    let char : (char_of kb sc == 0) ≡ false = ground arith in rw (low, high, char)

-- On a valid buffer, a key of the table that goes down, with no prefix pending and a character that
-- is not 0, types that character of the layout and leaves the flags.
pub key_types :
    (cur : ℕ) (kb : Keyboard) (q : IoQueue) (sc : ℕ)
    → IsValid q
    → kb.ext_scancode ≡ false
    → 0 < sc
    → sc < 0x3b
    → expected kb sc ≢ 0
    → (q' : IoQueue) × (woken : List ℕ) × (intr_keyboard_handler cur kb q sc ≡ done kb q' woken)
      × Typed q (expected kb sc) q'
key_types cur kb q sc v plain pos lt some_char =
    let (q', w, ran, t) = enqueue_lem cur kb q (expected kb sc) v in
    let char : char_of kb sc ≡ expected kb sc = char_of-eq-expected kb sc lt in
    (
      q',
      w,
      handler_plain cur kb q sc plain lt
          ∙ key_down_char cur kb q sc pos lt (rw char some_char)
          ∙ rw char ran,
      t,
    )
