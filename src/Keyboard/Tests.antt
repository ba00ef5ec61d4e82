-- ===== src/Keyboard/Tests.antt =====
-- Keys for device/keyboard.c.
use seeking_os.Prelude.{◌≡◌, refl, ◌≢◌, true, false, none, [], arith}
use mathlib.Core.Bool.{xor}
use seeking_os.IoQueue.{IoQueue}
use seeking_os.IoQueue.Locking.{free_lock}
use seeking_os.IoQueue.Contents.{IsValid}
use seeking_os.Keyboard.{Keyboard, char_of}
use seeking_os.Keyboard.Keymap.{keymap_at}
use seeking_os.Keyboard.Layout.{expected, char_of-eq-expected}

abbrev caps : Keyboard
caps = record {
  ctrl_status = false;
  shift_status = false;
  alt_status = false;
  caps_lock_status = true;
  ext_scancode = false;
}

abbrev kbd_buf : IoQueue
kbd_buf = record {
  lock = free_lock [];
  producer = none;
  consumer = none;
  buf = λ a. 0;
  head = 0;
  tail = 0;
}

kbd_buf-IsValid : IsValid kbd_buf
kbd_buf-IsValid = record { head_in = omega arith; tail_in = omega arith }

-- Scan code 0x1e is the key `a`.
upper_case : expected caps 0x1e ≡ b'A'
unfolding keymap_at xor
upper_case = refl

char_of-eq-expected_example : char_of caps 0x1e ≡ expected caps 0x1e
char_of-eq-expected_example = char_of-eq-expected caps 0x1e (omega arith)

types : expected caps 0x1e ≢ 0
types e = absurd (omega (arith, upper_case))
