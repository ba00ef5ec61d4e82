-- ===== src/Keyboard.antt =====
-- device/keyboard.c: the handler of the keyboard interrupt.
-- `inb(KBD_BUF_PORT)` is the argument `scancode`, a byte; the message for an unknown key is left out.
pub mod Keymap
pub mod Layout
pub mod Typing
mod Tests
use seeking_os.Prelude.{
  ℕ, ◌-◌, Bool, true, false, not, ◌&&◌, ◌||◌, [], bit_and, bit_or, ◌==◌, ltb, if◌then◌else◌,
}
use seeking_os.IoQueue.{IoQueue, Call, done, sleeps, locked_out, failed, ioq_full, ioq_putchar}
use Keymap.{
  keymap_at, ctrl_l_make, ctrl_r_make, shift_l_make, shift_r_make, alt_l_make, alt_r_make,
  caps_lock_make,
}

-- The static variables
pub record Keyboard : Type 0 where
  pub ctrl_status : Bool
  pub shift_status : Bool
  pub alt_status : Bool
  pub caps_lock_status : Bool
  pub ext_scancode : Bool

abbrev pub is_ctrl : ℕ → Bool
is_ctrl code = code == ctrl_l_make || code == ctrl_r_make

abbrev pub is_shift : ℕ → Bool
is_shift code = code == shift_l_make || code == shift_r_make

abbrev pub is_alt : ℕ → Bool
is_alt code = code == alt_l_make || code == alt_r_make

-- The branch of a key that goes up
unfoldable pub key_up : Keyboard → ℕ → Keyboard
key_up kb scancode =
    let make_code = bit_and scancode 0xff7f in
    if is_ctrl make_code
    then record kb { ctrl_status = false }
    else if is_shift make_code
    then record kb { shift_status = false }
    else if is_alt make_code
    then record kb { alt_status = false }
    else kb

-- The keys with two characters, for which only shift counts
unfoldable pub two_chars : ℕ → Bool
two_chars scancode =
    ltb scancode 0x0e
    || scancode == 0x29
    || scancode == 0x1a
    || scancode == 0x1b
    || scancode == 0x34
    || scancode == 0x2b
    || scancode == 0x27
    || scancode == 0x28
    || scancode == 0x33
    || scancode == 0x35

unfoldable pub shifted : Bool → Bool → ℕ → Bool
unfolding two_chars
shifted shift_down_last caps_lock_last scancode =
    if two_chars scancode
    then (if shift_down_last then true else false)
    else if shift_down_last && caps_lock_last
    then false
    else if shift_down_last || caps_lock_last
    then true
    else false

-- `cur_char`, with ctrl+l and ctrl+u made control characters
unfoldable pub char_of : Keyboard → ℕ → ℕ
unfolding shifted
char_of kb scancode =
    let index = bit_and scancode 0x00ff in
    let cur_char = keymap_at index (shifted kb.shift_status kb.caps_lock_status scancode) in
    if (kb.ctrl_status && cur_char == b'l') || (kb.ctrl_status && cur_char == b'u')
    then cur_char - b'a'
    else cur_char

-- What a key down does to the flags, if it stands for no character
unfoldable pub modifier_down : Keyboard → ℕ → Keyboard
modifier_down kb scancode =
    if is_ctrl scancode
    then record kb { ctrl_status = true }
    else if is_shift scancode
    then record kb { shift_status = true }
    else if is_alt scancode
    then record kb { alt_status = true }
    else if scancode == caps_lock_make
    then record kb { caps_lock_status = not kb.caps_lock_status }
    else kb

-- `if (!ioq_full(&kbd_buf)) ioq_putchar(&kbd_buf, cur_char);` and the return
unfoldable pub enqueue : ℕ → Keyboard → IoQueue → ℕ → Call Keyboard
enqueue cur kb kbd_buf cur_char =
    if not (ioq_full kbd_buf)
    then elim (ioq_putchar false cur kbd_buf cur_char) [
      | done _ kbd_buf' woken ↦ done kb kbd_buf' woken
      | sleeps kbd_buf' ↦ sleeps kbd_buf'
      | locked_out kbd_buf' ↦ locked_out kbd_buf'
      | failed ↦ failed
    ]
    else done kb kbd_buf []

-- The branch of a key that goes down
unfoldable pub key_down : ℕ → Keyboard → IoQueue → ℕ → Call Keyboard
key_down cur kb kbd_buf scancode =
    if (ltb 0x00 scancode && ltb scancode 0x3b) || scancode == alt_r_make || scancode == ctrl_r_make
    then (let cur_char = char_of kb scancode in
        if not (cur_char == 0)
        then enqueue cur kb kbd_buf cur_char
        else done (modifier_down kb scancode) kbd_buf [])
    else done kb kbd_buf []

-- The handler behind the test for the prefix 0xe0
unfoldable pub scanned : ℕ → Keyboard → IoQueue → ℕ → Call Keyboard
scanned cur kb kbd_buf scancode =
    if not (bit_and scancode 0x0080 == 0)
    then done (key_up kb scancode) kbd_buf []
    else key_down cur kb kbd_buf scancode

unfoldable pub intr_keyboard_handler : ℕ → Keyboard → IoQueue → ℕ → Call Keyboard
intr_keyboard_handler cur kb kbd_buf scancode =
    if scancode == 0xe0
    then done (record kb { ext_scancode = true }) kbd_buf []
    else if kb.ext_scancode
    then scanned cur (record kb { ext_scancode = false }) kbd_buf (bit_or 0xe000 scancode)
    else scanned cur kb kbd_buf scancode
