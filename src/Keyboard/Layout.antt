-- ===== src/Keyboard/Layout.antt =====
-- Which character a key stands for.
use seeking_os.Prelude.{
  ℕ, ◌-◌, ◌<◌, ◌≡◌, refl, Bool, true, false, ◌&&◌, ◌||◌, ◌==◌, eq-of_==, leb, if◌then◌else◌,
  all_below, all_below_sound,
}
use mathlib.Core.Bool.{xor}
use seeking_os.Keyboard.Keymap.{keymap_at}
use seeking_os.Keyboard.{Keyboard, char_of}

abbrev pub is_letter : ℕ → Bool
is_letter c = leb b'a' c && leb c b'z'

-- A letter is upper case where exactly one of shift and caps lock is on; for other keys only shift
-- counts. With ctrl, `l` and `u` become control characters.
abbrev pub expected : Keyboard → ℕ → ℕ
expected kb scancode =
    let plain = keymap_at scancode false in
    if is_letter plain
    then (if xor kb.shift_status kb.caps_lock_status
        then plain - 32
        else if kb.ctrl_status && (plain == b'l' || plain == b'u')
        then plain - b'a'
        else plain)
    else keymap_at scancode kb.shift_status

agrees : Bool → Bool → Bool → Bool → Bool → ℕ → Bool
agrees c s a l e scancode =
    let kb : Keyboard = record {
      ctrl_status = c;
      shift_status = s;
      alt_status = a;
      caps_lock_status = l;
      ext_scancode = e;
    } in
    char_of kb scancode == expected kb scancode

table : (c s a l e : Bool) → all_below 0x3b (agrees c s a l e) ≡ true
unfolding all_below agrees char_of keymap_at xor
table false false a false e = refl
table false false a true e = refl
table false true a false e = refl
table false true a true e = refl
table true false a false e = refl
table true false a true e = refl
table true true a false e = refl
table true true a true e = refl

-- Each key of the table stands for its character of the layout: letters in upper case where exactly
-- one of shift and caps lock is on, other keys by shift alone, and `l` and `u` with ctrl as control
-- characters.
pub char_of-eq-expected :
    (kb : Keyboard) (scancode : ℕ) → scancode < 0x3b → char_of kb scancode ≡ expected kb scancode
unfolding agrees
char_of-eq-expected kb scancode h =
    let t =
      table kb.ctrl_status kb.shift_status kb.alt_status kb.caps_lock_status kb.ext_scancode in
    eq-of_== _ _ (
      all_below_sound 0x3b
        (agrees kb.ctrl_status kb.shift_status kb.alt_status kb.caps_lock_status kb.ext_scancode)
        scancode t h)
