-- ===== src/Keyboard.antt =====
-- src/keyboard.c: `KeyboardHandler`, which edits the command line of src/shell.c. The scancode is
-- what `inb(0x60)` reads; writes to ports are kept in a list, the last one first.
pub mod Edit
pub mod Press
pub mod Laws
mod Examples
use tartarus_hobby_os.Base.{
  ℕ, zero, suc, ◌-◌, ◌+◌, Bool, true, false, ◌&&◌, ◌||◌, not, List, [], ◌∷◌, ltb, leb, ◌==◌,
  if◌then◌else◌, bit_and, add32, sub32, is_neg32, get_or, set, codes,
}
use mathlib.Core.Bool.{xor}
use tartarus_hobby_os.Display.{Screen, draw_char, update_cursor, erase_char_block}

-- The globals of the keyboard, the command line and the clipboard of the shell, and the screen.
pub record Console : Type 0 where
  pub caps_lock : Bool
  pub left_shift : Bool
  pub right_shift : Bool
  pub left_ctrl : Bool
  pub command_buffer : List ℕ
  pub buffer_index : ℕ
  pub clipboard : List ℕ
  pub screen : Screen
  pub port_writes : List (ℕ × ℕ)

-- `outb`.
abbrev pub outb : ℕ → ℕ → Console → Console
outb port val s = record s { port_writes = (port, val) ∷ s.port_writes }

abbrev pub scancode_map : List ℕ
scancode_map =
    0 ∷ 0 ∷ b'1' ∷ b'2' ∷ b'3' ∷ b'4' ∷ b'5' ∷ b'6' ∷ b'7' ∷ b'8' ∷ b'9' ∷ b'0' ∷ b'-' ∷ b'=' ∷ 0
    ∷ 0 ∷ b'q' ∷ b'w' ∷ b'e' ∷ b'r' ∷ b't' ∷ b'y' ∷ b'u' ∷ b'i' ∷ b'o' ∷ b'p' ∷ b'[' ∷ b']' ∷ 0 ∷ 0
    ∷ b'a' ∷ b's' ∷ b'd' ∷ b'f' ∷ b'g' ∷ b'h' ∷ b'j' ∷ b'k' ∷ b'l' ∷ b';' ∷ 39 ∷ b'`' ∷ 0 ∷ 92
    ∷ b'z' ∷ b'x' ∷ b'c' ∷ b'v' ∷ b'b' ∷ b'n' ∷ b'm' ∷ b',' ∷ b'.' ∷ b'/' ∷ 0 ∷ b'*' ∷ 0 ∷ b' ' ∷ []

-- A character at the cursor, and the cursor behind it.
unfoldable pub echo : ℕ → Screen → Screen
echo c s =
    let drawn = record s { pixel = draw_char s.pitch s.cursor_x s.cursor_y c 0x0000aa00 s.pixel } in
    update_cursor (record drawn { cursor_x = add32 drawn.cursor_x 8 })

-- What is done with a character while the buffer has room.
unfoldable pub store_char : ℕ → Console → Console
store_char c s = record s {
  command_buffer = set s.command_buffer s.buffer_index c;
  buffer_index = s.buffer_index + 1;
  screen = echo c s.screen;
}

-- The loop of the paste, with the rounds left of 63 and the clipboard from index `k` on.
unfoldable pub paste_loop : ℕ → List ℕ → Console → Console
paste_loop zero clip s = s
paste_loop (suc n) [] s = s
paste_loop (suc n) (c ∷ clip) s =
    let rest = paste_loop n clip (if ltb s.buffer_index 255 then store_char c s else s) in
    if c == 0 then s else rest

unfoldable pub step_back : Screen → Screen
step_back s =
    let left = sub32 s.cursor_x 8 in
    let moved =
      if is_neg32 left
      then record s { cursor_x = sub32 s.width 8; cursor_y = sub32 s.cursor_y 8 }
      else record s { cursor_x = left } in
    record moved { pixel = erase_char_block moved.pitch moved.cursor_x moved.cursor_y moved.pixel }

unfoldable pub backspace : Console → Console
backspace s =
    if ltb 0 s.buffer_index
    then (let i = s.buffer_index - 1 in
        record s {
          command_buffer = set s.command_buffer i 0;
          buffer_index = i;
          screen = step_back s.screen;
        })
    else s

-- The letter that a key gives under the modifiers.
unfoldable pub shifted : Console → ℕ → ℕ
shifted s ascii =
    if leb b'a' ascii && (leb ascii b'z') && xor s.caps_lock (s.left_shift || s.right_shift)
    then ascii - 32
    else ascii

unfoldable pub type_key : ℕ → Console → Console
type_key scancode s =
    let ascii = get_or scancode_map scancode 0 in
    if not (ascii == 0) && ltb s.buffer_index 255 then store_char (shifted s ascii) s else s

unfoldable pub release_key : ℕ → Console → Console
release_key released s =
    let s1 = if released == 0x2a then record s { left_shift = false } else s in
    let s2 = if released == 0x36 then record s1 { right_shift = false } else s1 in
    if released == 0x1d then record s2 { left_ctrl = false } else s2

-- `execute_command` is `ExecuteCommand` of src/shell.c, as it acts on this state.
unfoldable pub press_key : (Console → Console) → ℕ → Console → Console
press_key execute_command scancode s =
    if scancode == 0x3a
    then record s { caps_lock = not s.caps_lock }
    else if scancode == 0x2a
    then record s { left_shift = true }
    else if scancode == 0x36
    then record s { right_shift = true }
    else if scancode == 0x1d
    then record s { left_ctrl = true }
    else if (scancode == 0x2f) && s.left_ctrl
    then paste_loop 63 s.clipboard s
    else if scancode == 0x0e
    then backspace s
    else if scancode == 0x1c
    then execute_command (record s { command_buffer = set s.command_buffer s.buffer_index 0 })
    else if ltb scancode 58
    then type_key scancode s
    else s

unfoldable pub keyboard_handler : (Console → Console) → ℕ → Console → Console
keyboard_handler execute_command scancode s = outb 0x20 0x20 (
    if bit_and scancode 0x80 == 0
    then press_key execute_command scancode s
    else release_key (bit_and scancode 0x7f) s)
