-- ===== src/Display.antt =====
-- src/display.c: drawing into the frame buffer, and the text cursor. A pixel is found by a 32-bit
-- index, computed as C does: `int` coordinates become unsigned when they meet the pitch.
mod Font
pub mod Cells
pub mod Scroll
pub mod Cursor
pub mod Lines
pub mod Print
mod Examples
use Font.{font}
use tartarus_hobby_os.Base.{
  ℕ, zero, suc, ◌+◌, ◌-◌, ◌^◌, ◌*◌, ◌%◌, bit_and, Bool, true, false, ◌&&◌, ◌||◌, not, List, [], ◌∷◌,
  ltb, leb, ◌==◌, if◌then◌else◌, add32, sub32, mul32, ◌<<<◌, for_range, replicate,
}
use tartarus_hobby_os.Text.{hex_to_string}

-- The globals of the display, and the cursor of src/shell.c. `frame_buffer` is the pointer, with 0
-- for NULL; `pixel` is the memory behind it.
pub record Screen : Type 0 where
  pub frame_buffer : ℕ
  pub pixel : ℕ → ℕ
  pub pitch : ℕ
  pub width : ℕ
  pub height : ℕ
  pub cursor_x : ℕ
  pub cursor_y : ℕ

abbrev pub Pixels : Type 0
Pixels = ℕ → ℕ

-- `y * pitch + x`.
abbrev pub index_of : ℕ → ℕ → ℕ → ℕ
index_of pitch x y = add32 (mul32 y pitch) x

-- `fb[i] = color`.
unfoldable pub plot : ℕ → ℕ → Pixels → Pixels
plot i color fb q = if q == i then color else fb q

unfoldable pub draw_line : ℕ → ℕ → ℕ → ℕ → ℕ → Pixels → Pixels
draw_line pitch x y line color fb =
    for_range 8 0
      (λ col f.
        if bit_and line (1 <<< (7 - col)) == 0
        then f
        else plot (index_of pitch (add32 x col) y) color f)
      fb

-- A `char` is signed, so the bytes from 128 up are negative.
unfoldable pub draw_char : ℕ → ℕ → ℕ → ℕ → ℕ → Pixels → Pixels
draw_char pitch x y c color fb =
    if ltb 127 c
    then fb
    else for_range 8 0 (λ row f. draw_line pitch x (add32 y row) (font c row) color f) fb

unfoldable pub draw_chars : ℕ → ℕ → ℕ → List ℕ → ℕ → Pixels → Pixels
draw_chars pitch cur_x y [] color fb = fb
draw_chars pitch cur_x y (c ∷ str) color fb =
    let rest = draw_chars pitch (add32 cur_x 8) y str color (draw_char pitch cur_x y c color fb) in
    if c == 0 then fb else rest

-- Every call of the program passes the globals `GlobalFrameBuffer` and `GlobalPitch`.
unfoldable pub draw_string : ℕ → ℕ → List ℕ → ℕ → Screen → Screen
draw_string x y str color s =
    if s.frame_buffer == 0 then s else record s { pixel = draw_chars s.pitch x y str color s.pixel }

-- The digits are made as in `HexToString`, in a local buffer of 19 bytes.
unfoldable pub draw_hex64 : ℕ → ℕ → ℕ → ℕ → Screen → Screen
draw_hex64 x y value color s = draw_string x y (hex_to_string value (replicate 19 0)) color s

unfoldable pub erase_char_block : ℕ → ℕ → ℕ → Pixels → Pixels
erase_char_block pitch x y fb =
    for_range 8 0
      (λ row f. for_range 8 0 (λ col g. plot (index_of pitch (add32 x col) (add32 y row)) 0 g) f) fb

unfoldable pub scroll_row : ℕ → ℕ → ℕ → Pixels → Pixels
scroll_row pitch width y fb =
    for_range width 0 (λ x f. plot (index_of pitch x (sub32 y 8)) (f (index_of pitch x y)) f) fb

unfoldable pub blank_row : ℕ → ℕ → ℕ → Pixels → Pixels
blank_row pitch width y fb = for_range width 0 (λ x f. plot (index_of pitch x y) 0 f) fb

-- A loop from `a` while below `b` makes `b - a` rounds, and none if `b` is below `a`.
unfoldable pub scroll_screen : Screen → Screen
scroll_screen s =
    let moved = for_range (s.height - 8) 8 (scroll_row s.pitch s.width) s.pixel in
    let first = sub32 s.height 8 in
    record s { pixel = for_range (s.height - first) first (blank_row s.pitch s.width) moved }

unfoldable pub update_cursor : Screen → Screen
update_cursor s =
    let s1 =
      if leb s.width s.cursor_x
      then record s { cursor_x = 0; cursor_y = add32 s.cursor_y 8 }
      else s in
    if leb s1.height s1.cursor_y
    then (let t = scroll_screen s1 in record t { cursor_y = sub32 t.cursor_y 8 })
    else s1

unfoldable pub clear_screen : Screen → Screen
clear_screen s = record s {
  pixel = for_range (mul32 s.pitch s.height) 0 (λ i f. plot i 0 f) s.pixel;
  cursor_x = 0;
  cursor_y = 0;
}
