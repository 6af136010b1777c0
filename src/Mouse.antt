-- ===== src/Mouse.antt =====
-- src/mouse.c: `MouseHandler`, and the drawing of the mouse cursor in src/display.c with the loop of
-- main.c that moves it. An `int` is its 32-bit pattern. Setup has the set-up of the controller.
pub mod Packet
pub mod Background
pub mod Setup
pub mod Handshake
mod Examples
use tartarus_hobby_os.Base.{
  ℕ, zero, suc, ◌-◌, ◌+◌, ◌^◌, ◌≤◌, ◌<◌, Bool, true, false, ◌&&◌, ◌||◌, not, List, [], ◌∷◌, ltb,
  leb, ◌==◌, if◌then◌else◌, bit_and, add32, sub32, is_neg32, get_or, set, for_range,
}
use tartarus_hobby_os.Display.{Screen, Pixels, index_of, plot}

-- The globals of src/mouse.c; `mouse_byte` holds bytes, read as signed where it matters.
pub record Mouse : Type 0 where
  pub x : ℕ
  pub y : ℕ
  pub prev_x : ℕ
  pub prev_y : ℕ
  pub moved : Bool
  pub cycle : ℕ
  pub bytes : List ℕ

-- An INT8 as an int.
abbrev pub sign_extend : ℕ → ℕ
sign_extend b = if ltb b 128 then b else 2 ^ 32 - 256 + b

-- The four tests that keep the position on the screen, in their order. The last two compare an int
-- with an unsigned number.
unfoldable pub clamp : ℕ → ℕ → Mouse → Mouse
clamp width height m =
    let m1 = if is_neg32 m.x then record m { x = 0 } else m in
    let m2 = if is_neg32 m1.y then record m1 { y = 0 } else m1 in
    let m3 = if leb (sub32 width 5) m2.x then record m2 { x = sub32 width 5 } else m2 in
    if leb (sub32 height 5) m3.y then record m3 { y = sub32 height 5 } else m3

-- A whole packet; one that reports an overflow of x or y is dropped.
unfoldable pub packet : ℕ → ℕ → Mouse → Mouse
packet width height m =
    if not (bit_and (get_or m.bytes 0 0) 0x80 == 0) || not (bit_and (get_or m.bytes 0 0) 0x40 == 0)
    then m
    else (let moved = record m {
      x = add32 m.x (sign_extend (get_or m.bytes 1 0));
      y = sub32 m.y (sign_extend (get_or m.bytes 2 0));
    } in
        let clamped = clamp width height moved in record clamped { moved = true })

-- `status` and `value` are what `inb(0x64)` and `inb(0x60)` read; the second part of the result is
-- the writes to ports, in order.
unfoldable pub mouse_handler : ℕ → ℕ → ℕ → ℕ → Mouse → Mouse × List (ℕ × ℕ)
mouse_handler width height status value m =
    if bit_and status 0x20 == 0
    then (m, (0x20, 0x20) ∷ (0xa0, 0x20) ∷ [])
    else (let read = record m { bytes = set m.bytes m.cycle value; cycle = m.cycle + 1 } in
        let done =
          if read.cycle == 3 then packet width height (record read { cycle = 0 }) else read in
        (done, (0xa0, 0x20) ∷ (0x20, 0x20) ∷ []))

-- `MouseBg`, by row and column.
abbrev pub Background : Type 0
Background = ℕ → ℕ → ℕ

unfoldable pub put : ℕ → ℕ → ℕ → Background → Background
put i j v bg k l = if (k == i) && (l == j) then v else bg k l

-- The test that guards every pixel of the cursor, at `x` and `y` plus the offsets.
abbrev pub visible : Screen → ℕ → ℕ → Bool
visible s x y = ltb y s.height && ltb x s.width

unfoldable pub save_mouse_bg : Mouse → Screen → Background → Background
save_mouse_bg m s bg =
    for_range 5 0
      (λ i b.
        for_range 5 0
          (λ j c.
            if visible s (add32 m.prev_x j) (add32 m.prev_y i)
            then put i j (s.pixel (index_of s.pitch (add32 m.prev_x j) (add32 m.prev_y i))) c
            else c)
          b)
      bg

unfoldable pub restore_mouse_bg : Mouse → Background → Screen → Pixels
restore_mouse_bg m bg s =
    for_range 5 0
      (λ i f.
        for_range 5 0
          (λ j g.
            if visible s (add32 m.prev_x j) (add32 m.prev_y i)
            then plot (index_of s.pitch (add32 m.prev_x j) (add32 m.prev_y i)) (bg i j) g
            else g)
          f)
      s.pixel

unfoldable pub draw_mouse_cursor : Mouse → Screen → Pixels
draw_mouse_cursor m s =
    for_range 5 0
      (λ i f.
        for_range 5 0
          (λ j g.
            if visible s (add32 m.x j) (add32 m.y i)
            then plot (index_of s.pitch (add32 m.x j) (add32 m.y i)) 0x00ff0000 g
            else g)
          f)
      s.pixel

-- What the main loop does when the mouse has moved.
unfoldable pub move_cursor : Mouse → Screen → Background → Mouse × Screen × Background
move_cursor m s bg =
    let clean = record s { pixel = restore_mouse_bg m bg s } in
    let here = record m { prev_x = m.x; prev_y = m.y } in
    let saved = save_mouse_bg here clean bg in
    (record here { moved = false }, record clean { pixel = draw_mouse_cursor here clean }, saved)

-- The body of the `while (1)` of `efi_main`, with the screen and the saved background.
unfoldable pub mouse_step : Mouse × Screen × Background → Mouse × Screen × Background
mouse_step (m, s, bg) = if m.moved then move_cursor m s bg else (m, s, bg)
