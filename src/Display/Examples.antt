-- ===== src/Display/Examples.antt =====
-- The theorems on the display at a concrete screen.
use tartarus_hobby_os.Base.{◌+◌, ◌*◌, ◌≡◌, inr, arith, ltb, if◌then◌else◌}
use tartarus_hobby_os.Display.{Screen, scroll_screen, update_cursor}
use tartarus_hobby_os.Display.Scroll.{IsSound, scroll_screen_lem}
use tartarus_hobby_os.Display.Cells.{pixel_at}
use tartarus_hobby_os.Display.Cursor.{OnScreen, update_cursor-OnScreen}

-- 40 by 24 pixels in rows of 64, the cursor below the last line.
abbrev small : Screen
small = record {
  frame_buffer = 0x8000_0000;
  pixel = λ q. q * 3;
  pitch = 64;
  width = 40;
  height = 24;
  cursor_x = 8;
  cursor_y = 24;
}

small-IsSound : IsSound small
small-IsSound = record {
  row_fits = omega arith;
  fits = omega arith;
  height_fits = omega arith;
  has_rows = omega arith;
}

scroll_screen_lem_example :
    pixel_at 64 (scroll_screen small).pixel 5 7
    ≡ (if ltb (5 + 8) 24 then pixel_at 64 small.pixel (5 + 8) 7 else 0)
scroll_screen_lem_example = scroll_screen_lem small 5 7 small-IsSound (omega arith) (omega arith)

update_cursor-OnScreen_example : OnScreen (update_cursor small)
update_cursor-OnScreen_example =
    update_cursor-OnScreen small (omega arith) (omega arith) (omega arith)
      (inr (omega arith, omega arith))
