-- ===== src/Display/Cursor.antt =====
-- `UpdateCursor` brings the cursor back onto the screen.
use tartarus_hobby_os.Base.{◌+◌, ◌≤◌, ◌<◌, ◌^◌, ◌⊎◌, arith}
use tartarus_hobby_os.Display.{Screen, scroll_screen, update_cursor}

abbrev pub OnScreen : Screen → Type 0
OnScreen s = (s.cursor_x < s.width) × (s.cursor_y < s.height)

-- From a position on the screen, after a step to the right past the edge or a line down,
-- `UpdateCursor` leaves the cursor on the screen. The first holds of a cursor in any column.
pub update_cursor-OnScreen :
    (s : Screen)
    → 0 < s.width
    → 8 ≤ s.height
    → s.height + 16 < 2 ^ 32
    → (s.cursor_y < s.height) ⊎ ((s.cursor_x < s.width) × (s.cursor_y < s.height + 8))
    → OnScreen (update_cursor s)
unfolding update_cursor scroll_screen
update_cursor-OnScreen s wide tall small near = ground arith
