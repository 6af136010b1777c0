-- ===== src/Display/Print.antt =====
-- Printing at the text cursor.
use Prim.Native.String.{String}
use tartarus_hobby_os.Base.{ℕ, List, add32, codes}
use tartarus_hobby_os.Display.{Screen, draw_string}

-- A text at a distance to the right of the cursor.
abbrev pub say : ℕ → List ℕ → ℕ → Screen → Screen
say dx str color s = draw_string (add32 s.cursor_x dx) s.cursor_y str color s

abbrev pub label : ℕ → String → ℕ → Screen → Screen
label dx str color s = say dx (codes str) color s

abbrev pub down : ℕ → Screen → Screen
down n s = record s { cursor_y = add32 s.cursor_y n }
