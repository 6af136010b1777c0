-- ===== src/Display/Lines.antt =====
-- Sequences of `DrawString` and `DrawHex64`, as the reports of the program make them.
use Prim.Native.String.{String}
use tartarus_hobby_os.Base.{ℕ, List, [], ◌∷◌, codes}
use tartarus_hobby_os.Display.{Screen, draw_string, draw_hex64}

-- A call of `DrawString` with a literal or a text, or a call of `DrawHex64`: x, y, what, color.
pub data Line : Type 0 where
  label : ℕ → ℕ → String → ℕ → Line
  text : ℕ → ℕ → List ℕ → ℕ → Line
  number : ℕ → ℕ → ℕ → ℕ → Line

unfoldable pub draw_line_of : Line → Screen → Screen
draw_line_of (label x y str color) s = draw_string x y (codes str) color s
draw_line_of (text x y str color) s = draw_string x y str color s
draw_line_of (number x y value color) s = draw_hex64 x y value color s

unfoldable pub draw_lines : List Line → Screen → Screen
draw_lines [] s = s
draw_lines (l ∷ ls) s = draw_lines ls (draw_line_of l s)
