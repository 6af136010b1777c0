-- ===== src/Shell/Parse.antt =====
-- The loops of `ExecuteCommand` that take the command line apart. `s` is the command line from the
-- index `i` on; the three buffers are filled with zeros before, so that a shorter text is followed
-- by its terminator.
use tartarus_hobby_os.Base.{ℕ, zero, suc, ◌||◌, List, [], ◌∷◌, ◌==◌, if◌then◌else◌}
use tartarus_hobby_os.Text.{head_char, next_char}

-- A text up to a space, of at most `room` characters, and what is left behind it.
unfoldable pub take_word : (room : ℕ) → List ℕ → List ℕ × List ℕ
take_word zero s = ([], s)
take_word (suc room) [] = ([], [])
take_word (suc room) (c ∷ s) =
    let rest = take_word room s in
    if (c == b' ') || (c == 0) then ([], c ∷ s) else (c ∷ rest.0, rest.1)

-- A text up to the end of the line.
unfoldable pub take_line : (room : ℕ) → List ℕ → List ℕ
take_line zero s = []
take_line (suc room) [] = []
take_line (suc room) (c ∷ s) = let rest = take_line room s in if c == 0 then [] else c ∷ rest

-- The second text and the third, which begin behind a space.
unfoldable pub take_arg1 : List ℕ → List ℕ × List ℕ
take_arg1 s = if head_char s == b' ' then take_word 63 (next_char s) else ([], s)

unfoldable pub take_arg2 : List ℕ → List ℕ
take_arg2 s = if head_char s == b' ' then take_line 63 (next_char s) else []

pub record Command : Type 0 where
  pub cmd : List ℕ
  pub arg1 : List ℕ
  pub arg2 : List ℕ

unfoldable pub parse : List ℕ → Command
parse command_buffer =
    let first = take_word 31 command_buffer in
    let second = take_arg1 first.1 in
    record { cmd = first.0; arg1 = second.0; arg2 = take_arg2 second.1 }
