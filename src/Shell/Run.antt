-- ===== src/Shell/Run.antt =====
-- From a typed line to the next prompt.
use tartarus_hobby_os.Base.{
  ℕ, zero, suc, ◌-◌, ◌<◌, ◌≡◌, refl, ◌∙◌, arith, true, false, some, List, [], ◌∷◌, ◌++◌, length,
  length-append, length-replicate, replicate, ◌==◌,
}
use tartarus_hobby_os.Text.{memset_custom}
use tartarus_hobby_os.Display.{update_cursor}
use tartarus_hobby_os.Display.Print.{down}
use tartarus_hobby_os.Keyboard.{Console}
use tartarus_hobby_os.Keyboard.Edit.{IsEditing}
use tartarus_hobby_os.Machine.{Machine, ◌>>=◌}
use tartarus_hobby_os.Machine.Laws.{bind-some}
use tartarus_hobby_os.Shell.Parse.{Command, parse}
use tartarus_hobby_os.Shell.Words.{IsTyped, spell, spell_args, parse-spell}
use tartarus_hobby_os.Shell.Commands.{Platform}
use tartarus_hobby_os.Shell.{next_prompt, finish, print_prompt, run_command, execute_command}

memset_custom-whole :
    (n v : ℕ) (dest : List ℕ) → length dest ≡ n → memset_custom dest v n ≡ some (replicate n v)
unfolding memset_custom
memset_custom-whole zero v [] e = refl
memset_custom-whole zero v (d ∷ dest) e = absurd (omega arith)
memset_custom-whole (suc n) v [] e = absurd (omega arith)
memset_custom-whole (suc n) v (d ∷ dest) e = rw (memset_custom-whole n v dest (omega arith)) refl

positive-nonzero : (n : ℕ) → 0 < n → (n == 0) ≡ false
positive-nonzero n h = ground arith

-- The line that `ExecuteCommand` starts.
abbrev pub at_line {ℓ} : {D : Type ℓ} → Machine D → Machine D
at_line m = record m {
  console = record m.console {
    screen = update_cursor (down 8 (record m.console.screen { cursor_x = 0 }));
  };
}

-- With the command line empty and a prompt on the screen.
abbrev pub at_prompt {ℓ} : {D : Type ℓ} → Machine D → Machine D
at_prompt m = record m {
  console = record m.console {
    command_buffer = replicate 256 0;
    buffer_index = 0;
    screen = print_prompt m.console.screen;
  };
}

pub IsEditing-length :
    (s : Console) (line : List ℕ) → IsEditing s line → length s.command_buffer ≡ 256
IsEditing-length s line is = rw is.buffer (
    omega (
      arith,
      length-append line (replicate (256 - length line) 0),
      length-replicate {A = ℕ} (256 - length line) 0,
      is.room,
    ))

module _ {ℓ} {D : Type ℓ} where
  next_prompt-whole :
      (m : Machine D)
      → length m.console.command_buffer ≡ 256
      → next_prompt m ≡ some (tt, at_prompt m)
  unfolding next_prompt
  next_prompt-whole m whole =
      rw (next_prompt, memset_custom-whole 256 0 m.console.command_buffer whole) refl

  pub at_prompt-IsEditing : (m : Machine D) → IsEditing (at_prompt m).console []
  at_prompt-IsEditing m = record { buffer = refl; index = refl; room = omega arith; text = tt }

module _ {ℓ} {D : Type ℓ} (platform : Platform D) (fuel rounds : ℕ) (m : Machine D) (c : Command)
    (typed : IsTyped c) (some_cmd : 0 < length c.cmd) (is : IsEditing m.console (spell c)) where
  execute_command-parsed :
      execute_command platform fuel rounds m
      ≡ (run_command platform fuel rounds c >>= finish) (at_line m)
  unfolding execute_command
  execute_command-parsed =
      let line = spell c in
      let fill : 256 - length line ≡ suc (255 - length line) = omega (arith, is.room) in
      let held : m.console.command_buffer ≡ line ++ 0 ∷ replicate (255 - length line) 0 =
        is.buffer ∙ rw fill refl in
      let parsed : parse m.console.command_buffer ≡ c = rw held (parse-spell c _ typed) in
      let long : 0 < m.console.buffer_index =
        omega (arith, is.index, length-append c.cmd (spell_args c.arg1 c.arg2), some_cmd) in
      let typing : (m.console.buffer_index == 0) ≡ false =
        positive-nonzero m.console.buffer_index long in
      rw (typing, parsed) refl

  -- A command that comes to its end, with the command line still as long as it was.
  pub execute_command-ends :
      (m1 : Machine D)
      → run_command platform fuel rounds c (at_line m) ≡ some (true, m1)
      → length m1.console.command_buffer ≡ 256
      → execute_command platform fuel rounds m ≡ some (tt, at_prompt m1)
  unfolding finish
  execute_command-ends m1 e whole =
      execute_command-parsed
      ∙ bind-some (run_command platform fuel rounds c) finish (at_line m) true m1 e
      ∙ next_prompt-whole m1 whole
