-- ===== src/Shell.antt =====
-- src/shell.c: the prompt, and `ExecuteCommand`, which the keyboard calls on Enter. `fuel` bounds the
-- searches of the heap, and `rounds` the clusters of a file and the tables of a program.
pub mod Parse
pub mod Words
pub mod Commands
pub mod Run
pub mod Access
pub mod Clipboard
mod Examples
use Prim.Native.String.{String}
use Parse.{Command, parse}
use Commands.{
  Platform, read_address, write_address, crash, free_address, sysinfo, alloc_size, diskread, recon,
  pci, mem,
}
use tartarus_hobby_os.Base.{
  ℕ, ◌+◌, Bool, true, false, ◌||◌, Option, none, some, List, ◌==◌, if◌then◌else◌, add32, u32, codes,
}
use tartarus_hobby_os.Text.{strcmp, head_char, hex_to_int64, memset_custom}
use tartarus_hobby_os.Display.{Screen, update_cursor, clear_screen}
use tartarus_hobby_os.Display.Print.{label, down}
use tartarus_hobby_os.Machine.{Machine, M, pure, ◌>>=◌, ◌>>◌, gets, show}
use tartarus_hobby_os.Fat32.Report.{list_root_directory, autopsy_first_file}
use tartarus_hobby_os.Loader.{print_line, execute_first_file}

unfoldable pub print_prompt : Screen → Screen
print_prompt s =
    let named = label 0 "tartarus> " 0xaaaaaa s in
    record named { cursor_x = add32 named.cursor_x 80 }

-- `strcmp(cmd, "...") == 0`.
abbrev pub is_command : List ℕ → String → Bool
is_command cmd name = strcmp cmd (codes name) == 0

module _ {ℓ} {D : Type ℓ} where
  -- A command that goes on to the end.
  abbrev pub then_prompt : M D (Unit {0}) → M D Bool
  then_prompt f = f >> pure true

  -- A command that is refused with a line of its usage if an argument is empty.
  abbrev pub unless_empty : Bool → String → M D (Unit {0}) → M D (Unit {0})
  unless_empty is_empty usage f = if is_empty then print_line usage 0xff0000 else f

  -- `memset_custom(CommandBuffer, 0, 256); BufferIndex = 0; PrintPrompt();`
  unfoldable pub next_prompt : M D (Unit {0})
  next_prompt m = elim (memset_custom m.console.command_buffer 0 256) [
    | none ↦ none
    | some buffer ↦ some (
      tt,
      record m {
        console = record m.console {
          command_buffer = buffer;
          buffer_index = 0;
          screen = print_prompt m.console.screen;
        };
      },
    )
  ]

  unfoldable pub finish : Bool → M D (Unit {0})
  finish true = next_prompt
  finish false = pure tt

module _ {ℓ} {D : Type ℓ} (platform : Platform D) (fuel rounds : ℕ) where
  unfoldable pub run_command : Command → M D Bool
  run_command c =
      let ports = platform.host.ports in
      let no_arg1 = head_char c.arg1 == 0 in
      let no_arg2 = head_char c.arg2 == 0 in
      let n1 = hex_to_int64 c.arg1 in
      let n2 = hex_to_int64 c.arg2 in
      if is_command c.cmd "clear"
      then then_prompt (show clear_screen)
      else if is_command c.cmd "about"
      then then_prompt (print_line "Tartarus OS - Core Architecture" 0x00aa00)
      else if is_command c.cmd "sysinfo"
      then then_prompt (sysinfo platform)
      else if is_command c.cmd "ls"
      then then_prompt (list_root_directory ports fuel)
      else if is_command c.cmd "autopsy"
      then then_prompt (autopsy_first_file ports fuel rounds)
      else if is_command c.cmd "run"
      then then_prompt (execute_first_file platform.host fuel rounds)
      else if is_command c.cmd "read"
      then then_prompt (unless_empty no_arg1 "Usage: read <addr>" (read_address platform n1))
      else if is_command c.cmd "alloc"
      then then_prompt
          (unless_empty no_arg1 "Usage: alloc <hex_size>" (alloc_size platform fuel n1))
      else if is_command c.cmd "free"
      then then_prompt (unless_empty no_arg1 "Usage: free <addr>" (free_address n1))
      else if is_command c.cmd "diskread"
      then (if no_arg1
          then then_prompt (print_line "Usage: diskread <lba_sector>" 0xff0000)
          else diskread platform fuel (u32 n1))
      else if is_command c.cmd "write"
      then then_prompt (
          unless_empty (no_arg1 || no_arg2) "Usage: write <addr> <val>"
            (write_address platform n1 n2))
      else if is_command c.cmd "recon"
      then then_prompt (recon platform)
      else if is_command c.cmd "crash"
      then then_prompt (crash platform)
      else if is_command c.cmd "pci"
      then then_prompt (pci platform)
      else if is_command c.cmd "mem"
      then then_prompt (mem platform)
      else then_prompt (print_line "Unknown command." 0xff0000)

  unfoldable pub execute_command : M D (Unit {0})
  execute_command = do
    _ ← show (λ s. update_cursor (down 8 (record s { cursor_x = 0 })))
    buffer_index ← gets (λ m. m.console.buffer_index)
    command_buffer ← gets (λ m. m.console.command_buffer)
    if buffer_index == 0 then show print_prompt else run_command (parse command_buffer) >>= finish
