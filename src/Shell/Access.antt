-- ===== src/Shell/Access.antt =====
-- The command `write`, as it is typed.
use tartarus_hobby_os.Base.{
  ℕ, ◌+◌, ◌*◌, ◌%◌, ◌^◌, ◌≤◌, ◌<◌, ◌≡◌, ◌≢◌, ◌⊎◌, refl, arith, true, false, Option, some, List, [],
  ◌∷◌, length, ◌==◌, codes,
}
use tartarus_hobby_os.Text.{strcmp, hex_to_int64}
use tartarus_hobby_os.Display.{update_cursor}
use tartarus_hobby_os.Display.Print.{label, down}
use tartarus_hobby_os.Keyboard.Edit.{IsEditing}
use tartarus_hobby_os.Ram.{store64, load64}
use tartarus_hobby_os.Ram.Laws.{load64-store64, store64-same}
use tartarus_hobby_os.Machine.{Machine, pure}
use tartarus_hobby_os.Machine.Laws.{bind-some}
use tartarus_hobby_os.Shell.Parse.{Command}
use tartarus_hobby_os.Shell.Words.{IsTyped, IsWord, IsText, spell}
use tartarus_hobby_os.Shell.Commands.{Platform, reach, announce_write, write_address}
use tartarus_hobby_os.Shell.{run_command, execute_command}
use tartarus_hobby_os.Shell.Run.{
  at_line, at_prompt, at_prompt-IsEditing, IsEditing-length, execute_command-ends,
}

abbrev pub write_command : List ℕ → List ℕ → Command
write_command address value = record { cmd = codes "write"; arg1 = address; arg2 = value }

-- The pages map the first eight gigabytes to themselves, as those of `SetupPaging` do.
abbrev pub MapsItself : (ℕ → Option ℕ) → Type 0
MapsItself pages = (va : ℕ) → va < 2 ^ 33 → pages va ≡ some va

pub nonzero : (a : ℕ) → a ≢ 0 → (a == 0) ≡ false
nonzero a h = ground (arith, h)

-- What `write` does to the memory and the screen.
abbrev written {ℓ} : {D : Type ℓ} → (target_addr write_val : ℕ) → Machine D → Machine D
written target_addr write_val m = record m {
  ram = store64 target_addr write_val m.ram;
  console = record m.console {
    screen = update_cursor (
        down 8 (
          label 0 "Write successful." 0x00aa00
            (announce_write target_addr write_val m.console.screen)));
  };
}

module _ {ℓ} {D : Type ℓ} (platform : Platform D) where
  write_address-mapped :
      (target_addr write_val : ℕ) (m : Machine D)
      → MapsItself platform.pages
      → target_addr + 8 ≤ 8 * 2 ^ 30
      → write_address platform target_addr write_val m ≡ some (tt, written target_addr write_val m)
  unfolding write_address reach
  write_address-mapped target_addr write_val m maps mapped =
      let first : platform.pages target_addr ≡ some target_addr = maps _ (omega (arith, mapped)) in
      let last : platform.pages (target_addr + 7) ≡ some (target_addr + 7) =
        maps _ (omega (arith, mapped)) in
      rw (write_address, reach, first, last) refl

module _ {ℓ} {D : Type ℓ} (platform : Platform D) (fuel rounds : ℕ) where
  run_command-write :
      (a v : ℕ) (address value : List ℕ) (m m1 : Machine D)
      → IsWord (a ∷ address)
      → IsText (v ∷ value)
      → write_address platform (hex_to_int64 (a ∷ address)) (hex_to_int64 (v ∷ value)) m
        ≡ some (tt, m1)
      → run_command platform fuel rounds (write_command (a ∷ address) (v ∷ value)) m
        ≡ some (true, m1)
  unfolding run_command strcmp
  run_command-write a v address value m m1 is is' e =
      rw (run_command, nonzero a is.0, nonzero v is'.0)
        (bind-some (write_address platform (hex_to_int64 (a ∷ address)) (hex_to_int64 (v ∷ value)))
          (λ u. pure true) m tt m1 e)

  -- `write`, typed with two arguments and an address of the first eight gigabytes, which the pages map to
  -- themselves, comes to the next prompt, and
  -- has put the value of the second argument at the address of the first and nothing elsewhere.
  pub execute_command-write :
      (address value : List ℕ) (m : Machine D)
      → 0 < length address
      → 0 < length value
      → MapsItself platform.pages
      → IsTyped (write_command address value)
      → IsEditing m.console (spell (write_command address value))
      → hex_to_int64 address + 8 ≤ 8 * 2 ^ 30
      → (m' : Machine D) × (execute_command platform fuel rounds m ≡ some (tt, m'))
        × (load64 m'.ram (hex_to_int64 address) ≡ hex_to_int64 value % 2 ^ 64)
        × ((q : ℕ)
            → (q < hex_to_int64 address) ⊎ (hex_to_int64 address + 8 ≤ q)
            → m'.ram q ≡ m.ram q)
        × IsEditing m'.console []
  execute_command-write [] value m some1 some2 maps typed is mapped = absurd (omega arith)
  execute_command-write (a ∷ address) [] m some1 some2 maps typed is mapped = absurd (omega arith)
  execute_command-write (a ∷ address) (v ∷ value) m some1 some2 maps typed is mapped =
      let target = hex_to_int64 (a ∷ address) in
      let val = hex_to_int64 (v ∷ value) in
      let m1 = written target val (at_line m) in
      (
        at_prompt m1,
        execute_command-ends platform fuel rounds m (write_command (a ∷ address) (v ∷ value)) typed
            (omega arith) is m1
            (run_command-write a v address value (at_line m) m1 typed.arg1_word typed.arg2_text
              (write_address-mapped platform target val (at_line m) maps mapped))
            (IsEditing-length m.console _ is),
        load64-store64 target val m.ram,
        λ q out. store64-same target val q m.ram out,
        at_prompt-IsEditing m1,
      )
