-- ===== src/Keyboard/Examples.antt =====
-- The theorems on the keyboard at a concrete console.
use tartarus_hobby_os.Base.{ℕ, ◌≡◌, refl, false, true, List, [], ◌∷◌, ◌++◌, arith, replicate, codes}
use tartarus_hobby_os.Keyboard.{Console, shifted, keyboard_handler}
use mathlib.Core.Bool.{xor}
use tartarus_hobby_os.Keyboard.Edit.{IsEditing}
use tartarus_hobby_os.Keyboard.Press.{edited}
use tartarus_hobby_os.Keyboard.Laws.{keyboard_handler-IsEditing}

-- The user has typed `ls` and holds the left shift key.
abbrev typed : List ℕ
typed = codes "ls"

abbrev console : Console
console = record {
  caps_lock = false;
  left_shift = true;
  right_shift = false;
  left_ctrl = false;
  command_buffer = typed ++ replicate 254 0;
  buffer_index = 2;
  clipboard = codes "0x10" ++ 0 ∷ [];
  screen = record {
    frame_buffer = 0x8000_0000;
    pixel = λ q. 0;
    pitch = 64;
    width = 40;
    height = 24;
    cursor_x = 8;
    cursor_y = 8;
  };
  port_writes = [];
}

console-IsEditing : IsEditing console typed
console-IsEditing = record { buffer = refl; index = refl; room = omega arith; text = ground arith }

abbrev clear_line : Console → Console
clear_line s = record s { command_buffer = replicate 256 0; buffer_index = 0 }

edited_letter : edited 0x1e console typed ≡ codes "lsA"
unfolding shifted xor
edited_letter = refl

edited_backspace : edited 0x0e console typed ≡ codes "l"
edited_backspace = refl

keyboard_handler-IsEditing_example :
    IsEditing (keyboard_handler clear_line 0x1e console) (edited 0x1e console typed)
    × ((keyboard_handler clear_line 0x1e console).port_writes ≡ (0x20, 0x20) ∷ [])
keyboard_handler-IsEditing_example =
    keyboard_handler-IsEditing clear_line 0x1e console typed (omega arith) (ground arith)
      console-IsEditing
