-- ===== src/Shell/Examples.antt =====
-- The shell at concrete command lines.
use tartarus_hobby_os.Base.{
  ℕ, ◌-◌, ◌+◌, ◌*◌, ◌%◌, ◌^◌, ◌≤◌, ◌<◌, ◌≡◌, ◌⊎◌, refl, arith, false, true, inl, ltb, ◌∙◌, some,
  none, List, [], ◌∷◌, ◌++◌, codes, replicate, length,
}
use tartarus_hobby_os.Text.{hex_to_int64, hex_value, hex_to_int64_loop}
use tartarus_hobby_os.Keyboard.Edit.{IsEditing}
use tartarus_hobby_os.Ram.{load64}
use tartarus_hobby_os.Paging.{PageTables, Addresses, setup_paging}
use tartarus_hobby_os.Paging.Walk.{walk, IsPlaced, setup_paging-identity}
use tartarus_hobby_os.Machine.{Machine, pure}
use tartarus_hobby_os.Shell.Parse.{Command, parse, take_word, take_arg1, take_arg2}
use tartarus_hobby_os.Shell.Words.{IsTyped, spell, parse-length, parse-spell}
use tartarus_hobby_os.Shell.Commands.{Platform}
use tartarus_hobby_os.Shell.{execute_command}
use tartarus_hobby_os.Shell.Access.{write_command, MapsItself, execute_command-write}
use tartarus_hobby_os.Shell.Clipboard.{read_command, execute_command-read}

abbrev addresses : Addresses
addresses = record { pdpt = 0x10_1000; pd = 0x10_2000 }

abbrev blank : PageTables
blank = record { pml4 = λ i. 0; pdpt = λ i. 0; pd = λ i j. 0 }

addresses-IsPlaced : IsPlaced addresses
addresses-IsPlaced = record {
  pdpt_page = omega arith;
  pd_page = omega arith;
  pdpt_small = omega arith;
  pd_small = omega arith;
  apart = inl (omega arith);
}

-- A platform without state, with the tables of `SetupPaging`, on which no fault comes back.
abbrev platform : Platform (Unit {0})
platform = record {
  host = record {
    ports = record {
      outb = λ port val d. d;
      read_status = λ d. (0x58, d);
      read_data = λ d. (0, d);
    };
    execute_with_trap_flag = λ payload. pure tt;
    wrmsr = λ index value d. d;
    static_iat_trap = 0x10_0000;
    universal_api_trap = 0x10_1000;
    amnesia_stub = 0x10_2000;
  };
  pages = walk addresses (setup_paging addresses blank);
  page_fault = λ address m. none;
  cr3 = 0x10_3000;
  read_msr = λ index d. 0;
  in_b = λ port d. (0x1c, d);
  config = λ address. 0xffff;
  memory_map = λ i. record {
    type = 7;
    physical_start = 0;
    virtual_start = 0;
    number_of_pages = 256;
    attribute = 0;
  };
  map_size = 40;
  descriptor_size = 40;
}

-- The machine with a line on the command line.
abbrev typing : List ℕ → Machine (Unit {0})
typing line = record {
  console = record {
    caps_lock = false;
    left_shift = false;
    right_shift = false;
    left_ctrl = false;
    command_buffer = line ++ replicate (256 - length line) 0;
    buffer_index = length line;
    clipboard = replicate 64 0;
    screen = record {
      frame_buffer = 0x8000_0000;
      pixel = λ q. 0;
      pitch = 1024;
      width = 1024;
      height = 768;
      cursor_x = 80;
      cursor_y = 0;
    };
    port_writes = [];
  };
  heap = record { head = 0; store = λ _. record { size = 0; is_free = false; next = 0 } };
  ram = λ q. q % 256;
  drive = tt;
  volume = record {
    fat_start_sector = 0;
    data_start_sector = 0;
    root_cluster = 0;
    sectors_per_cluster = 0;
  };
}

pages-MapsItself : MapsItself platform.pages
pages-MapsItself va h =
    let low : ltb va (2 ^ 33) ≡ true = ground arith in
    setup_paging-identity addresses blank va addresses-IsPlaced (omega arith) ∙ rw low

abbrev write_line : Command
write_line = write_command (codes "0x10") (codes "ff")

abbrev read_line : Command
read_line = read_command (codes "0x10")

write_line-IsTyped : IsTyped write_line
write_line-IsTyped = ground arith

read_line-IsTyped : IsTyped read_line
read_line-IsTyped = ground arith

write_line-IsEditing : IsEditing (typing (spell write_line)).console (spell write_line)
write_line-IsEditing = record {
  buffer = refl;
  index = refl;
  room = omega arith;
  text = ground arith;
}

read_line-IsEditing : IsEditing (typing (spell read_line)).console (spell read_line)
read_line-IsEditing = record {
  buffer = refl;
  index = refl;
  room = omega arith;
  text = ground arith;
}

ten : hex_to_int64 (codes "0x10") ≡ 16
unfolding hex_to_int64 hex_to_int64_loop hex_value
ten = refl

ten_mapped : hex_to_int64 (codes "0x10") + 8 ≤ 8 * 2 ^ 30
ten_mapped = omega (arith, ten)

load64-small : (a : ℕ) → load64 (λ q. q % 256) a < 2 ^ 64
load64-small a = omega arith

-- A first text of more than 31 characters is cut, and the second is not found.
cut_word :
    parse (replicate 32 b'a' ++ codes " x")
    ≡ record { cmd = replicate 31 b'a'; arg1 = []; arg2 = [] }
unfolding parse take_word take_arg1 take_arg2
cut_word = refl

parse-length_example :
    (length (parse (codes "read 0x10")).cmd < 32)
    × (length (parse (codes "read 0x10")).arg1 < 64)
    × (length (parse (codes "read 0x10")).arg2 < 64)
parse-length_example = parse-length (codes "read 0x10")

parse-spell_example : parse (codes "write 0x10 ff" ++ 0 ∷ codes "rest") ≡ write_line
parse-spell_example = parse-spell write_line (codes "rest") write_line-IsTyped

execute_command-write_example :
    (m' : Machine (Unit {0})) × (execute_command platform 1 1 (typing (codes "write 0x10 ff"))
      ≡ some (tt, m'))
    × (load64 m'.ram (hex_to_int64 (codes "0x10")) ≡ hex_to_int64 (codes "ff") % 2 ^ 64)
    × ((q : ℕ)
        → (q < hex_to_int64 (codes "0x10")) ⊎ (hex_to_int64 (codes "0x10") + 8 ≤ q)
        → m'.ram q ≡ q % 256)
    × IsEditing m'.console []
execute_command-write_example =
    execute_command-write platform 1 1 (codes "0x10") (codes "ff") (typing (codes "write 0x10 ff"))
      (omega arith) (omega arith) pages-MapsItself write_line-IsTyped write_line-IsEditing
      ten_mapped

execute_command-read_example :
    (m' : Machine (Unit {0})) × (execute_command platform 1 1 (typing (codes "read 0x10"))
      ≡ some (tt, m'))
    × (hex_to_int64 m'.console.clipboard ≡ load64 (λ q. q % 256) (hex_to_int64 (codes "0x10")))
    × (m'.ram ≡ (λ q. q % 256))
    × IsEditing m'.console []
execute_command-read_example =
    execute_command-read platform 1 1 (codes "0x10") (typing (codes "read 0x10")) (omega arith)
      pages-MapsItself read_line-IsTyped read_line-IsEditing ten_mapped (omega arith)
      (load64-small _)
