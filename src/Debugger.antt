-- ===== src/Debugger.antt =====
-- The debugger of main.c: `DebuggerEngine`, which every single step and watchpoint enters, with
-- `DrawByteHex` and `ArmHardwareBreakpoint`. What the two ports read is a list of polls: the status
-- of port 0x64, and the scancode that port 0x60 would give. `memory` gives the byte at an address.
pub mod Breakpoint
pub mod Keys
mod Examples
use tartarus_hobby_os.Base.{
  ℕ, ◌+◌, ◌*◌, ◌-◌, ◌^◌, Bool, true, false, ◌&&◌, not, Option, none, some, List, [], ◌∷◌, ltb, ◌==◌,
  if◌then◌else◌, bit_and, bit_or, add32, is_neg32, get_or, replicate, codes, for_range, ◌<<<◌,
  ◌>>>◌,
}
use tartarus_hobby_os.Text.{hex_chars, hex_to_string}
use tartarus_hobby_os.Display.{Screen, draw_string, update_cursor, clear_screen}
use tartarus_hobby_os.Display.Print.{say, label, down}

-- `CPU_STATE`.
pub record CpuState : Type 0 where
  pub rax : ℕ
  pub rbx : ℕ
  pub rcx : ℕ
  pub rdx : ℕ
  pub rsi : ℕ
  pub rdi : ℕ
  pub rbp : ℕ
  pub r8 : ℕ
  pub r9 : ℕ
  pub r10 : ℕ
  pub r11 : ℕ
  pub r12 : ℕ
  pub r13 : ℕ
  pub r14 : ℕ
  pub r15 : ℕ
  pub rip : ℕ
  pub cs : ℕ
  pub rflags : ℕ
  pub rsp : ℕ
  pub ss : ℕ

-- The debug registers that the code uses.
pub record DebugRegisters : Type 0 where
  pub dr0 : ℕ
  pub dr6 : ℕ
  pub dr7 : ℕ

-- The state of the program that is debugged, the debug registers, and the screen.
pub record Debugger : Type 0 where
  pub state : CpuState
  pub registers : DebugRegisters
  pub screen : Screen

abbrev pub hw_bp_type_write : ℕ
hw_bp_type_write = 0x01

abbrev pub hw_bp_len_8_bytes : ℕ
hw_bp_len_8_bytes = 0x02

unfoldable pub arm_hardware_breakpoint : ℕ → ℕ → ℕ → DebugRegisters → DebugRegisters
arm_hardware_breakpoint target_address type length r =
    let enabled = bit_or 0 1 in
    let typed = bit_or enabled (bit_and type 0x3 <<< 16) in
    record r { dr0 = target_address; dr7 = bit_or typed (bit_and length 0x3 <<< 18) }

-- `rflags |= 1ULL << 8` and `rflags &= ~(1ULL << 8)`: the trap flag.
unfoldable pub set_trap : CpuState → CpuState
set_trap c = record c { rflags = bit_or c.rflags 0x100 }

unfoldable pub clear_trap : CpuState → CpuState
clear_trap c = record c { rflags = bit_and c.rflags 0xffff_ffff_ffff_feff }

-- `HexToString` into `hexBuf`, all of whose 19 bytes it writes, and the drawing of it.
abbrev pub number : ℕ → ℕ → ℕ → Screen → Screen
number dx value color s = say dx (hex_to_string value (replicate 19 0)) color s

unfoldable pub draw_byte_hex : ℕ → ℕ → ℕ → ℕ → Screen → Screen
draw_byte_hex byte x y color s =
    draw_string x y
      (get_or hex_chars (bit_and (byte >>> 4) 0x0f) 0
        ∷ get_or hex_chars (bit_and byte 0x0f) 0
        ∷ 0
        ∷ [])
      color s

-- `CursorY > 700` of an int.
abbrev pub is_past_700 : Screen → Bool
is_past_700 s = not (is_neg32 s.cursor_y) && ltb 700 s.cursor_y

unfoldable pub report_watchpoint : Debugger → Debugger
report_watchpoint d = if bit_and d.registers.dr6 1 == 0 then d else record d {
  screen = down 8 (label 0 "[!] DR0 WATCHPOINT HIT! Halting execution..." 0x00ff00 d.screen);
  registers = record d.registers { dr6 = 0 };
  state = set_trap d.state;
}

unfoldable pub show_first_row : CpuState → Screen → Screen
show_first_row c s =
    let s1 = number 64 c.rax 0x00ff00 (label 0 "  RAX: " 0xaaaaaa s) in
    let s2 = number 360 c.rbx 0x00ff00 (label 300 "RBX: " 0xaaaaaa s1) in
    down 8 (number 660 c.rcx 0x00ff00 (label 600 "RCX: " 0xaaaaaa s2))

unfoldable pub show_second_row : CpuState → Screen → Screen
show_second_row c s =
    let s1 = number 64 c.rdx 0x00ff00 (label 0 "  RDX: " 0xaaaaaa s) in
    let s2 = number 360 c.rsi 0x00ff00 (label 300 "RSI: " 0xaaaaaa s1) in
    down 16 (number 660 c.rdi 0x00ff00 (label 600 "RDI: " 0xaaaaaa s2))

unfoldable pub show_registers : CpuState → Screen → Screen
show_registers c s =
    let titled = down 8 (label 0 "[DEBUG] POLYMORPHIC TRAP - CPU STATE:" 0xff00ff s) in
    let shown = show_second_row c (show_first_row c titled) in
    let cleared =
      if is_past_700 shown then record (clear_screen shown) { cursor_y = 0 } else shown in
    update_cursor cleared

-- The 16 bytes from an address on.
unfoldable pub dump_row : (ℕ → ℕ) → ℕ → ℕ → Screen → Screen
dump_row memory ptr color s =
    for_range 16 0
      (λ i t.
        draw_byte_hex (memory (ptr + i)) (add32 (add32 t.cursor_x 110) (i * 24)) t.cursor_y color t)
      s

unfoldable pub dump_memory : (ℕ → ℕ) → CpuState → Screen → Screen
dump_memory memory c s =
    let s1 = down 8 (label 0 "  [+] MEMORY DUMP TRIGGERED (16 Bytes):" 0xffff00 s) in
    let s2 = down 8 (dump_row memory c.rip 0xffffff (label 0 "  Code(RIP): " 0xaaaaaa s1)) in
    let s3 = down 16 (dump_row memory c.rsp 0xff00ff (label 0 "  Stack(RSP):" 0xaaaaaa s2)) in
    update_cursor (if is_past_700 s3 then clear_screen s3 else s3)

-- What a scancode does, and whether it ends the loop.
unfoldable pub debug_key : (ℕ → ℕ) → ℕ → Debugger → Bool × Debugger
debug_key memory scancode d =
    if scancode == 0xb9
    then (true, d)
    else if scancode == 0xb2
    then (false, record d { screen = dump_memory memory d.state d.screen })
    else if scancode == 0x91
    then (
      true,
      record d {
        screen =
            update_cursor (
              down 8
                (label 0 "  [!] ARMING WATCHPOINT & DISABLING TRAP FLAG..." 0x00ff00 d.screen));
        registers =
            arm_hardware_breakpoint d.state.rdi hw_bp_type_write hw_bp_len_8_bytes d.registers;
        state = clear_trap d.state;
      },
    )
    else if scancode == 0xa2
    then (
      true,
      record d {
        screen =
            update_cursor
              (down 8 (label 0 "  [!] DISARMING ALL TRAPS & RUNNING FREE..." 0xff0000 d.screen));
        registers = record d.registers { dr7 = 0 };
        state = clear_trap d.state;
      },
    )
    else (false, d)

-- `while (1)`: `none` if it still polls at the end of the list.
unfoldable pub debug_loop : (ℕ → ℕ) → List (ℕ × ℕ) → Debugger → Option Debugger
debug_loop memory [] d = none
debug_loop memory ((status, scancode) ∷ polls) d =
    let (is_done, d') = debug_key memory scancode d in
    elim (bit_and status 0x01 == 0) [
      | true ↦ debug_loop memory polls d
      | false ↦ elim is_done [ true ↦ some d' | false ↦ debug_loop memory polls d' ]
    ]

unfoldable pub debugger_engine : (ℕ → ℕ) → List (ℕ × ℕ) → Debugger → Option Debugger
debugger_engine memory polls d =
    let seen = report_watchpoint d in
    debug_loop memory polls (record seen { screen = show_registers seen.state seen.screen })
