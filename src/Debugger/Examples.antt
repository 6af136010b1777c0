-- ===== src/Debugger/Examples.antt =====
-- The theorems on the debugger at a concrete program.
use tartarus_hobby_os.Base.{ℕ, ◌≡◌, some, List, [], ◌∷◌}
use tartarus_hobby_os.Debugger.{CpuState, DebugRegisters, Debugger, debugger_engine}
use tartarus_hobby_os.Debugger.Keys.{core, leave, debugger_engine-first_exit}
use mathlib.Core.Option

-- A single step.
abbrev cpu : CpuState
cpu = record {
  rax = 1;
  rbx = 2;
  rcx = 3;
  rdx = 4;
  rsi = 5;
  rdi = 0x40_2000;
  rbp = 0;
  r8 = 0;
  r9 = 0;
  r10 = 0;
  r11 = 0;
  r12 = 0;
  r13 = 0;
  r14 = 0;
  r15 = 0;
  rip = 0x40_1000;
  cs = 8;
  rflags = 0x302;
  rsp = 0x50_0000;
  ss = 16;
}

abbrev debug_registers : DebugRegisters
debug_registers = record { dr0 = 0; dr6 = 0xffff_4ff0; dr7 = 0x400 }

abbrev debugger : Debugger
debugger = record {
  state = cpu;
  registers = debug_registers;
  screen = record {
    frame_buffer = 0x8000_0000;
    pixel = λ q. 0;
    pitch = 1024;
    width = 1024;
    height = 768;
    cursor_x = 0;
    cursor_y = 16;
  };
}

abbrev memory : ℕ → ℕ
memory a = 0x90

-- Nothing to read, the dump of memory, W, and a space that comes too late.
abbrev polls : List (ℕ × ℕ)
polls = (0, 0xb9) ∷ (1, 0xb2) ∷ (0x1d, 0x91) ∷ (1, 0xb9) ∷ []

debugger_engine-first_exit_example :
    Option.map core (debugger_engine memory polls debugger)
    ≡ some (leave 0x91 (cpu, debug_registers))
debugger_engine-first_exit_example = debugger_engine-first_exit memory polls debugger
