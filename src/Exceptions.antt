-- ===== src/Exceptions.antt =====
-- src/exceptions.c: `GPFaultHandler` and `PageFaultHandler`, and the two handlers of src/idt.c and
-- main.c that always halt, with the frame of src/isr.asm that they
-- get. A handler returns, or halts the processor for good; before that it draws on the screen and may
-- write to ports. `memory` gives the 64-bit word at an address.
pub mod Unmapped
mod Examples
use tartarus_hobby_os.Base.{ℕ, List, [], ◌∷◌, add64, ltb, leb, ◌==◌, if◌then◌else◌}
use tartarus_hobby_os.Display.{Screen, clear_screen}
use tartarus_hobby_os.Display.Lines.{Line, label, text, number, draw_lines}

-- `INT_REGISTERS`.
pub record Registers : Type 0 where
  pub r15 : ℕ
  pub r14 : ℕ
  pub r13 : ℕ
  pub r12 : ℕ
  pub r11 : ℕ
  pub r10 : ℕ
  pub r9 : ℕ
  pub r8 : ℕ
  pub rbp : ℕ
  pub rdi : ℕ
  pub rsi : ℕ
  pub rdx : ℕ
  pub rcx : ℕ
  pub rbx : ℕ
  pub rax : ℕ
  pub error_code : ℕ
  pub rip : ℕ
  pub cs : ℕ
  pub rflags : ℕ
  pub rsp : ℕ
  pub ss : ℕ

-- Either the program goes on with these registers, or the processor is halted with this on the
-- screen, after these writes to ports.
pub data Outcome : Type 0 where
  resume : Registers → Outcome
  halt : Screen → List (ℕ × ℕ) → Outcome

-- The pulse of the keyboard controller that resets the machine.
abbrev pub reboot : List (ℕ × ℕ)
reboot = (0x64, 0xfe) ∷ []

abbrev pub gp_fault_report : Registers → List Line
gp_fault_report regs =
    label 0 0 "===================================================" 0xff0000
    ∷ label 0 8 "    HARDWARE EXCEPTION: GENERAL PROTECTION FAULT   " 0xff0000
    ∷ label 0 16 "===================================================" 0xff0000
    ∷ label 0 32 "Hardware Error Code          : " 0xffffff
    ∷ number 250 32 regs.error_code 0x00ffff
    ∷ label 0 40 "Instruction Pointer     (RIP): " 0xffffff
    ∷ number 250 40 regs.rip 0x00ffff
    ∷ label 0 48 "[!] CAUSE: Invalid MSR access, Privilege Violation, or Bad Segment." 0xaaaaaa
    ∷ label 0 104 "SYSTEM HALTED. HARDWARE REBOOT IN 5 SECONDS..." 0xff0000
    ∷ []

unfoldable pub gp_fault_handler : Registers → Screen → Outcome
gp_fault_handler regs s = halt (draw_lines (gp_fault_report regs) (clear_screen s)) reboot

abbrev pub illusion_report : ℕ → (ℕ → ℕ) → List ℕ → Registers → List Line
illusion_report cr2 memory last_api regs =
    label 0 0 "===================================================" 0xff00ff
    ∷ label 0 8 "    [TARTARUS] ILLUSION ENGINE: ANALYSIS PAUSE     " 0xff00ff
    ∷ label 0 16 "===================================================" 0xff00ff
    ∷ label 0 32 "Target Address (CR2) : " 0xffffff
    ∷ number 200 32 cr2 0x00ffff
    ∷ label 0 40 "Faulting RIP Address : " 0xffffff
    ∷ number 200 40 regs.rip 0x00ffff
    ∷ label 0 48 "Raw Opcodes (Part 1) : " 0xffaa00
    ∷ number 200 48 (memory regs.rip) 0xffaa00
    ∷ label 0 56 "Raw Opcodes (Part 2) : " 0xffaa00
    ∷ number 200 56 (memory (add64 regs.rip 8)) 0xffaa00
    ∷ label 0 64 "Flight Recorder [RSP]: " 0xff00ff
    ∷ number 200 64 (memory regs.rsp) 0xffff00
    ∷ label 0 88 "Last API Targeted    : " 0xffaa00
    ∷ text 200 88 last_api 0xffffff
    ∷ label 0 72 "[!] Halting system to prevent Page Fault Storm." 0xff0000
    ∷ label 0 80 "Check Opcodes (Little-Endian) to find instruction length." 0xaaaaaa
    ∷ []

abbrev pub panic_report : ℕ → Registers → List Line
panic_report cr2 regs =
    label 0 0 "===================================================" 0xff0000
    ∷ label 0 8 "    CRITICAL KERNEL PANIC: UNHANDLED EXCEPTION     " 0xff0000
    ∷ label 0 16 "===================================================" 0xff0000
    ∷ label 0 32 "Faulting Memory Address (CR2): " 0xffffff
    ∷ number 250 32 cr2 0x00ffff
    ∷ label 0 40 "Instruction Pointer     (RIP): " 0xffffff
    ∷ number 250 40 regs.rip 0x00ffff
    ∷ label 0 48 "Hardware Error Code          : " 0xffffff
    ∷ number 250 48 regs.error_code 0x00ffff
    ∷ label 0 64 "RAX:" 0xaaaaaa
    ∷ number 40 64 regs.rax 0xaa0000
    ∷ label 0 72 "RBX:" 0xaaaaaa
    ∷ number 40 72 regs.rbx 0xaa0000
    ∷ label 0 80 "RCX:" 0xaaaaaa
    ∷ number 40 80 regs.rcx 0xaa0000
    ∷ label 0 88 "RDX:" 0xaaaaaa
    ∷ number 40 88 regs.rdx 0xaa0000
    ∷ label 220 64 "RSI:" 0xaaaaaa
    ∷ number 260 64 regs.rsi 0xaa0000
    ∷ label 220 72 "RDI:" 0xaaaaaa
    ∷ number 260 72 regs.rdi 0xaa0000
    ∷ label 220 80 "RBP:" 0xaaaaaa
    ∷ number 260 80 regs.rbp 0xaa0000
    ∷ label 220 88 "RSP:" 0xaaaaaa
    ∷ number 260 88 regs.rsp 0xaa0000
    ∷ label 0 104 "SYSTEM HALTED. REBOOT REQUIRED." 0xff0000
    ∷ label 0 104 "SYSTEM HALTED. HARDWARE REBOOT IN 5 SECONDS..." 0xff0000
    ∷ []

-- The zone that stands for what a program does not have.
abbrev pub safe_zone : ℕ
safe_zone = 0x600_0000

abbrev pub patch : ℕ → ℕ
patch r = if r == 0 then safe_zone else r

-- A call through a small pointer returns 0 to its caller.
unfoldable pub return_zero : (ℕ → ℕ) → Registers → Registers
return_zero memory regs = record regs { rip = memory regs.rsp; rsp = add64 regs.rsp 8; rax = 0 }

-- An access to a small address: the registers that are zero get the zone.
unfoldable pub patch_registers : Registers → Registers
patch_registers regs = record regs {
  rax = patch regs.rax;
  rbx = patch regs.rbx;
  rcx = patch regs.rcx;
  rdx = patch regs.rdx;
  rsi = patch regs.rsi;
  rdi = patch regs.rdi;
  rbp = patch regs.rbp;
}

-- `cr2` is the address that faulted, `last_api` the text `GlobalLastAPI`.
unfoldable pub page_fault_handler : ℕ → (ℕ → ℕ) → List ℕ → Registers → Screen → Outcome
page_fault_handler cr2 memory last_api regs s =
    if leb 0xffff_ff00_0000_0000 cr2
    then halt (draw_lines (illusion_report cr2 memory last_api regs) (clear_screen s)) []
    else if ltb regs.rip 0x1000
    then resume (return_zero memory regs)
    else if ltb cr2 0x1000
    then resume (patch_registers regs)
    else halt (draw_lines (panic_report cr2 regs) (clear_screen s)) reboot

-- `Tartarus_HardwareFaultHandler` of src/idt.c, the target of its table.
abbrev pub fault_lines : ℕ → List Line
fault_lines error_code =
    if error_code == 13
    then label 100 150 "EXCEPTION 0x0D: GENERAL PROTECTION FAULT (#GP)" 0xffff00
      ∷ label 100 170 "[!] Did you read an invalid AMD/Intel MSR?" 0xaaaaaa
      ∷ []
    else if error_code == 14
    then label 100 150 "EXCEPTION 0x0E: PAGE FAULT (#PF)" 0xffff00
      ∷ label 100 170 "[!] Invalid RAM access." 0xaaaaaa
      ∷ []
    else label 100 150 "UNKNOWN CRITICAL FAULT." 0xffff00 ∷ []

unfoldable pub hardware_fault_handler : ℕ → Screen → Outcome
hardware_fault_handler error_code s =
    let s1 =
      draw_lines
        (label 100 100 "FATAL HARDWARE EXCEPTION DETECTED!" 0xff0000
          ∷ label 100 120 "TARTARUS KERNEL PANIC - BARE METAL PROTECTION ACTIVE" 0xff0000
          ∷ [])
        (clear_screen s) in
    let s2 = draw_lines (fault_lines error_code) s1 in
    halt (draw_lines (label 100 220 "REBOOTING SYSTEM IN HARDWARE LEVEL..." 0x00ff00 ∷ []) s2)
      reboot

-- `FatalExceptionHandler` of main.c.
unfoldable pub fatal_exception_handler : Screen → Outcome
fatal_exception_handler s = halt (draw_lines (label 0 0 "FATAL EXCEPTION" 0xff0000 ∷ []) s) []
