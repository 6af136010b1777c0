-- ===== src/Exceptions/Examples.antt =====
-- The theorem on page faults at an address that is not mapped.
use tartarus_hobby_os.Display.{Screen}
use tartarus_hobby_os.Paging.{PageTables, Addresses}
use tartarus_hobby_os.Exceptions.{Registers}

abbrev regs : Registers
regs = record {
  r15 = 0;
  r14 = 0;
  r13 = 0;
  r12 = 0;
  r11 = 0;
  r10 = 0;
  r9 = 9;
  r8 = 8;
  rbp = 0x50_0000;
  rdi = 0;
  rsi = 6;
  rdx = 5;
  rcx = 4;
  rbx = 3;
  rax = 2;
  error_code = 0;
  rip = 0x40_1000;
  cs = 8;
  rflags = 2;
  rsp = 0x50_0100;
  ss = 16;
}

abbrev screen : Screen
screen = record {
  frame_buffer = 0x8000_0000;
  pixel = λ q. 0;
  pitch = 64;
  width = 40;
  height = 24;
  cursor_x = 0;
  cursor_y = 0;
}

abbrev addresses : Addresses
addresses = record { pdpt = 0x10_1000; pd = 0x10_2000 }

abbrev blank : PageTables
blank = record { pml4 = λ i. 0; pdpt = λ i. 0; pd = λ i j. 0 }
