-- ===== src/Interrupts/Examples.antt =====
-- The theorems on the interrupt table at concrete wrappers.
use tartarus_hobby_os.Base.{true, List, ◌≡◌, refl, arith, replicate, get_or, length}
use tartarus_hobby_os.Interrupts.{
  IdtEntry, idt_entry, Table, Wrappers, setup_idt, init_idt, setup_pic,
}
use tartarus_hobby_os.Interrupts.Irqs.{
  Controller, receive, gets_through, vector_of, setup_pic-wrappers,
}
use tartarus_hobby_os.Interrupts.Gates.{init_idt-handler_of}
use tartarus_hobby_os.Interrupts.Gdt.{GdtEntry, setup_gdt}
use tartarus_hobby_os.Interrupts.Segments.{
  is_code64, is_data, is_selector, selected, is_interrupt_gate, setup_gdt-IsKernel,
}
use tartarus_hobby_os.Interrupts.Vectors.{target, target-idt_entry, setup_idt-wrapper_of}

abbrev wrappers : Wrappers
wrappers = record {
  fatal = 0x10_0100;
  ignore = 0x10_0200;
  page_fault = 0x1_0010_0300;
  gp_fault = 0x10_0400;
  keyboard = 0x10_0500;
  isr1 = 0x10_0600;
  mouse = 0x10_0700;
}

abbrev no_entry : IdtEntry
no_entry = idt_entry 0

abbrev blank : Table
blank = replicate 256 no_entry

blank-full : length blank ≡ 256
blank-full = refl

target-idt_entry_example : target (idt_entry 0x1_0010_0300) ≡ 0x1_0010_0300
target-idt_entry_example = target-idt_entry 0x1_0010_0300 (omega arith)

setup_idt-wrapper_of_example :
    target (get_or (setup_idt wrappers blank) 12 no_entry) ≡ 0x1_0010_0300
setup_idt-wrapper_of_example =
    setup_idt-wrapper_of wrappers no_entry blank 12 blank-full (omega arith) (omega arith)

-- A handler in the upper half of the address space is not reached.
init_idt-handler_of_example :
    target (get_or (init_idt 0x10_0400 0xffff_8000_0010_0300 blank) 14 no_entry) ≡ 0x8000_0010_0300
init_idt-handler_of_example =
    init_idt-handler_of 0x10_0400 0xffff_8000_0010_0300 no_entry blank 14 blank-full (omega arith)

-- A controller in the middle of a set-up.
abbrev stale : Controller
stale = record { expects = 2; first_vector = 8; mask = 0 }

setup_pic-wrappers_example :
    (gets_through (receive setup_pic (stale, stale)) 12 ≡ true)
    × (target (
          get_or
            (setup_idt wrappers blank)
            (vector_of (receive setup_pic (stale, stale)) 12)
            no_entry)
        ≡ 0x10_0700)
setup_pic-wrappers_example =
    setup_pic-wrappers wrappers no_entry blank stale stale 12 blank-full
      (record { keyboard = omega arith; mouse = omega arith; ignore = omega arith }) (omega arith)

abbrev null_entry : GdtEntry
null_entry = record {
  limit_low = 0;
  base_low = 0;
  base_middle = 0;
  access = 0;
  flags_limit_high = 0;
  base_high = 0;
}

abbrev null_gdt : List GdtEntry
null_gdt = replicate 3 null_entry

setup_gdt-IsKernel_example :
    let s = setup_gdt 0x10_2000 null_gdt in
    let e = get_or (setup_idt wrappers blank) 13 no_entry in
    ((is_selector s s.cs ≡ true) × (is_code64 (selected null_entry s s.cs) ≡ true))
    × ((is_selector s s.data_selector ≡ true)
        × (is_data (selected null_entry s s.data_selector) ≡ true))
    × ((is_interrupt_gate e ≡ true) × (e.selector ≡ s.cs))
setup_gdt-IsKernel_example =
    setup_gdt-IsKernel 0x10_2000 null_gdt null_entry wrappers blank no_entry 13 refl blank-full
      (omega arith)
