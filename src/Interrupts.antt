-- ===== src/Interrupts.antt =====
-- The interrupt table and the table of segments: `SetIDTEntry`, `SetupIDT` and `SetupPIC` of main.c,
-- and the second table of src/idt.c (`SetIDTGate`, `Tartarus_InitIDT`), which the boot sequence does
-- not load; Gdt has `SetupGDT`. The addresses of the wrappers, written in assembly, are given by the
-- linker.
pub mod Entries
pub mod Vectors
pub mod Gates
pub mod Gdt
pub mod Segments
pub mod Irqs
mod Examples
use tartarus_hobby_os.Base.{
  ℕ, ◌+◌, ◌-◌, ◌*◌, List, [], ◌∷◌, set, for_range, bit_and, u16, u32, ◌>>>◌,
}

-- `IDT_ENTRY`, and `struct IDTEntry`, which has the same fields.
pub record IdtEntry : Type 0 where
  pub offset_low : ℕ
  pub selector : ℕ
  pub ist : ℕ
  pub type_attr : ℕ
  pub offset_mid : ℕ
  pub offset_high : ℕ
  pub reserved : ℕ

unfoldable pub idt_entry : ℕ → IdtEntry
idt_entry addr = record {
  offset_low = u16 (bit_and addr 0xffff);
  selector = 0x08;
  ist = 0;
  type_attr = 0x8e;
  offset_mid = u16 (bit_and (addr >>> 16) 0xffff);
  offset_high = u32 (bit_and (addr >>> 32) 0xffff_ffff);
  reserved = 0;
}

abbrev pub Table : Type 0
Table = List IdtEntry

unfoldable pub set_idt_entry : ℕ → ℕ → Table → Table
set_idt_entry index addr idt = set idt index (idt_entry addr)

-- The addresses of the wrappers of main.c and src/isr.asm.
pub record Wrappers : Type 0 where
  pub fatal : ℕ
  pub ignore : ℕ
  pub page_fault : ℕ
  pub gp_fault : ℕ
  pub keyboard : ℕ
  pub isr1 : ℕ
  pub mouse : ℕ

-- `SetupIDT`; the table that `lidt` loads.
unfoldable pub setup_idt : Wrappers → Table → Table
setup_idt w idt =
    let t1 = for_range 32 0 (λ i t. set_idt_entry i w.fatal t) idt in
    let t2 = for_range 224 32 (λ i t. set_idt_entry i w.ignore t) t1 in
    let t3 = set_idt_entry 6 w.page_fault t2 in
    let t4 = set_idt_entry 8 w.page_fault t3 in
    let t5 = set_idt_entry 10 w.page_fault t4 in
    let t6 = set_idt_entry 11 w.page_fault t5 in
    let t7 = set_idt_entry 12 w.page_fault t6 in
    let t8 = set_idt_entry 13 w.gp_fault t7 in
    let t9 = set_idt_entry 14 w.page_fault t8 in
    let t10 = set_idt_entry 33 w.keyboard t9 in
    let t11 = set_idt_entry 1 w.isr1 t10 in set_idt_entry 44 w.mouse t11

-- `SetIDTGate` casts the high part of the address to 16 bits.
unfoldable pub gate_entry : ℕ → IdtEntry
gate_entry handler = record {
  offset_low = u16 (bit_and handler 0xffff);
  selector = 0x08;
  ist = 0;
  type_attr = 0x8e;
  offset_mid = u16 (bit_and (handler >>> 16) 0xffff);
  offset_high = u16 (bit_and (handler >>> 32) 0xffff_ffff);
  reserved = 0;
}

unfoldable pub set_idt_gate : ℕ → ℕ → Table → Table
set_idt_gate num handler idt = set idt num (gate_entry handler)

-- `Tartarus_InitIDT`, with the addresses of its two handlers.
unfoldable pub init_idt : (isr13_handler isr14_handler : ℕ) → Table → Table
init_idt isr13_handler isr14_handler idt =
    let t1 = for_range 256 0 (λ i t. set_idt_gate i 0 t) idt in
    let t2 = set_idt_gate 13 isr13_handler t1 in set_idt_gate 14 isr14_handler t2

-- `SetupPIC`: the writes to the ports of the two interrupt controllers, in order.
abbrev pub setup_pic : List (ℕ × ℕ)
setup_pic =
    (0x20, 0x11)
    ∷ (0xa0, 0x11)
    ∷ (0x21, 0x20)
    ∷ (0xa1, 0x28)
    ∷ (0x21, 0x04)
    ∷ (0xa1, 0x02)
    ∷ (0x21, 0x01)
    ∷ (0xa1, 0x01)
    ∷ (0x21, 0xf9)
    ∷ (0xa1, 0xef)
    ∷ []
