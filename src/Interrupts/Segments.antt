-- ===== src/Interrupts/Segments.antt =====
-- The segments that run the kernel and its interrupt handlers, through both tables.
use tartarus_hobby_os.Base.{
  ℕ, ◌+◌, ◌*◌, ◌/◌, ◌%◌, ◌<◌, ◌≡◌, ◌∙◌, refl, ap, Bool, true, ◌&&◌, not, List, arith, ltb, ◌==◌,
  length, get_or, set, get_or-set_self, get_or-set_ne, length-set,
}
use tartarus_hobby_os.Interrupts.{IdtEntry, idt_entry, Table, Wrappers, setup_idt}
use tartarus_hobby_os.Interrupts.Gdt.{GdtEntry, Segments, setup_gdt}
use tartarus_hobby_os.Interrupts.Vectors.{setup_idt-IsTable}

-- An entry as the processor's manual describes it: present, of ring 0, and code of 64 bits.
abbrev pub is_code64 : GdtEntry → Bool
is_code64 e =
    (e.access / 128 % 2 == 1)
    && (e.access / 32 % 4 == 0)
    && (e.access / 8 % 4 == 3)
    && (e.flags_limit_high / 32 % 4 == 1)

-- Present, of ring 0, and data that may be written.
abbrev pub is_data : GdtEntry → Bool
is_data e =
    (e.access / 128 % 2 == 1)
    && (e.access / 32 % 4 == 0)
    && (e.access / 8 % 4 == 2)
    && (e.access / 2 % 2 == 1)

-- The processor accepts a selector that is not the null one, chooses this table with ring 0, and
-- whose entry lies within the limit.
abbrev pub is_selector : Segments → ℕ → Bool
is_selector s selector =
    not (selector == 0) && (selector % 8 == 0) && ltb (selector / 8 * 8 + 7) (s.limit + 1)

abbrev pub selected : GdtEntry → Segments → ℕ → GdtEntry
selected d s selector = get_or s.gdt (selector / 8) d

-- An interrupt gate that is present, for ring 0.
abbrev pub is_interrupt_gate : IdtEntry → Bool
is_interrupt_gate e =
    (e.type_attr / 128 % 2 == 1) && (e.type_attr / 32 % 4 == 0) && (e.type_attr % 32 == 14)

entry_one :
    (gdt : List GdtEntry) (a b d : GdtEntry)
    → length gdt ≡ 3
    → get_or (set (set gdt 1 a) 2 b) 1 d ≡ a
entry_one gdt a b d three =
    get_or-set_ne (set gdt 1 a) 2 1 b d (omega arith)
    ∙ get_or-set_self gdt 1 a d (omega (arith, three))

entry_two :
    (gdt : List GdtEntry) (a b d : GdtEntry)
    → length gdt ≡ 3
    → get_or (set (set gdt 1 a) 2 b) 2 d ≡ b
entry_two gdt a b d three =
    get_or-set_self (set gdt 1 a) 2 b d (omega (arith, three, length-set gdt 1 a))

-- Whatever the tables held before: after `SetupGDT` and `SetupIDT`, the segment registers select a
-- 64-bit code segment and a data segment that may be written, both of ring 0 and within the limit of
-- the table; and each of the 256 vectors has an interrupt gate that is present and selects the code
-- segment that the kernel runs in.
pub setup_gdt-IsKernel :
    (address : ℕ) (gdt : List GdtEntry) (d : GdtEntry) (w : Wrappers) (idt : Table)
    (no_entry : IdtEntry) (v : ℕ)
    → length gdt ≡ 3
    → length idt ≡ 256
    → v < 256
    → let s = setup_gdt address gdt in
      let e = get_or (setup_idt w idt) v no_entry in
      ((is_selector s s.cs ≡ true) × (is_code64 (selected d s s.cs) ≡ true))
      × ((is_selector s s.data_selector ≡ true) × (is_data (selected d s s.data_selector) ≡ true))
      × ((is_interrupt_gate e ≡ true) × (e.selector ≡ s.cs))
unfolding setup_gdt idt_entry
setup_gdt-IsKernel address gdt d w idt no_entry v three full below =
    let entry = (setup_idt-IsTable w no_entry idt full).entry v below in
    (
      (refl, rw (entry_one gdt _ _ d three) refl),
      (refl, rw (entry_two gdt _ _ d three) refl),
      (ap is_interrupt_gate entry, ap (λ (e : IdtEntry). e.selector) entry),
    )
