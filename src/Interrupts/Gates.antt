-- ===== src/Interrupts/Gates.antt =====
-- The table of src/idt.c: which handlers its entries can reach.
use tartarus_hobby_os.Base.{
  ℕ, ◌/◌, ◌%◌, ◌^◌, ◌<◌, ◌≡◌, ◌∙◌, ap, arith, ◌==◌, if◌then◌else◌, length, get_or,
}
use tartarus_hobby_os.Base.Bits.{bit_and_low}
use tartarus_hobby_os.Interrupts.{IdtEntry, gate_entry, set_idt_gate, Table, init_idt}
use tartarus_hobby_os.Interrupts.Entries.{IsTable, IsTable-set, IsTable-range}
use tartarus_hobby_os.Interrupts.Vectors.{target}

target-gate_entry : (addr : ℕ) → target (gate_entry addr) ≡ addr % 2 ^ 48
unfolding gate_entry
target-gate_entry addr =
    omega
      (arith, bit_and_low 16 addr, bit_and_low 16 (addr / 2 ^ 16), bit_and_low 32 (addr / 2 ^ 32))

-- The handler of a vector, with 0 for the vectors without one.
abbrev pub handler_of : ℕ → ℕ → ℕ → ℕ
handler_of isr13 isr14 v = if v == 14 then isr14 else if v == 13 then isr13 else 0

init_idt-IsTable :
    (isr13 isr14 : ℕ) (d : IdtEntry) (idt : Table)
    → length idt ≡ 256
    → IsTable gate_entry (handler_of isr13 isr14) d 256 (init_idt isr13 isr14 idt)
unfolding init_idt set_idt_gate
init_idt-IsTable isr13 isr14 d idt full =
    let t0 : IsTable gate_entry (λ v. 0) d 0 idt = record {
      full = full;
      entry = λ v h. absurd (omega arith);
    } in
    let t1 =
      IsTable-range gate_entry (λ v. 0) d 256 0 256 0 idt (omega arith) (omega arith)
        (λ v lo hi. omega arith) t0 in
    let t2 = IsTable-set gate_entry _ d _ 13 isr13 (omega arith) t1 in
    IsTable-set gate_entry _ d _ 14 isr14 (omega arith) t2

-- After `Tartarus_InitIDT` the entries 13 and 14 lead to the lowest 48 bits of their handlers'
-- addresses, and every other entry to address 0: the 16 bits above are lost.
pub init_idt-handler_of :
    (isr13 isr14 : ℕ) (d : IdtEntry) (idt : Table) (v : ℕ)
    → length idt ≡ 256
    → v < 256
    → target (get_or (init_idt isr13 isr14 idt) v d) ≡ handler_of isr13 isr14 v % 2 ^ 48
init_idt-handler_of isr13 isr14 d idt v full hv =
    ap target ((init_idt-IsTable isr13 isr14 d idt full).entry v hv)
    ∙ target-gate_entry (handler_of isr13 isr14 v)
