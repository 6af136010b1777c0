-- ===== src/Interrupts/Vectors.antt =====
-- Which wrapper each interrupt vector reaches.
use tartarus_hobby_os.Base.{
  ℕ, ◌+◌, ◌*◌, ◌/◌, ◌^◌, ◌<◌, ◌≡◌, ◌∙◌, ap, ◌||◌, arith, ltb, ◌==◌, if◌then◌else◌, length, get_or,
}
use tartarus_hobby_os.Interrupts.Entries.{IsTable, IsTable-set, IsTable-range}
use tartarus_hobby_os.Base.Bits.{bit_and_low}
use tartarus_hobby_os.Interrupts.{IdtEntry, idt_entry, Table, set_idt_entry, Wrappers, setup_idt}

-- The address that an entry leads to.
abbrev pub target : IdtEntry → ℕ
target e = e.offset_low + e.offset_mid * 2 ^ 16 + e.offset_high * 2 ^ 32

-- The entry of a 64-bit address leads there, through the kernel's code segment and an
-- interrupt gate that is present.
pub target-idt_entry : (addr : ℕ) → addr < 2 ^ 64 → target (idt_entry addr) ≡ addr
unfolding idt_entry
target-idt_entry addr h =
    omega
      (arith, bit_and_low 16 addr, bit_and_low 16 (addr / 2 ^ 16), bit_and_low 32 (addr / 2 ^ 32))

-- The wrapper that a vector is meant for.
abbrev pub wrapper_of : Wrappers → ℕ → ℕ
wrapper_of w v =
    if v == 44
    then w.mouse
    else if v == 1
    then w.isr1
    else if v == 33
    then w.keyboard
    else if (v == 14) || (v == 12) || (v == 11) || (v == 10) || (v == 8) || (v == 6)
    then w.page_fault
    else if v == 13
    then w.gp_fault
    else if ltb v 32
    then w.fatal
    else w.ignore

-- After the two loops.
abbrev base_of : Wrappers → ℕ → ℕ
base_of w v = if ltb v 32 then w.fatal else w.ignore

pub setup_idt-IsTable :
    (w : Wrappers) (d : IdtEntry) (idt : Table)
    → length idt ≡ 256
    → IsTable idt_entry
        (λ v.
          if v == 44
          then w.mouse
          else if v == 1
          then w.isr1
          else if v == 33
          then w.keyboard
          else if v == 14
          then w.page_fault
          else if v == 13
          then w.gp_fault
          else if v == 12
          then w.page_fault
          else if v == 11
          then w.page_fault
          else if v == 10
          then w.page_fault
          else if v == 8
          then w.page_fault
          else if v == 6
          then w.page_fault
          else base_of w v)
        d
        256
        (setup_idt w idt)
unfolding setup_idt set_idt_entry
setup_idt-IsTable w d idt full =
    let t0 : IsTable idt_entry (base_of w) d 0 idt = record {
      full = full;
      entry = λ v h. absurd (omega arith);
    } in
    let t1 =
      IsTable-range idt_entry (base_of w) d 32 0 32 w.fatal idt (omega arith) (omega arith)
        (λ v lo hi. ground arith) t0 in
    let t2 =
      IsTable-range idt_entry (base_of w) d 224 32 256 w.ignore _ (omega arith) (omega arith)
        (λ v lo hi. ground arith) t1 in
    let t3 = IsTable-set idt_entry _ d _ 6 w.page_fault (omega arith) t2 in
    let t4 = IsTable-set idt_entry _ d _ 8 w.page_fault (omega arith) t3 in
    let t5 = IsTable-set idt_entry _ d _ 10 w.page_fault (omega arith) t4 in
    let t6 = IsTable-set idt_entry _ d _ 11 w.page_fault (omega arith) t5 in
    let t7 = IsTable-set idt_entry _ d _ 12 w.page_fault (omega arith) t6 in
    let t8 = IsTable-set idt_entry _ d _ 13 w.gp_fault (omega arith) t7 in
    let t9 = IsTable-set idt_entry _ d _ 14 w.page_fault (omega arith) t8 in
    let t10 = IsTable-set idt_entry _ d _ 33 w.keyboard (omega arith) t9 in
    let t11 = IsTable-set idt_entry _ d _ 1 w.isr1 (omega arith) t10 in
    IsTable-set idt_entry _ d _ 44 w.mouse (omega arith) t11

-- After `SetupIDT` every vector's entry leads to the wrapper that `wrapper_of` names: the mouse,
-- single steps and the keyboard to theirs, #GP to its own, the exceptions 6, 8, 10, 11, 12 and 14 to
-- the page fault's, the other exceptions to the fatal one, and all else to the one that returns.
pub setup_idt-wrapper_of :
    (w : Wrappers) (d : IdtEntry) (idt : Table) (v : ℕ)
    → length idt ≡ 256
    → v < 256
    → wrapper_of w v < 2 ^ 64
    → target (get_or (setup_idt w idt) v d) ≡ wrapper_of w v
setup_idt-wrapper_of w d idt v full hv small =
    ap target ((setup_idt-IsTable w d idt full).entry v hv ∙ ap idt_entry regroup)
    ∙ target-idt_entry (wrapper_of w v) small
  where
    regroup :
        (if v == 44
          then w.mouse
          else if v == 1
          then w.isr1
          else if v == 33
          then w.keyboard
          else if v == 14
          then w.page_fault
          else if v == 13
          then w.gp_fault
          else if v == 12
          then w.page_fault
          else if v == 11
          then w.page_fault
          else if v == 10
          then w.page_fault
          else if v == 8
          then w.page_fault
          else if v == 6
          then w.page_fault
          else base_of w v)
        ≡ wrapper_of w v
    regroup = ground arith
