-- ===== src/Debugger/Breakpoint.antt =====
-- The fields of DR7 and of RFLAGS that the debugger sets.
use tartarus_hobby_os.Base.{ℕ, ◌+◌, ◌*◌, ◌/◌, ◌%◌, ◌^◌, ◌<◌, ◌≡◌, ◌∙◌, ap, arith, bit_and, bit_or}
use tartarus_hobby_os.Base.Bits.{
  bit_and_digit, bit_or_digit, bit_or_field, bit_or_comm, bit_and_low, bit_or-zero,
}
use tartarus_hobby_os.Debugger.{
  CpuState, DebugRegisters, arm_hardware_breakpoint, set_trap, clear_trap,
}

-- `ArmHardwareBreakpoint` watches the address with DR0, and sets in DR7 the enabling bit, the type
-- in bits 16 and 17, the length in bits 18 and 19, and nothing else.
arm_hardware_breakpoint-fields :
    (target_address type length : ℕ) (r : DebugRegisters)
    → arm_hardware_breakpoint target_address type length r
      ≡ record r { dr0 = target_address; dr7 = length % 4 * 2 ^ 18 + type % 4 * 2 ^ 16 + 1 }
unfolding arm_hardware_breakpoint
arm_hardware_breakpoint-fields target_address type length r =
    let t = type % 4 in
    let first : bit_or (bit_or 0 1) (t * 2 ^ 16) ≡ t * 2 ^ 16 + 1 =
      bit_or_comm 1 (t * 2 ^ 16) ∙ bit_or_field 16 t 1 (omega arith) in
    let second : bit_or (t * 2 ^ 16 + 1) (length % 4 * 2 ^ 18)
        ≡ length % 4 * 2 ^ 18 + t * 2 ^ 16 + 1 =
      bit_or_comm (t * 2 ^ 16 + 1) (length % 4 * 2 ^ 18)
      ∙ bit_or_field 18 (length % 4) (t * 2 ^ 16 + 1) (omega arith)
      ∙ omega arith in
    ap (λ (w : ℕ). record r { dr0 = target_address; dr7 = w })
      (rw (bit_and_low 2 type, bit_and_low 2 length, first) second)

or_even : (x m : ℕ) → bit_or x (2 * m) ≡ bit_or (x / 2) m * 2 + x % 2
or_even x m =
    let half : 2 * m / 2 ≡ m = omega arith in
    let low : 2 * m % 2 ≡ 0 = omega arith in bit_or_digit x (2 * m) ∙ rw (half, low) (omega arith)

and_odd : (x m : ℕ) → bit_and x (2 * m + 1) ≡ bit_and (x / 2) m * 2 + x % 2
and_odd x m =
    let half : (2 * m + 1) / 2 ≡ m = omega arith in
    let low : (2 * m + 1) % 2 ≡ 1 = omega arith in
    bit_and_digit x (2 * m + 1) ∙ rw (half, low) (omega arith)

or_one : (x : ℕ) → bit_or x 1 ≡ x / 2 * 2 + 1
or_one x = omega (arith, bit_or_digit x 1, bit_or-zero (x / 2))

and_even : (x m : ℕ) → bit_and x (2 * m) ≡ bit_and (x / 2) m * 2
and_even x m =
    let half : 2 * m / 2 ≡ m = omega arith in
    let low : 2 * m % 2 ≡ 0 = omega arith in bit_and_digit x (2 * m) ∙ rw (half, low) (omega arith)

bit_or-trap : (x : ℕ) → bit_or x 0x100 ≡ x / 2 ^ 9 * 2 ^ 9 + 2 ^ 8 + x % 2 ^ 8
bit_or-trap x = omega (
  arith,
  or_even x 0x80,
  or_even (x / 2) 0x40,
  or_even (x / 2 / 2) 0x20,
  or_even (x / 2 / 2 / 2) 0x10,
  or_even (x / 2 / 2 / 2 / 2) 0x8,
  or_even (x / 2 / 2 / 2 / 2 / 2) 0x4,
  or_even (x / 2 / 2 / 2 / 2 / 2 / 2) 0x2,
  or_even (x / 2 / 2 / 2 / 2 / 2 / 2 / 2) 0x1,
  or_one (x / 2 / 2 / 2 / 2 / 2 / 2 / 2 / 2),
)

bit_and-trap :
    (x : ℕ) → x < 2 ^ 64 → bit_and x 0xffff_ffff_ffff_feff ≡ x / 2 ^ 9 * 2 ^ 9 + x % 2 ^ 8
bit_and-trap x h = omega (
  arith,
  and_odd x 0x7fffffffffffff7f,
  and_odd (x / 2) 0x3fffffffffffffbf,
  and_odd (x / 2 / 2) 0x1fffffffffffffdf,
  and_odd (x / 2 / 2 / 2) 0xfffffffffffffef,
  and_odd (x / 2 / 2 / 2 / 2) 0x7fffffffffffff7,
  and_odd (x / 2 / 2 / 2 / 2 / 2) 0x3fffffffffffffb,
  and_odd (x / 2 / 2 / 2 / 2 / 2 / 2) 0x1fffffffffffffd,
  and_odd (x / 2 / 2 / 2 / 2 / 2 / 2 / 2) 0xfffffffffffffe,
  and_even (x / 2 / 2 / 2 / 2 / 2 / 2 / 2 / 2) 0x7fffffffffffff,
  bit_and_low 55 (x / 2 / 2 / 2 / 2 / 2 / 2 / 2 / 2 / 2),
)

-- The trap flag is bit 8 of RFLAGS: `|=` sets it and `&=` clears it, and no other bit changes.
set_trap-clear_trap :
    (c : CpuState)
    → c.rflags < 2 ^ 64
    → let high = c.rflags / 2 ^ 9 * 2 ^ 9 in
      let low = c.rflags % 2 ^ 8 in
      (set_trap c ≡ record c { rflags = high + 2 ^ 8 + low })
      × (clear_trap c ≡ record c { rflags = high + low })
unfolding set_trap clear_trap
set_trap-clear_trap c h = (
  ap (λ (w : ℕ). record c { rflags = w }) (bit_or-trap c.rflags),
  ap (λ (w : ℕ). record c { rflags = w }) (bit_and-trap c.rflags h),
)
