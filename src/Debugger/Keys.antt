-- ===== src/Debugger/Keys.antt =====
-- How the debugger ends, and what it leaves of the program and of the debug registers.
use tartarus_hobby_os.Base.{
  ℕ, ◌%◌, ◌≡◌, refl, ◌∙◌, ap, Bool, true, false, ◌&&◌, ◌||◌, Option, none, some, List, [], ◌∷◌,
  arith, ◌==◌, if◌then◌else◌, bit_and, Bool-cases, inl, inr, ==_iff,
}
use tartarus_hobby_os.Base.Bits.{bit_and_low}
use tartarus_hobby_os.Debugger.{
  CpuState, DebugRegisters, Debugger, arm_hardware_breakpoint, set_trap, clear_trap,
  report_watchpoint, debug_key, debug_loop, debugger_engine,
}
use mathlib.Core.Option

-- The keys that end the loop: the releases of the space bar, of W and of G.
abbrev pub is_exit : ℕ → Bool
is_exit scancode = (scancode == 0xb9) || (scancode == 0x91) || (scancode == 0xa2)

-- The first of them that is read: its poll has the lowest bit of the status set.
abbrev pub first_exit : List (ℕ × ℕ) → Option ℕ
first_exit [] = none
first_exit ((status, scancode) ∷ polls) =
    if (status % 2 == 1) && is_exit scancode then some scancode else first_exit polls

-- What the debugger changes besides the screen.
abbrev pub core : Debugger → CpuState × DebugRegisters
core d = (d.state, d.registers)

-- A watchpoint that was hit is taken back, and single steps follow.
abbrev pub enter : CpuState × DebugRegisters → CpuState × DebugRegisters
enter (c, r) = if r.dr6 % 2 == 0 then (c, r) else (set_trap c, record r { dr6 = 0 })

-- The space bar changes nothing; W watches the eight bytes that RDI points to for writes, and G
-- takes the watchpoint off; after both, the program runs without single steps.
abbrev pub leave : ℕ → CpuState × DebugRegisters → CpuState × DebugRegisters
leave scancode (c, r) =
    if scancode == 0xb9
    then (c, r)
    else if scancode == 0x91
    then (clear_trap c, record r { dr0 = c.rdi; dr7 = 0x9_0001 })
    else (clear_trap c, record r { dr7 = 0 })

debug_key-core :
    (memory : ℕ → ℕ) (scancode : ℕ) (d : Debugger)
    → let (is_done, d') = debug_key memory scancode d in
      (is_done ≡ is_exit scancode)
      × (core d' ≡ (if is_exit scancode then leave scancode (core d) else core d))
unfolding debug_key arm_hardware_breakpoint
debug_key-core memory scancode d = elim (Bool-cases (scancode == 0xb9)) [
  | inl hit ↦ rw ((==_iff scancode 0xb9).0 hit) (refl, refl)
  | inr no_b9 ↦ elim (Bool-cases (scancode == 0xb2)) [
    | inl hit ↦ rw ((==_iff scancode 0xb2).0 hit) (refl, refl)
    | inr no_b2 ↦ elim (Bool-cases (scancode == 0x91)) [
      | inl hit ↦ rw ((==_iff scancode 0x91).0 hit) (refl, refl)
      | inr no_91 ↦ elim (Bool-cases (scancode == 0xa2)) [
        | inl hit ↦ rw ((==_iff scancode 0xa2).0 hit) (refl, refl)
        | inr no_a2 ↦ rw (no_b9, no_b2, no_91, no_a2) (refl, refl)
      ]
    ]
  ]
]

debug_loop-first_exit :
    (memory : ℕ → ℕ) (polls : List (ℕ × ℕ)) (d : Debugger)
    → Option.map core (debug_loop memory polls d)
      ≡ Option.map (λ k. leave k (core d)) (first_exit polls)
unfolding debug_loop
debug_loop-first_exit memory [] d = refl
debug_loop-first_exit memory ((status, scancode) ∷ polls) d =
    let low : bit_and status 0x01 ≡ status % 2 = bit_and_low 1 status in
    let key = debug_key-core memory scancode d in
    let d' = (debug_key memory scancode d).1 in
    elim (Bool-cases (status % 2 == 1)) [
      | inr idle ↦
          let skipped : (bit_and status 0x01 == 0) ≡ true = ground arith in
          rw (debug_loop, skipped, idle) (debug_loop-first_exit memory polls d)
      | inl ready ↦
          let read : (bit_and status 0x01 == 0) ≡ false = ground arith in
          elim (Bool-cases (is_exit scancode)) [
            | inl ends ↦
                let done : (debug_key memory scancode d).0 ≡ true = key.0 ∙ ends in
                rw (debug_loop, read, ready, ends, done) (ap some (key.1 ∙ rw ends))
            | inr stays ↦
                let not_done : (debug_key memory scancode d).0 ≡ false = key.0 ∙ stays in
                let same : core d' ≡ core d = key.1 ∙ rw stays in
                rw (debug_loop, read, ready, stays, not_done)
                  (debug_loop-first_exit memory polls d'
                    ∙ ap (λ c. Option.map (λ k. leave k c) (first_exit polls)) same)
          ]
    ]

report_watchpoint-core : (d : Debugger) → core (report_watchpoint d) ≡ enter (core d)
unfolding report_watchpoint
report_watchpoint-core d =
    let low : bit_and d.registers.dr6 1 ≡ d.registers.dr6 % 2 = bit_and_low 1 d.registers.dr6 in
    elim (Bool-cases (d.registers.dr6 % 2 == 0)) [
      | inl clear ↦ rw (low, clear) refl
      | inr hit ↦ rw (low, hit) refl
    ]

-- The debugger returns exactly if one of the three keys is read, at the first of them, and then it
-- leaves of the program's state and of the debug registers what `enter` and the key make of them;
-- the scancodes before it, the dump of memory among them, change neither.
pub debugger_engine-first_exit :
    (memory : ℕ → ℕ) (polls : List (ℕ × ℕ)) (d : Debugger)
    → Option.map core (debugger_engine memory polls d)
      ≡ Option.map (λ k. leave k (enter (core d))) (first_exit polls)
unfolding debugger_engine
debugger_engine-first_exit memory polls d =
    debug_loop-first_exit memory polls _
    ∙ ap (λ c. Option.map (λ k. leave k c) (first_exit polls)) (report_watchpoint-core d)
