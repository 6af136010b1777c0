-- ===== src/Interrupts/Irqs.antt =====
-- Which wrapper a hardware interrupt reaches, through the controllers and the table together.
use tartarus_hobby_os.Base.{
  ℕ, ◌+◌, ◌-◌, ◌*◌, ◌/◌, ◌%◌, ◌^◌, ◌<◌, ◌≡◌, refl, ap, ◌∙◌, Bool, true, false, ◌&&◌, ◌||◌, not,
  List, [], ◌∷◌, arith, ltb, ◌==◌, if◌then◌else◌, length, get_or,
}
use tartarus_hobby_os.Base.Bits.{all_below, all_below_lem}
use tartarus_hobby_os.Interrupts.{IdtEntry, Table, Wrappers, setup_idt, setup_pic}
use tartarus_hobby_os.Interrupts.Vectors.{target, wrapper_of, setup_idt-wrapper_of}

-- A controller of type 8259, as its data sheet describes it: a byte with bit 4 set at the command
-- port begins the set-up, the three bytes at the data port that follow are the vector of its first
-- line, the wiring and the mode, and later bytes there are the mask of its lines.
pub record Controller : Type 0 where
  pub expects : ℕ
  pub first_vector : ℕ
  pub mask : ℕ

abbrev pub command : ℕ → Controller → Controller
command v c = if v / 16 % 2 == 1 then record c { expects = 3; mask = 0 } else c

abbrev pub data_byte : ℕ → Controller → Controller
data_byte v c =
    if c.expects == 0
    then record c { mask = v }
    else if c.expects == 3
    then record c { expects = 2; first_vector = v / 8 * 8 }
    else record c { expects = c.expects - 1 }

-- The two controllers, the second on line 2 of the first.
abbrev pub receive : List (ℕ × ℕ) → Controller × Controller → Controller × Controller
receive [] cs = cs
receive ((port, v) ∷ writes) (c1, c2) = receive writes (
  (if port == 0x20 then command v c1 else if port == 0x21 then data_byte v c1 else c1),
  (if port == 0xa0 then command v c2 else if port == 0xa1 then data_byte v c2 else c2),
)

abbrev pub is_masked : ℕ → Controller → Bool
is_masked line c = c.mask / 2 ^ line % 2 == 1

-- The interrupts that get through, and the vectors that they raise.
abbrev pub gets_through : Controller × Controller → ℕ → Bool
gets_through (c1, c2) irq =
    if ltb irq 8
    then not (is_masked irq c1)
    else not (is_masked (irq - 8) c2) && not (is_masked 2 c1)

abbrev pub vector_of : Controller × Controller → ℕ → ℕ
vector_of (c1, c2) irq = if ltb irq 8 then c1.first_vector + irq else c2.first_vector + (irq - 8)

-- What the controllers hold after the set-up.
abbrev ready : Controller × Controller
ready = (
  record { expects = 0; first_vector = 0x20; mask = 0xf9 },
  record { expects = 0; first_vector = 0x28; mask = 0xef },
)

setup_pic-ready : (c1 c2 : Controller) → receive setup_pic (c1, c2) ≡ ready
setup_pic-ready c1 c2 = refl

-- The interrupts of the keyboard, of the second controller and of the mouse.
abbrev pub is_served : ℕ → Bool
is_served irq = (irq == 1) || (irq == 2) || (irq == 12)

equal : Bool → Bool → Bool
equal true b = b
equal false b = not b

equal→eq : (a b : Bool) → equal a b ≡ true → a ≡ b
unfolding equal
equal→eq a b h = ground arith

lines_table : all_below 16 (λ irq. equal (gets_through ready irq) (is_served irq)) ≡ true
unfolding all_below equal
lines_table = refl

vector_of-ready : (irq : ℕ) → irq < 16 → vector_of ready irq ≡ 0x20 + irq
vector_of-ready irq line = ground arith

-- The addresses of the wrappers that interrupts reach are 64-bit words.
pub record AreWords (w : Wrappers) : Type 0 where
  pub keyboard : w.keyboard < 2 ^ 64
  pub mouse : w.mouse < 2 ^ 64
  pub ignore : w.ignore < 2 ^ 64

abbrev pub irq_wrapper : Wrappers → ℕ → ℕ
irq_wrapper w irq = if irq == 1 then w.keyboard else if irq == 12 then w.mouse else w.ignore

irq_wrapper-wrapper_of :
    (w : Wrappers) (irq : ℕ) → irq < 16 → wrapper_of w (0x20 + irq) ≡ irq_wrapper w irq
irq_wrapper-wrapper_of w irq line = ground arith

irq_wrapper-small : (w : Wrappers) (irq : ℕ) → AreWords w → irq_wrapper w irq < 2 ^ 64
irq_wrapper-small w irq words = ground (arith, words.keyboard, words.mouse, words.ignore)

-- Whatever the controllers held before `SetupPIC`: of the sixteen hardware interrupts exactly 1, 2 and
-- 12 get through, those of the keyboard, of the second controller and of the mouse; and by the vector
-- that its controller raises and the table of `SetupIDT`, interrupt 1 leads to the keyboard's wrapper,
-- 12 to the mouse's, and every other to the one that returns.
pub setup_pic-wrappers :
    (w : Wrappers) (d : IdtEntry) (idt : Table) (c1 c2 : Controller) (irq : ℕ)
    → length idt ≡ 256
    → AreWords w
    → irq < 16
    → (gets_through (receive setup_pic (c1, c2)) irq ≡ is_served irq)
      × (target (get_or (setup_idt w idt) (vector_of (receive setup_pic (c1, c2)) irq) d)
          ≡ irq_wrapper w irq)
setup_pic-wrappers w d idt c1 c2 irq full words line =
    let vector : vector_of ready irq ≡ 0x20 + irq = vector_of-ready irq line in
    let same = irq_wrapper-wrapper_of w irq line in
    let small : wrapper_of w (0x20 + irq) < 2 ^ 64 = rw same (irq_wrapper-small w irq words) in
    (
      equal→eq _ _ (all_below_lem 16 _ irq lines_table line),
      ap (λ v. target (get_or (setup_idt w idt) v d)) vector
          ∙ setup_idt-wrapper_of w d idt (0x20 + irq) full (omega (arith, line)) small
          ∙ same,
    )
