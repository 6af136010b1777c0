-- ===== src/Base/Bits.antt =====
-- What `&` and `|` do to the fields of a word, as arithmetic, at every width.
use Prim.Native.Nat.{
  ℕ, zero, suc, ◌+◌, ◌-◌, ◌*◌, ◌/◌, ◌%◌, ◌^◌, ◌≤◌, ◌<◌, min, max, digits, bit_and, bit_or,
  bit_and-bitwise, bit_or-bitwise,
}
use mathlib.Core.Path.{◌≡◌, refl, ap, ◌∙◌}
use native.Mathlib.Nat.{
  pow-suc, one-le-pow, mod-lt, mod-eq_of_lt, div-add-mod, mul-add-mod_self_left,
}
use native.Mathlib.Omega.{arith}
use mathlib.Core.Bool.{Bool, true, false, ◌&&◌, not}
use tartarus_hobby_os.Base.Tests.{◌==◌, ltb}

-- With fuel for every digit of `x`, how much more there is makes no difference.
module _ (last : ℕ → ℕ) (join : ℕ → ℕ → ℕ) where
  spare_fuel : (x y : ℕ) (k l : ℕ) → x ≤ k → x ≤ l → digits last join k x y ≡ digits last join l x y
  spare_fuel zero y zero zero hk hl = refl
  spare_fuel zero y (suc k) zero hk hl = refl
  spare_fuel zero y zero (suc l) hk hl = refl
  spare_fuel zero y (suc k) (suc l) hk hl = refl
  spare_fuel (suc x) y zero l hk hl = absurd (omega arith)
  spare_fuel (suc x) y (suc k) zero hk hl = absurd (omega arith)
  spare_fuel (suc x) y (suc k) (suc l) hk hl =
      ap (λ (d : ℕ). d * 2 + join (suc x % 2) (y % 2))
        (spare_fuel (suc x / 2) (y / 2) k l (omega arith) (omega arith))

-- One equation for the lowest digit.
pub bit_and_digit : (a b : ℕ) → bit_and a b ≡ bit_and (a / 2) (b / 2) * 2 + min (a % 2) (b % 2)
bit_and_digit zero b = omega (arith, bit_and-bitwise 0 b, bit_and-bitwise 0 (b / 2))
bit_and_digit (suc a) b = omega (
  arith,
  bit_and-bitwise (suc a) b,
  bit_and-bitwise (suc a / 2) (b / 2),
  spare_fuel (λ y. 0) min (suc a / 2) (b / 2) a (suc a / 2) (omega arith) (omega arith),
)

pub bit_or_digit : (a b : ℕ) → bit_or a b ≡ bit_or (a / 2) (b / 2) * 2 + max (a % 2) (b % 2)
bit_or_digit zero b = omega (arith, bit_or-bitwise 0 b, bit_or-bitwise 0 (b / 2))
bit_or_digit (suc a) b = omega (
  arith,
  bit_or-bitwise (suc a) b,
  bit_or-bitwise (suc a / 2) (b / 2),
  spare_fuel (λ y. y) max (suc a / 2) (b / 2) a (suc a / 2) (omega arith) (omega arith),
)

and_zero_below : (n a : ℕ) → a ≤ n → bit_and a 0 ≡ 0
and_zero_below n zero h = refl
and_zero_below zero (suc a) h = absurd (omega arith)
and_zero_below (suc n) (suc a) h =
    omega (arith, bit_and_digit (suc a) 0, and_zero_below n (suc a / 2) (omega arith))

or_zero_below : (n a : ℕ) → a ≤ n → bit_or a 0 ≡ a
or_zero_below n zero h = refl
or_zero_below zero (suc a) h = absurd (omega arith)
or_zero_below (suc n) (suc a) h =
    omega (arith, bit_or_digit (suc a) 0, or_zero_below n (suc a / 2) (omega arith))

pub bit_and-zero : (a : ℕ) → bit_and a 0 ≡ 0
bit_and-zero a = and_zero_below a a (omega arith)

pub bit_or-zero : (a : ℕ) → bit_or a 0 ≡ a
bit_or-zero a = or_zero_below a a (omega arith)

double_shift : (q k : ℕ) → q * 2 ^ suc k ≡ 2 * (q * 2 ^ k)
double_shift q k = omega (arith, ap (λ (t : ℕ). q * t) (pow-suc 2 k))

-- A field of `k` bits below a shifted value: `|` is `+`.
pub bit_or_field : (k q r : ℕ) → r < 2 ^ k → bit_or (q * 2 ^ k) r ≡ q * 2 ^ k + r
bit_or_field zero q r h =
    let one : q * 2 ^ 0 ≡ q = omega arith in
    let none_left : r ≡ 0 = omega arith in rw (one, none_left) (omega (arith, bit_or-zero q))
bit_or_field (suc k) q r h = ground (
  arith,
  bit_or_digit (q * 2 ^ suc k) r,
  double_shift q k,
  bit_or_field k q (r / 2) (omega (arith, pow-suc 2 k)),
)

mod_double : (a p : ℕ) → 0 < p → a % (p * 2) ≡ a / 2 % p * 2 + a % 2
mod_double a p h =
    let rest = a / 2 % p * 2 + a % 2 in
    let fits : rest < p * 2 = omega (arith, mod-lt (a / 2) h) in
    let split : a ≡ p * 2 * (a / 2 / p) + rest = omega (arith, div-add-mod (a / 2) p) in
    ap (λ (t : ℕ). t % (p * 2)) split
    ∙ mul-add-mod_self_left (p * 2) (a / 2 / p) rest
    ∙ mod-eq_of_lt fits

mask_half : (p : ℕ) → 0 < p → ((p * 2 - 1) / 2 ≡ p - 1) × ((p * 2 - 1) % 2 ≡ 1)
mask_half p h = omega arith

-- A mask of `k` ones is the remainder by `2 ^ k`.
pub bit_and_low : (k a : ℕ) → bit_and a (2 ^ k - 1) ≡ a % 2 ^ k
bit_and_low zero a = omega (arith, bit_and-zero a)
bit_and_low (suc k) a =
    let pos : 0 < 2 ^ k = one-le-pow k 2 (omega arith) in
    let (half, odd) = mask_half (2 ^ k) pos in
    rw (pow-suc, bit_and_digit, half, odd, bit_and_low k (a / 2), mod_double a (2 ^ k) pos)
      (omega arith)

-- A test that holds of every number below `n`, found by evaluation.
unfoldable pub all_below : ℕ → (ℕ → Bool) → Bool
all_below zero p = true
all_below (suc n) p = p n && all_below n p

pub all_below_lem : (n : ℕ) (p : ℕ → Bool) (x : ℕ) → all_below n p ≡ true → x < n → p x ≡ true
unfolding all_below
all_below_lem zero p x h lt = absurd (omega arith)
all_below_lem (suc n) p x h lt = ground (arith, all_below_lem n p x)

same : Bool → Bool → Bool
same true b = b
same false b = not b

same→eq : (a b : Bool) → same a b ≡ true → a ≡ b
unfolding same
same→eq a b h = ground arith

sign_table : all_below 256 (λ x. same (bit_and x 0x80 == 0) (ltb x 128)) ≡ true
unfolding all_below same
sign_table = refl

-- The highest bit of a byte.
pub bit_and_high : (x : ℕ) → x < 256 → (bit_and x 0x80 == 0) ≡ ltb x 128
bit_and_high x h = same→eq _ _ (all_below_lem 256 _ x sign_table h)

or_comm_below : (n a b : ℕ) → a + b ≤ n → bit_or a b ≡ bit_or b a
or_comm_below zero zero zero h = refl
or_comm_below zero (suc a) b h = absurd (omega arith)
or_comm_below zero zero (suc b) h = absurd (omega arith)
or_comm_below (suc n) zero zero h = refl
or_comm_below (suc n) (suc a) b h = omega (
  arith,
  bit_or_digit (suc a) b,
  bit_or_digit b (suc a),
  or_comm_below n (suc a / 2) (b / 2) (omega arith),
)
or_comm_below (suc n) zero (suc b) h = omega (
  arith,
  bit_or_digit 0 (suc b),
  bit_or_digit (suc b) 0,
  or_comm_below n 0 (suc b / 2) (omega arith),
)

pub bit_or_comm : (a b : ℕ) → bit_or a b ≡ bit_or b a
bit_or_comm a b = or_comm_below (a + b) a b (omega arith)
