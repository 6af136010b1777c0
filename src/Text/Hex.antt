-- ===== src/Text/Hex.antt =====
-- `HexToInt64` reads back what `HexToString` writes.
use tartarus_hobby_os.Base.{
  ℕ, zero, suc, ◌+◌, ◌*◌, ◌/◌, ◌%◌, ◌^◌, ◌≤◌, ◌<◌, ◌≡◌, refl, ◌∙◌, ap, bit_and, bit_or, Bool, true,
  Option, none, some, List, [], ◌∷◌, ◌++◌, arith, ◌==◌, length, set, get_or, take, drop, length-set,
  u64, ◌<<<◌, false,
}
use tartarus_hobby_os.Base.Bits.{all_below, all_below_lem, bit_and_low, bit_or_field}
use tartarus_hobby_os.Text.{
  hex_value, hex_chars, hex_to_int64_loop, hex_to_int64, hex_to_string_loop, hex_to_string,
}
use native.Mathlib.Nat.{pow-suc}

-- The digits of `v`, before `rest`.
abbrev pub digits : ℕ → ℕ → List ℕ → List ℕ
digits zero v rest = rest
digits (suc k) v rest = digits k (v / 16) (get_or hex_chars (v % 16) 0 ∷ rest)

drop-set : (xs : List ℕ) (i v : ℕ) → i < length xs → drop i (set xs i v) ≡ v ∷ drop (suc i) xs
drop-set [] i v h = absurd (omega arith)
drop-set (x ∷ xs) zero v h = refl
drop-set (x ∷ xs) (suc i) v h = drop-set xs i v (omega arith)

-- All digits have their value.
gives : Option ℕ → ℕ → Bool
gives none d = false
gives (some v) d = v == d

gives→eq : (o : Option ℕ) (d : ℕ) → gives o d ≡ true → o ≡ some d
unfolding gives
gives→eq none d h = cc
gives→eq (some v) d h = ground arith

value_table : all_below 16 (λ d. gives (hex_value (get_or hex_chars d 0)) d) ≡ true
unfolding all_below gives hex_value
value_table = refl

hex_value-digit : (d : ℕ) → d < 16 → hex_value (get_or hex_chars d 0) ≡ some d
hex_value-digit d h = gives→eq _ d (all_below_lem 16 _ d value_table h)

shift_in : (v : ℕ) → v < 2 ^ 64 → bit_or (u64 ((v / 16) <<< 4)) (v % 16) ≡ v
shift_in v h =
    let fits : u64 ((v / 16) <<< 4) ≡ v / 16 * 2 ^ 4 = omega arith in
    rw (fits, bit_or_field 4 (v / 16) (v % 16) (omega arith)) (omega arith)

loop_step :
    (result val c : ℕ) (rest : List ℕ)
    → hex_value c ≡ some val
    → hex_to_int64_loop result (c ∷ rest) ≡ hex_to_int64_loop (bit_or (u64 (result <<< 4)) val) rest
unfolding hex_to_int64_loop
loop_step result val c rest e = rw (e, hex_to_int64_loop)

-- Reading the digits of `v` gives `v`, whatever follows is read on.
hex_to_int64_loop-digits :
    (k v : ℕ) (rest : List ℕ)
    → v < 16 ^ k
    → 16 ^ k ≤ 2 ^ 64
    → hex_to_int64_loop 0 (digits k v rest) ≡ hex_to_int64_loop v rest
hex_to_int64_loop-digits zero v rest h fits = let none_left : v ≡ 0 = omega arith in rw none_left
hex_to_int64_loop-digits (suc k) v rest h fits =
    let ih =
      hex_to_int64_loop-digits k (v / 16) (get_or hex_chars (v % 16) 0 ∷ rest)
        (omega (arith, pow-suc 16 k)) (omega (arith, pow-suc 16 k)) in
    ih
    ∙ loop_step (v / 16) (v % 16) (get_or hex_chars (v % 16) 0) rest
        (hex_value-digit (v % 16) (omega arith))
    ∙ ap (λ (t : ℕ). hex_to_int64_loop t rest) (shift_in v (omega arith))

take-set : (xs : List ℕ) (k v : ℕ) → take 2 (set xs (k + 2) v) ≡ take 2 xs
take-set xs k v = let up : k + 2 ≡ suc (suc k) = omega arith in rw up (past xs)
  where
    past : (xs : List ℕ) → take 2 (set xs (suc (suc k)) v) ≡ take 2 xs
    past [] = refl
    past (a ∷ []) = refl
    past (a ∷ b ∷ ys) = refl

-- The buffer after the rounds: the first two bytes and those behind the digits are as before.
hex_to_string_loop-digits :
    (k v : ℕ) (buffer : List ℕ)
    → k + 2 ≤ length buffer
    → hex_to_string_loop k v buffer ≡ take 2 buffer ++ digits k v (drop (k + 2) buffer)
unfolding hex_to_string_loop
hex_to_string_loop-digits zero v (a ∷ b ∷ buffer) h = refl
hex_to_string_loop-digits zero v [] h = absurd (omega arith)
hex_to_string_loop-digits zero v (a ∷ []) h = absurd (omega arith)
hex_to_string_loop-digits (suc k) v buffer h =
    let digit = get_or hex_chars (v % 16) 0 in
    let low : bit_and v 15 ≡ v % 16 = bit_and_low 4 v in
    let ih =
      hex_to_string_loop-digits k (v / 16) (set buffer (k + 2) digit)
        (omega (arith, length-set buffer (k + 2) digit)) in
    let same : take 2 (set buffer (k + 2) digit) ≡ take 2 buffer = take-set buffer k digit in
    let up : suc k + 2 ≡ suc (k + 2) = omega arith in
    let behind : drop (k + 2) (set buffer (k + 2) digit) ≡ digit ∷ drop (suc k + 2) buffer =
      rw up (drop-set buffer (k + 2) digit (omega arith)) in
    rw (low, ih, same, behind)

-- `HexToString` into 19 bytes or more: `0x`, the sixteen digits, and the terminator.
pub hex_to_string-digits :
    (v : ℕ) (buffer : List ℕ)
    → 19 ≤ length buffer
    → hex_to_string v buffer ≡ b'0' ∷ b'x' ∷ digits 16 v (0 ∷ drop 19 buffer)
unfolding hex_to_string
hex_to_string-digits v [] h = absurd (omega arith)
hex_to_string-digits v (a ∷ []) h = absurd (omega arith)
hex_to_string-digits v (a ∷ b ∷ buffer) h =
    hex_to_string_loop-digits 16 v (b'0' ∷ b'x' ∷ set buffer 16 0)
      (omega (arith, length-set buffer 16 0))
    ∙ ap (λ (r : List ℕ). b'0' ∷ b'x' ∷ digits 16 v r) (drop-set buffer 16 0 (omega arith))

-- A word that is written with 16 digits is read back.
pub hex_to_int64-hex_to_string :
    (v : ℕ) (buffer : List ℕ)
    → v < 2 ^ 64
    → 19 ≤ length buffer
    → hex_to_int64 (hex_to_string v buffer) ≡ v
unfolding hex_to_int64
hex_to_int64-hex_to_string v buffer h room = rw (hex_to_string-digits v buffer room) (
    hex_to_int64_loop-digits 16 v (0 ∷ drop 19 buffer) (omega arith) (omega arith)
    ∙ (unfold hex_to_int64_loop hex_value in refl))
