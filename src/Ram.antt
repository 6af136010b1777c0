-- ===== src/Ram.antt =====
-- The bytes of the memory, and accesses of several bytes as C's pointers make them: the lowest byte
-- first. No such access runs past the end of the address space.
pub mod Laws
use tartarus_hobby_os.Base.{
  ℕ, zero, suc, ◌+◌, ◌-◌, ◌*◌, ◌/◌, ◌^◌, List, [], ◌∷◌, ◌==◌, ltb, leb, ◌&&◌, if◌then◌else◌, u8,
  for_range,
}

abbrev pub Ram : Type 0
Ram = ℕ → ℕ

unfoldable pub store8 : ℕ → ℕ → Ram → Ram
store8 a v ram q = if q == a then u8 v else ram q

unfoldable pub store16 : ℕ → ℕ → Ram → Ram
unfolding store8
store16 a v ram = store8 (a + 1) (v / 2 ^ 8) (store8 a v ram)

unfoldable pub store32 : ℕ → ℕ → Ram → Ram
unfolding store16
store32 a v ram = store16 (a + 2) (v / 2 ^ 16) (store16 a v ram)

unfoldable pub store64 : ℕ → ℕ → Ram → Ram
unfolding store32
store64 a v ram = store32 (a + 4) (v / 2 ^ 32) (store32 a v ram)

abbrev pub load16 : Ram → ℕ → ℕ
load16 ram a = ram a + ram (a + 1) * 2 ^ 8

abbrev pub load32 : Ram → ℕ → ℕ
load32 ram a = load16 ram a + load16 ram (a + 2) * 2 ^ 16

abbrev pub load64 : Ram → ℕ → ℕ
load64 ram a = load32 ram a + load32 ram (a + 4) * 2 ^ 32

-- The bytes from an address on.
abbrev pub load_bytes : Ram → ℕ → ℕ → List ℕ
load_bytes ram a zero = []
load_bytes ram a (suc n) = ram a ∷ load_bytes ram (a + 1) n

-- `memset_custom` of a part of the memory.
unfoldable pub memset_ram : ℕ → ℕ → ℕ → Ram → Ram
memset_ram dest val count ram = for_range count 0 (λ i r. store8 (dest + i) val r) ram

-- A part of the memory is overwritten by words of 16 bits.
unfoldable pub put_words : ℕ → ℕ → (ℕ → ℕ) → Ram → Ram
put_words p n word ram q =
    let k = (q - p) / 2 in
    if leb p q && ltb q (p + 2 * n)
    then (if k * 2 == q - p then u8 (word k) else u8 (word k / 2 ^ 8))
    else ram q
