-- ===== src/Pci/Address.antt =====
-- The fields of a configuration address, and the word that is read.
use tartarus_hobby_os.Base.{
  ℕ, ◌+◌, ◌*◌, ◌/◌, ◌%◌, ◌^◌, ◌<◌, ◌≡◌, ◌∙◌, ap, arith, bit_and, bit_or, u16, u32,
}
use tartarus_hobby_os.Base.Bits.{bit_and_digit, bit_and_low, bit_or_field, bit_or_comm}
use tartarus_hobby_os.Pci.{config_address, config_read_word}

-- `& 0xFC` takes a byte's last two bits away.
mask_offset : (offset : ℕ) → offset < 256 → bit_and offset 0xfc ≡ offset / 4 * 4
mask_offset offset h = omega (
  arith,
  bit_and_digit offset 0xfc,
  bit_and_digit (offset / 2) 0x7e,
  bit_and_low 6 (offset / 2 / 2),
)

-- The address holds, each in its own bits, the enabling bit, the bus, the slot, the function, and
-- the register of four bytes that the offset lies in.
config_address-fields :
    (bus slot func offset : ℕ)
    → bus < 256
    → slot < 32
    → func < 8
    → offset < 256
    → config_address bus slot func offset
      ≡ 2 ^ 31 + bus * 2 ^ 16 + slot * 2 ^ 11 + func * 2 ^ 8 + offset / 4 * 4
unfolding config_address
config_address-fields bus slot func offset hb hs hf ho =
    let in_bus : u32 (bus * 2 ^ 16) ≡ bus * 2 ^ 16 = omega arith in
    let in_slot : u32 (slot * 2 ^ 11) ≡ slot * 2 ^ 11 = omega arith in
    let in_func : u32 (func * 2 ^ 8) ≡ func * 2 ^ 8 = omega arith in
    let device : bit_or (bus * 2 ^ 16) (slot * 2 ^ 11) ≡ (bus * 32 + slot) * 2 ^ 11 =
      bit_or_field 16 bus (slot * 2 ^ 11) (omega arith) ∙ omega arith in
    let function : bit_or ((bus * 32 + slot) * 2 ^ 11) (func * 2 ^ 8)
        ≡ ((bus * 32 + slot) * 8 + func) * 2 ^ 8 =
      bit_or_field 11 (bus * 32 + slot) (func * 2 ^ 8) (omega arith) ∙ omega arith in
    let whole = ((bus * 32 + slot) * 8 + func) * 2 ^ 8 + offset / 4 * 4 in
    let register : bit_or (((bus * 32 + slot) * 8 + func) * 2 ^ 8) (offset / 4 * 4) ≡ whole =
      bit_or_field 8 ((bus * 32 + slot) * 8 + func) (offset / 4 * 4) (omega arith) in
    let enabled : bit_or whole 0x8000_0000 ≡ 2 ^ 31 + whole =
      bit_or_comm whole 0x8000_0000 ∙ bit_or_field 31 1 whole (omega arith) in
    rw (in_bus, in_slot, in_func, device, function, mask_offset offset ho, register, enabled)
      (omega arith)

-- `Tartarus_PciConfigReadWord` reads the lower or the upper half of the register, after bit 1 of
-- the offset.
config_read_word-half :
    (config : ℕ → ℕ) (bus slot func offset : ℕ)
    → bus < 256
    → slot < 32
    → func < 8
    → offset < 256
    → config_read_word config bus slot func offset
      ≡ config (2 ^ 31 + bus * 2 ^ 16 + slot * 2 ^ 11 + func * 2 ^ 8 + offset / 4 * 4)
        / 2 ^ (offset / 2 % 2 * 16)
        % 2 ^ 16
unfolding config_read_word
config_read_word-half config bus slot func offset hb hs hf ho =
    let shift : bit_and offset 2 * 8 ≡ offset / 2 % 2 * 16 =
      omega (arith, bit_and_digit offset 2, bit_and_low 1 (offset / 2)) in
    rw (config_address-fields bus slot func offset hb hs hf ho, shift)
      (ap u16 (bit_and_low 16 _) ∙ omega arith)
