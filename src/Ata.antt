-- ===== src/Ata.antt =====
-- src/ata.c: reading sectors from the drive. `D` is the state of the drive behind its ports, which
-- the reads change too. The target buffer is a function of the index of a 16-bit word.
pub mod Drive
pub mod Serve
pub mod Read
pub mod Sample
mod Examples
use tartarus_hobby_os.Base.{
  ℕ, zero, suc, ◌+◌, ◌^◌, Bool, true, false, ◌&&◌, not, ◌==◌, if◌then◌else◌, bit_and, bit_or, u8,
  ◌>>>◌, for_range,
}

-- `outb`, `inb(0x1F7)` and `inw(0x1F0)`.
pub record Ports {ℓ} (D : Type ℓ) : Type ℓ where
  pub outb : ℕ → ℕ → D → D
  pub read_status : D → ℕ × D
  pub read_data : D → ℕ × D

abbrev pub Buffer : Type 0
Buffer = ℕ → ℕ

unfoldable pub store_word : ℕ → ℕ → Buffer → Buffer
store_word i w b k = if k == i then w else b k

module _ {ℓ} {D : Type ℓ} (ports : Ports D) where
  -- The polls that are left.
  unfoldable pub wait_loop : ℕ → D → Bool × D
  wait_loop zero d = (false, d)
  wait_loop (suc n) d =
      let (status, d') = ports.read_status d in
      elim ((bit_and status 0x80 == 0) && not (bit_and status 0x08 == 0)) [
        | true ↦ (true, d')
        | false ↦ elim (bit_and status 0x01 == 0) [ false ↦ (false, d') | true ↦ wait_loop n d' ]
      ]

  -- `while (--timeout)` from 100000 polls at most 99999 times.
  unfoldable pub ata_wait_ready : D → Bool × D
  ata_wait_ready d = wait_loop 99999 d

  -- `*ptr = inw(0x1F0); ptr++`, with the index that the pointer stands at.
  unfoldable pub read_word : Buffer × ℕ × D → Buffer × ℕ × D
  read_word (b, i, d) = let (w, d') = ports.read_data d in (store_word i w b, suc i, d')

  unfoldable pub read_sector : Buffer × ℕ × D → Buffer × ℕ × D
  read_sector t = for_range 256 0 (λ i u. read_word u) t

  -- The sectors that are left.
  unfoldable pub read_loop : ℕ → Buffer × ℕ × D → Bool × (Buffer × ℕ × D)
  read_loop zero t = (true, t)
  read_loop (suc n) (b, i, d) =
      let (is_ready, d') = ata_wait_ready d in
      elim is_ready [ false ↦ (false, (b, i, d')) | true ↦ read_loop n (read_sector (b, i, d')) ]

  unfoldable pub send_command : ℕ → ℕ → D → D
  send_command lba sector_count d =
      let d1 = ports.outb 0x1f6 (u8 (bit_or 0xf0 (bit_and (lba >>> 24) 0x0f))) d in
      let d2 = ports.outb 0x1f1 0x00 d1 in
      let d3 = ports.outb 0x1f2 sector_count d2 in
      let d4 = ports.outb 0x1f3 (u8 lba) d3 in
      let d5 = ports.outb 0x1f4 (u8 (lba >>> 8)) d4 in
      let d6 = ports.outb 0x1f5 (u8 (lba >>> 16)) d5 in ports.outb 0x1f7 0x20 d6

  unfoldable pub ata_read_sectors : ℕ → ℕ → Buffer → D → Bool × (Buffer × ℕ × D)
  ata_read_sectors lba sector_count target_buffer d =
      read_loop sector_count (target_buffer, 0, send_command lba sector_count d)
