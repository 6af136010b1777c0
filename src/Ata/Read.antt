-- ===== src/Ata/Read.antt =====
-- What a read leaves in the buffer, with any drive and with one that obeys the standard.
use tartarus_hobby_os.Base.{
  ◌^◌, ℕ, zero, suc, ◌+◌, ◌*◌, ◌≤◌, ◌<◌, ◌≡◌, refl, subst, true, for_range_inv, arith, Bool-cases,
  inl, inr,
}
use tartarus_hobby_os.Ata.{
  Ports, Buffer, store_word, ata_wait_ready, read_word, read_sector, read_loop, send_command,
  ata_read_sectors,
}
use tartarus_hobby_os.Ata.Drive.{TaskFile, IsDrive}
use tartarus_hobby_os.Ata.Serve.{ata_read_sectors-Filled}

module _ {ℓ} {D : Type ℓ} (ports : Ports D) (b0 : Buffer) where
  -- The words from the index on are as at the start, and the index is at most `n`.
  record Within (n : ℕ) (t : Buffer × ℕ × D) : Type 0 where
    index : t.1 ≤ n
    kept : (k : ℕ) → t.1 ≤ k → t.0 k ≡ b0 k

  read_word-Within : (n : ℕ) (t : Buffer × ℕ × D) → Within n t → Within (suc n) (read_word ports t)
  unfolding read_word store_word
  read_word-Within n (b, i, d) is = record {
    index = omega (arith, is.index);
    kept = λ k h. ground (arith, is.kept k);
  }

  read_sector-Within :
      (n : ℕ) (t : Buffer × ℕ × D) → Within n t → Within (n + 256) (read_sector ports t)
  unfolding read_sector
  read_sector-Within n t is =
      for_range_inv (λ k u. Within (n + k) u) (λ i u. read_word ports u) 256 0 256 t (omega arith)
        (λ k u lo hi h.
          subst (λ m. Within m (read_word ports u)) (omega arith) (read_word-Within (n + k) u h))
        (subst (λ m. Within m t) (omega arith) is)

  read_loop-Within :
      (rounds n : ℕ) (t : Buffer × ℕ × D)
      → Within n t
      → Within (n + 256 * rounds) (read_loop ports rounds t).1
  unfolding read_loop
  read_loop-Within zero n t is = subst (λ m. Within m t) (omega arith) is
  read_loop-Within (suc rounds) n (b, i, d) is =
      let d' = (ata_wait_ready ports d).1 in
      elim (Bool-cases (ata_wait_ready ports d).0) [
        | inr not_ready ↦
            rw (read_loop, not_ready) (record { index = omega (arith, is.index); kept = is.kept })
        | inl ready ↦
            rw (read_loop, ready)
              (subst (λ m. Within m (read_loop ports rounds (read_sector ports (b, i, d'))).1)
                (omega arith)
                (read_loop-Within rounds (n + 256) (read_sector ports (b, i, d'))
                  (read_sector-Within n (b, i, d') (record { index = is.index; kept = is.kept }))))
      ]

-- With any drive and whatever it answers, the words behind `sector_count` sectors of 256 words are
-- as before.
pub ata_read_sectors-kept {ℓ} :
    {D : Type ℓ} (ports : Ports D) (lba sector_count : ℕ) (target_buffer : Buffer) (d : D) (k : ℕ)
    → 256 * sector_count ≤ k
    → (ata_read_sectors ports lba sector_count target_buffer d).1.0 k ≡ target_buffer k
unfolding ata_read_sectors
ata_read_sectors-kept ports lba sector_count target_buffer d k behind =
    let start : Within ports target_buffer 0
        (target_buffer, 0, send_command ports lba sector_count d) =
      record { index = omega arith; kept = λ j h. refl } in
    let w = read_loop-Within ports target_buffer sector_count 0 _ start in
    w.kept k (omega (arith, w.index))

module _ {ℓ κ} {D : Type ℓ} (ports : Ports D) (word : (lba k : ℕ) → ℕ) (files : D → TaskFile)
    (Idle : D → Type κ) (Serving : (lba count k busy : ℕ) → D → Type κ)
    (is_drive : IsDrive ports word files Idle Serving) where
  -- With a drive that is idle and obeys the standard, and sectors of 28-bit numbers, 1 to 255 of
  -- them: the read succeeds, however long the drive is busy before each sector as long as that is
  -- less than 99999 polls, and the buffer holds the words of the sectors, in their order.
  pub ata_read_sectors-word :
      (lba sector_count : ℕ) (target_buffer : Buffer) (d : D) (k : ℕ)
      → lba + sector_count ≤ 2 ^ 28
      → 0 < sector_count
      → sector_count < 2 ^ 8
      → Idle d
      → k < 256 * sector_count
      → ((ata_read_sectors ports lba sector_count target_buffer d).0 ≡ true)
        × ((ata_read_sectors ports lba sector_count target_buffer d).1.0 k ≡ word lba k)
  ata_read_sectors-word lba sector_count target_buffer d k small some_sectors byte idle inside =
      let r =
        ata_read_sectors-Filled ports word files Idle Serving is_drive lba sector_count
          target_buffer d small some_sectors byte idle in
      (r.0, r.1.words k inside)

  -- And the drive is idle again.
  pub ata_read_sectors-next :
      (lba sector_count : ℕ) (target_buffer : Buffer) (d : D)
      → lba + sector_count ≤ 2 ^ 28
      → 0 < sector_count
      → sector_count < 2 ^ 8
      → Idle d
      → ((ata_read_sectors ports lba sector_count target_buffer d).0 ≡ true)
        × Idle (ata_read_sectors ports lba sector_count target_buffer d).1.2
  ata_read_sectors-next lba sector_count target_buffer d small some_sectors byte idle =
      let r =
        ata_read_sectors-Filled ports word files Idle Serving is_drive lba sector_count
          target_buffer d small some_sectors byte idle in
      (r.0, r.1.state)
