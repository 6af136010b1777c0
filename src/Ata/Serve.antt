-- ===== src/Ata/Serve.antt =====
-- The read with a drive that obeys the standard, from sector to sector.
use tartarus_hobby_os.Base.{
  ◌/◌, ◌%◌, ◌^◌, ◌>>>◌, ◌⊎◌, sym, u8, bit_or, ℕ, zero, suc, ◌+◌, ◌*◌, ◌≤◌, ◌<◌, ◌≡◌, refl, ◌∙◌, ap,
  subst, true, ◌==◌, bit_and, for_range_inv, arith, Bool-cases, inl, inr, ==_iff,
}
use tartarus_hobby_os.Base.Bits.{bit_and_low, bit_or_field}
use tartarus_hobby_os.Ata.{
  Ports, Buffer, store_word, wait_loop, ata_wait_ready, read_word, read_sector, read_loop,
  send_command, ata_read_sectors,
}
use tartarus_hobby_os.Ata.Drive.{TaskFile, set_register, lba_of, IsDrive}

module _ {ℓ κ} {D : Type ℓ} (ports : Ports D) (word : (lba k : ℕ) → ℕ) (files : D → TaskFile)
    (Idle : D → Type κ) (Serving : (lba count k busy : ℕ) → D → Type κ)
    (is_drive : IsDrive ports word files Idle Serving) where
  -- What stands in the task file when the command is given.
  abbrev sent_file : (lba sector_count : ℕ) → TaskFile
  sent_file lba sector_count = record {
    features = 0;
    count = sector_count;
    low = u8 lba;
    middle = u8 (lba >>> 8);
    high = u8 (lba >>> 16);
    device = u8 (bit_or 0xf0 (bit_and (lba >>> 24) 0x0f));
  }

  device_byte : (lba : ℕ) → lba < 2 ^ 28 → (sent_file lba 1).device ≡ 0xf0 + lba / 2 ^ 24
  device_byte lba small = omega (
    arith,
    bit_and_low 4 (lba / 2 ^ 24),
    bit_or_field 4 15 (bit_and (lba >>> 24) 0x0f) (omega (arith, bit_and_low 4 (lba / 2 ^ 24))),
  )

  send_command-Serving :
      (lba sector_count : ℕ) (d : D)
      → lba + sector_count ≤ 2 ^ 28
      → 0 < sector_count
      → sector_count < 2 ^ 8
      → Idle d
      → (busy : ℕ) × (busy < 99999)
        × Serving lba sector_count 0 busy (send_command ports lba sector_count d)
  unfolding send_command
  send_command-Serving lba sector_count d small some_sectors byte idle =
      let s1 =
        is_drive.register 0x1f6 (u8 (bit_or 0xf0 (bit_and (lba >>> 24) 0x0f))) d (omega arith)
          (omega arith) idle in
      let s2 = is_drive.register 0x1f1 0x00 _ (omega arith) (omega arith) s1.0 in
      let s3 = is_drive.register 0x1f2 sector_count _ (omega arith) (omega arith) s2.0 in
      let s4 = is_drive.register 0x1f3 (u8 lba) _ (omega arith) (omega arith) s3.0 in
      let s5 = is_drive.register 0x1f4 (u8 (lba >>> 8)) _ (omega arith) (omega arith) s4.0 in
      let s6 = is_drive.register 0x1f5 (u8 (lba >>> 16)) _ (omega arith) (omega arith) s5.0 in
      let file =
        s6.1
        ∙ ap (set_register 0x1f5 (u8 (lba >>> 16))) (
            s5.1
            ∙ ap (set_register 0x1f4 (u8 (lba >>> 8))) (
                s4.1
                ∙ ap (set_register 0x1f3 (u8 lba)) (
                    s3.1
                    ∙ ap (set_register 0x1f2 sector_count)
                        (s2.1 ∙ ap (set_register 0x1f1 0x00) s1.1)))) in
      let device = ap (λ (r : TaskFile). r.device) file in
      let byte_6 = device_byte lba (omega arith) in
      let number : lba_of (sent_file lba sector_count) ≡ lba = omega (arith, byte_6) in
      is_drive.command lba sector_count _ s6.0 (ap lba_of file ∙ number)
        (ap (λ (r : TaskFile). r.count) file) (omega (arith, device, byte_6))
        (omega (arith, device, byte_6)) some_sectors byte small

  -- The words before `n` are in the buffer, and the drive is in a state.
  pub record Filled (lba n : ℕ) (State : D → Type κ) (t : Buffer × ℕ × D) : Type κ where
    pub index : t.1 ≡ n
    pub state : State t.2
    pub words : (k : ℕ) → k < n → t.0 k ≡ word lba k

  -- Between two sectors, or behind the last.
  abbrev Between : (lba count n : ℕ) → D → Type κ
  Between lba count n d =
      ((n < 256 * count) × ((left : ℕ) × (left < 99999) × Serving lba count n left d))
      ⊎ ((n ≡ 256 * count) × Idle d)

  -- In a sector that begins at `n`, behind `k` words of it.
  abbrev Inside : (lba count n k : ℕ) → D → Type κ
  Inside lba count n k d =
      ((k < 256) × Serving lba count (n + k) 0 d) ⊎ ((k ≡ 256) × Between lba count (n + 256) d)

  wait_loop-ready :
      (lba count k m left : ℕ) (d : D)
      → Serving lba count k left d
      → k < 256 * count
      → left < m
      → ((wait_loop ports m d).0 ≡ true) × Serving lba count k 0 (wait_loop ports m d).1
  unfolding wait_loop
  wait_loop-ready lba count k zero left d is below short = absurd (omega arith)
  wait_loop-ready lba count k (suc m) zero d is below short =
      let r = is_drive.ready lba count k d is below in rw (wait_loop, r.0) (refl, r.1)
  wait_loop-ready lba count k (suc m) (suc left) d is below short =
      let r = is_drive.busy lba count k left d is in
      rw (wait_loop, r.0, r.1) (wait_loop-ready lba count k m left _ r.2 below (omega arith))

  after_word :
      (lba count n k : ℕ) (d : D)
      → n % 256 ≡ 0
      → n + 256 ≤ 256 * count
      → k < 256
      → Serving lba count (n + k) 0 d
      → Inside lba count n (suc k) (ports.read_data d).1
  after_word lba count n k d sector room below is = elim (Bool-cases (suc k == 256)) [
    | inl last ↦
        let e : suc k ≡ 256 = (==_iff (suc k) 256).0 last in
        inr (
          e,
          elim (Bool-cases (n + 256 == 256 * count)) [
            | inl behind ↦
                let e' : n + 256 ≡ 256 * count = (==_iff _ _).0 behind in
                inr (e', is_drive.last_word lba count (n + k) d is (omega (arith, e, e')))
            | inr more ↦
                let less : n + 256 < 256 * count = ground arith in
                let there : suc (n + k) ≡ n + 256 = omega (arith, e) in
                let next =
                  is_drive.next_sector lba count (n + k) d is (omega (arith, there, less))
                    (omega (arith, there, sector)) in
                inl (
                  less,
                  (
                    next.0,
                    next.1,
                    subst (λ m. Serving lba count m next.0 (ports.read_data d).1) there next.2,
                  ),
                )
          ],
        )
    | inr early ↦
        let less : suc k < 256 = ground arith in
        let there : suc (n + k) ≡ n + suc k = omega arith in
        inl (
          less,
          subst (λ m. Serving lba count m 0 (ports.read_data d).1) there
              (is_drive.within_sector lba count (n + k) d is (omega (arith, room))
                (λ z. omega (arith, sector, less, z))),
        )
  ]

  read_word-Filled :
      (lba count n k : ℕ) (t : Buffer × ℕ × D)
      → n % 256 ≡ 0
      → n + 256 ≤ 256 * count
      → k < 256
      → Filled lba (n + k) (Inside lba count n k) t
      → Filled lba (n + suc k) (Inside lba count n (suc k)) (read_word ports t)
  unfolding read_word store_word
  read_word-Filled lba count n k (b, i, d) sector room below is =
      let serving : Serving lba count (n + k) 0 d = elim is.state [
        | inl h ↦ h.1
        | inr h ↦ absurd (omega (arith, h.0))
      ] in
      record {
        index = omega (arith, is.index);
        state = after_word lba count n k d sector room below serving;
        words = λ j h. elim (Bool-cases (j == i)) [
          | inl last ↦
              let e : n + k ≡ j = omega (arith, (==_iff j i).0 last, is.index) in
              rw last
                (is_drive.value lba count (n + k) d serving (omega (arith, room)) ∙ ap (word lba) e)
          | inr old ↦ rw old (is.words j (ground (arith, is.index)))
        ];
      }

  read_sector-Filled :
      (lba count n : ℕ) (t : Buffer × ℕ × D)
      → n % 256 ≡ 0
      → n + 256 ≤ 256 * count
      → Filled lba n (Serving lba count n 0) t
      → Filled lba (n + 256) (Between lba count (n + 256)) (read_sector ports t)
  unfolding read_sector
  read_sector-Filled lba count n t sector room is =
      let start : n + 0 ≡ n = omega arith in
      let r =
        for_range_inv (λ k u. Filled lba (n + k) (Inside lba count n k) u)
          (λ i u. read_word ports u) 256 0 256 t (omega arith)
          (λ k u lo hi h. read_word-Filled lba count n k u sector room hi h)
          (record {
            index = omega (arith, is.index);
            state = inl (omega arith, subst (λ m. Serving lba count m 0 t.2) (sym start) is.state);
            words = λ j h. is.words j (omega arith);
          }) in
      record {
        index = r.index;
        state = elim r.state [ inl h ↦ absurd (omega (arith, h.0)) | inr h ↦ h.1 ];
        words = r.words;
      }

  read_loop-Filled :
      (lba count rounds n : ℕ) (t : Buffer × ℕ × D)
      → n % 256 ≡ 0
      → n + 256 * rounds ≡ 256 * count
      → Filled lba n (Between lba count n) t
      → ((read_loop ports rounds t).0 ≡ true)
        × Filled lba (256 * count) Idle (read_loop ports rounds t).1
  unfolding read_loop
  read_loop-Filled lba count zero n t sector whole is =
      let e : n ≡ 256 * count = omega (arith, whole) in
      (
        refl,
        record {
          index = is.index ∙ e;
          state = elim is.state [ inl h ↦ absurd (omega (arith, h.0, e)) | inr h ↦ h.1 ];
          words = λ k h. is.words k (omega (arith, e));
        },
      )
  read_loop-Filled lba count (suc rounds) n (b, i, d) sector whole is = elim is.state [
    | inr h ↦ absurd (omega (arith, h.0, whole))
    | inl (below, (left, short, serving)) ↦
        let w : ((ata_wait_ready ports d).0 ≡ true)
            × Serving lba count n 0 (ata_wait_ready ports d).1 =
          unfold ata_wait_ready in wait_loop-ready lba count n 99999 left d serving below short in
        let t' = read_sector ports (b, i, (ata_wait_ready ports d).1) in
        let rest =
          read_loop-Filled lba count rounds (n + 256) t' (omega (arith, sector))
            (omega (arith, whole))
            (read_sector-Filled lba count n (b, i, (ata_wait_ready ports d).1) sector
              (omega (arith, whole))
              (record { index = is.index; state = w.1; words = is.words })) in
        rw (read_loop, w.0) rest
  ]

  pub ata_read_sectors-Filled :
      (lba sector_count : ℕ) (target_buffer : Buffer) (d : D)
      → lba + sector_count ≤ 2 ^ 28
      → 0 < sector_count
      → sector_count < 2 ^ 8
      → Idle d
      → ((ata_read_sectors ports lba sector_count target_buffer d).0 ≡ true)
        × Filled lba
            (256 * sector_count)
            Idle
            (ata_read_sectors ports lba sector_count target_buffer d).1
  unfolding ata_read_sectors
  ata_read_sectors-Filled lba sector_count target_buffer d small some_sectors byte idle =
      read_loop-Filled lba sector_count sector_count 0
        (target_buffer, 0, send_command ports lba sector_count d) refl (omega arith)
        (record {
          index = refl;
          state =
              inl
                (omega arith, send_command-Serving lba sector_count d small some_sectors byte idle);
          words = λ j h. absurd (omega arith);
        })
