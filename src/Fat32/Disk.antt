-- ===== src/Fat32/Disk.antt =====
-- Reading sectors into the memory, with a drive that holds a disk.
use tartarus_hobby_os.Base.{
  ℕ, ◌+◌, ◌*◌, ◌/◌, ◌^◌, ◌≤◌, ◌<◌, ◌≡◌, ◌⊎◌, refl, arith, Bool, true, some,
}
use tartarus_hobby_os.Ata.{Ports, ata_read_sectors}
use tartarus_hobby_os.Ata.Drive.{TaskFile, IsDrive}
use tartarus_hobby_os.Ata.Read.{ata_read_sectors-word, ata_read_sectors-next}
use tartarus_hobby_os.Ram.{load16, put_words}
use tartarus_hobby_os.Ram.Laws.{put_words-same, put_words-bytes}
use tartarus_hobby_os.Machine.{Machine, read_sectors}

abbrev pub word_of : (ℕ → ℕ) → ℕ → ℕ → ℕ
word_of disk lba k = disk (lba * 512 + k * 2) + disk (lba * 512 + (k * 2 + 1)) * 2 ^ 8

-- The drive holds the bytes `disk`, and obeys the ATA standard.
pub record HoldsDisk {ℓ κ} {D : Type ℓ} (ports : Ports D) (disk : ℕ → ℕ) (files : D → TaskFile)
    (Idle : D → Type κ) (Serving : (lba count k busy : ℕ) → D → Type κ) : Type (ℓ ⊔ κ) where
  pub bytes : (i : ℕ) → disk i < 2 ^ 8
  pub is_drive : IsDrive ports (word_of disk) files Idle Serving

-- At most the `n` bytes from `p` on, and the drive, have changed.
pub record IsWithin {ℓ} {D : Type ℓ} (p n : ℕ) (m m' : Machine D) : Type ℓ where
  pub others : (q : ℕ) → (q < p) ⊎ (p + n ≤ q) → m'.ram q ≡ m.ram q
  pub same_heap : m'.heap ≡ m.heap
  pub same_volume : m'.volume ≡ m.volume
  pub same_console : m'.console ≡ m.console

-- The sectors from `lba` on are in the memory from `p` on, and nothing else has changed.
pub record IsRead {ℓ κ} {D : Type ℓ} (disk : ℕ → ℕ) (Idle : D → Type κ) (lba count p : ℕ)
    (m m' : Machine D) : Type (ℓ ⊔ κ) where
  pub data_bytes : (j : ℕ) → j < 512 * count → m'.ram (p + j) ≡ disk (lba * 512 + j)
  pub idle : Idle m'.drive
  pub within : IsWithin p (512 * count) m m'

-- With any drive, whatever it answers.
pub read_sectors-IsWithin {ℓ} :
    {D : Type ℓ} (ports : Ports D) (lba count p : ℕ) (m : Machine D)
    → (r : Bool) × (m' : Machine D) × (read_sectors ports lba count p m ≡ some (r, m'))
      × IsWithin p (512 * count) m m'
unfolding read_sectors
read_sectors-IsWithin ports lba count p m =
    let t = ata_read_sectors ports lba count (λ k. load16 m.ram (p + 2 * k)) m.drive in
    (
      t.0,
      record m { ram = put_words p (256 * count) t.1.0 m.ram; drive = t.1.2 },
      refl,
      record {
        others = λ q out. put_words-same p (256 * count) t.1.0 m.ram q (omega (arith, out));
        same_heap = refl;
        same_volume = refl;
        same_console = refl;
      },
    )

-- With a drive that holds a disk, reading sectors of 28-bit numbers succeeds, and puts them into the
-- memory.
pub read_sectors-IsRead {ℓ κ} :
    {D : Type ℓ} (ports : Ports D) (disk : ℕ → ℕ) (files : D → TaskFile) (Idle : D → Type κ)
    (Serving : (lba count k busy : ℕ) → D → Type κ)
    → HoldsDisk ports disk files Idle Serving
    → (lba count p : ℕ) (m : Machine D) → lba + count ≤ 2 ^ 28
    → 0 < count
    → count < 2 ^ 8
    → Idle m.drive
    → (m' : Machine D) × (read_sectors ports lba count p m ≡ some (true, m'))
      × IsRead disk Idle lba count p m m'
unfolding read_sectors
read_sectors-IsRead ports disk files Idle Serving holds lba count p m small some_sectors byte idle =
    let b : ℕ → ℕ = λ k. load16 m.ram (p + 2 * k) in
    let t = ata_read_sectors ports lba count b m.drive in
    let next =
      ata_read_sectors-next ports (word_of disk) files Idle Serving holds.is_drive lba count b
        m.drive small some_sectors byte idle in
    let word : (k : ℕ) → k < 256 * count → t.1.0 k ≡ word_of disk lba k = λ k inside.
      (ata_read_sectors-word ports (word_of disk) files Idle Serving holds.is_drive lba count b
        m.drive k small some_sectors byte idle inside).1 in
    let after = record m { ram = put_words p (256 * count) t.1.0 m.ram; drive = t.1.2 } in
    (
      after,
      rw next.0,
      record {
        data_bytes = λ j inside.
            put_words-bytes p (256 * count) t.1.0 m.ram (λ i. disk (lba * 512 + i)) j (omega arith)
              (word (j / 2) (omega arith)) (holds.bytes _) (holds.bytes _);
        idle = next.1;
        within = record {
          others = λ q out. put_words-same p (256 * count) t.1.0 m.ram q (omega (arith, out));
          same_heap = refl;
          same_volume = refl;
          same_console = refl;
        };
      },
    )
