-- ===== src/Ata/Drive.antt =====
-- What a drive does that obeys the ATA standard, for reads by programmed transfers.
use tartarus_hobby_os.Base.{
  Bool, ◌&&◌, not, ◌/◌, ◌%◌, ◌^◌, ◌≢◌, if◌then◌else◌, ℕ, suc, ◌+◌, ◌*◌, ◌≤◌, ◌<◌, ◌≡◌, true, false,
  ◌==◌, bit_and,
}
use tartarus_hobby_os.Ata.{Ports}

-- The task file of an ATA drive, which the ports 0x1F1 to 0x1F6 write.
pub record TaskFile : Type 0 where
  pub features : ℕ
  pub count : ℕ
  pub low : ℕ
  pub middle : ℕ
  pub high : ℕ
  pub device : ℕ

abbrev pub set_register : (port value : ℕ) → TaskFile → TaskFile
set_register port value r =
    if port == 0x1f1
    then record r { features = value }
    else if port == 0x1f2
    then record r { count = value }
    else if port == 0x1f3
    then record r { low = value }
    else if port == 0x1f4
    then record r { middle = value }
    else if port == 0x1f5
    then record r { high = value }
    else if port == 0x1f6
    then record r { device = value }
    else r

-- The number of a sector, of 28 bits.
abbrev pub lba_of : TaskFile → ℕ
lba_of r = r.low + r.middle * 2 ^ 8 + r.high * 2 ^ 16 + r.device % 16 * 2 ^ 24

-- A status that says that there is data to read.
abbrev pub gives_data : ℕ → Bool
gives_data status = (bit_and status 0x80 == 0) && not (bit_and status 0x08 == 0)

-- The second drive of the channel, as the ATA standard describes its reads by programmed transfers:
-- `Idle` says that it takes a command, and `Serving lba count k busy` that in a read of `count`
-- sectors from `lba` on it is about to give the word `k`, after as many more polls as `busy`. Before
-- each sector it is busy for a time of its own, which is shorter than 99999 polls; while it is, its
-- status announces no data and no error. Within a sector it gives a word for each read, and behind
-- the last sector it announces nothing more and takes a command.
pub record IsDrive {ℓ κ} {D : Type ℓ} (ports : Ports D) (word : (lba k : ℕ) → ℕ)
    (files : D → TaskFile) (Idle : D → Type κ) (Serving : (lba count k busy : ℕ) → D → Type κ)
    : Type (ℓ ⊔ κ) where
  pub register :
      (port value : ℕ) (d : D)
      → 0x1f1 ≤ port
      → port ≤ 0x1f6
      → Idle d
      → Idle (ports.outb port value d)
        × (files (ports.outb port value d) ≡ set_register port value (files d))
  pub command :
      (lba count : ℕ) (d : D)
      → Idle d
      → lba_of (files d) ≡ lba
      → (files d).count ≡ count
      → (files d).device / 64 % 2 ≡ 1
      → (files d).device / 16 % 2 ≡ 1
      → 0 < count
      → count < 2 ^ 8
      → lba + count ≤ 2 ^ 28
      → (left : ℕ) × (left < 99999) × Serving lba count 0 left (ports.outb 0x1f7 0x20 d)
  pub busy :
      (lba count k left : ℕ) (d : D)
      → Serving lba count k (suc left) d
      → (gives_data (ports.read_status d).0 ≡ false)
        × ((bit_and (ports.read_status d).0 0x01 == 0) ≡ true)
        × Serving lba count k left (ports.read_status d).1
  pub ready :
      (lba count k : ℕ) (d : D)
      → Serving lba count k 0 d
      → k < 256 * count
      → (gives_data (ports.read_status d).0 ≡ true) × Serving lba count k 0 (ports.read_status d).1
  pub value :
      (lba count k : ℕ) (d : D)
      → Serving lba count k 0 d
      → k < 256 * count
      → (ports.read_data d).0 ≡ word lba k
  pub within_sector :
      (lba count k : ℕ) (d : D)
      → Serving lba count k 0 d
      → k < 256 * count
      → suc k % 256 ≢ 0
      → Serving lba count (suc k) 0 (ports.read_data d).1
  pub next_sector :
      (lba count k : ℕ) (d : D)
      → Serving lba count k 0 d
      → suc k < 256 * count
      → suc k % 256 ≡ 0
      → (left : ℕ) × (left < 99999) × Serving lba count (suc k) left (ports.read_data d).1
  pub last_word :
      (lba count k : ℕ) (d : D)
      → Serving lba count k 0 d
      → suc k ≡ 256 * count
      → Idle (ports.read_data d).1
