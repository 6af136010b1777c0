-- ===== src/Ata/Examples.antt =====
-- The theorems on the reads at a concrete drive, which is busy before each sector.
use tartarus_hobby_os.Base.{ℕ, ◌+◌, ◌*◌, ◌≡◌, true, arith}
use tartarus_hobby_os.Ata.{ata_read_sectors}
use tartarus_hobby_os.Ata.Read.{ata_read_sectors-kept, ata_read_sectors-word}
use tartarus_hobby_os.Ata.Sample.{Drive, drive, file_of, IsIdle, IsServing, drive-IsDrive}

abbrev word : (lba k : ℕ) → ℕ
word lba k = lba * 256 + k

abbrev started : Drive
started = record {
  file = record { features = 0; count = 0; low = 0; middle = 0; high = 0; device = 0 };
  lba = 0;
  count = 0;
  given = 0;
  busy = 0;
}

ata_read_sectors-kept_example :
    (ata_read_sectors (drive word) 7 2 (λ k. 0xffff) started).1.0 600 ≡ 0xffff
ata_read_sectors-kept_example =
    ata_read_sectors-kept (drive word) 7 2 (λ k. 0xffff) started 600 (omega arith)

ata_read_sectors-word_example :
    ((ata_read_sectors (drive word) 7 2 (λ k. 0xffff) started).0 ≡ true)
    × ((ata_read_sectors (drive word) 7 2 (λ k. 0xffff) started).1.0 300 ≡ 2092)
ata_read_sectors-word_example =
    ata_read_sectors-word (drive word) word file_of IsIdle IsServing (drive-IsDrive word) 7 2
      (λ k. 0xffff) started 300 (omega arith) (omega arith) (omega arith) tt (omega arith)
