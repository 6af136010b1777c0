-- ===== src/Interrupts/Gdt.antt =====
-- `SetupGDT` of main.c: the table of segments, and the selectors that are loaded with it.
use tartarus_hobby_os.Base.{ℕ, ◌-◌, ◌*◌, List, set}

-- `GDT_ENTRY`.
pub record GdtEntry : Type 0 where
  pub limit_low : ℕ
  pub base_low : ℕ
  pub base_middle : ℕ
  pub access : ℕ
  pub flags_limit_high : ℕ
  pub base_high : ℕ

abbrev pub sizeof_gdt_entry : ℕ
sizeof_gdt_entry = 8

-- `GDT`, what `lgdt` loads from `GDTR`, and the segment registers: `cs`, and `data` for the others.
pub record Segments : Type 0 where
  pub gdt : List GdtEntry
  pub limit : ℕ
  pub base : ℕ
  pub cs : ℕ
  pub data_selector : ℕ

-- `address` is that of `GDT`; its first entry is left as it is.
unfoldable pub setup_gdt : (address : ℕ) → List GdtEntry → Segments
setup_gdt address gdt = record {
  gdt =
      set
        (set gdt 1 (record {
          limit_low = 0xffff;
          base_low = 0;
          base_middle = 0;
          access = 0x9a;
          flags_limit_high = 0xa0;
          base_high = 0;
        }))
        2
        (record {
          limit_low = 0xffff;
          base_low = 0;
          base_middle = 0;
          access = 0x92;
          flags_limit_high = 0xa0;
          base_high = 0;
        });
  limit = sizeof_gdt_entry * 3 - 1;
  base = address;
  cs = 0x08;
  data_selector = 0x10;
}
