-- ===== src/Paging.antt =====
-- `SetupPaging` of main.c: four-level page tables that map the first eight gigabytes to themselves
-- in pages of two megabytes. The addresses of the tables are given by the linker.
pub mod Tables
pub mod Walk
mod Examples
use tartarus_hobby_os.Base.{
  ℕ, ◌+◌, ◌*◌, ◌-◌, Bool, ◌&&◌, ◌==◌, if◌then◌else◌, bit_or, add64, for_range,
}

abbrev pub Entries : Type 0
Entries = ℕ → ℕ

-- The three tables, `pd` by its two indices.
pub record PageTables : Type 0 where
  pub pml4 : Entries
  pub pdpt : Entries
  pub pd : ℕ → Entries

-- The addresses of `PDPT` and of `PD[0]`; each table takes 4096 bytes.
pub record Addresses : Type 0 where
  pub pdpt : ℕ
  pub pd : ℕ

abbrev pub pd_address : Addresses → ℕ → ℕ
pd_address a i = a.pd + i * 4096

unfoldable pub put : ℕ → ℕ → Entries → Entries
put i v t j = if j == i then v else t j

unfoldable pub put_row : ℕ → ℕ → ℕ → (ℕ → Entries) → ℕ → Entries
put_row i j v t k = if k == i then put j v (t k) else t k

-- A row of the last loop: the entries and the physical address that the loop counts up.
unfoldable pub fill_row : ℕ → (ℕ → Entries) × ℕ → (ℕ → Entries) × ℕ
fill_row i s =
    for_range 512 0
      (λ j (pd, physical).
        (put_row i j (bit_or physical 0x83) pd, add64 physical (2 * 1024 * 1024)))
      s

unfoldable pub setup_paging : Addresses → PageTables → PageTables
setup_paging a t =
    let pml4 = for_range 512 0 (λ i f. put i 0 f) t.pml4 in
    let pdpt = for_range 512 0 (λ i f. put i 0 f) t.pdpt in
    let pd = for_range 8 0 (λ i f. for_range 512 0 (λ j g. put_row i j 0 g) f) t.pd in
    let linked = for_range 8 0 (λ i f. put i (bit_or (pd_address a i) 0x03) f) pdpt in
    let mapped = for_range 8 0 fill_row (pd, 0) in
    record { pml4 = put 0 (bit_or a.pdpt 0x03) pml4; pdpt = linked; pd = mapped.0 }
