-- ===== src/MemoryMap/Totals.antt =====
-- What the totals of the report are.
use tartarus_hobby_os.Base.{
  ℕ, zero, suc, ◌+◌, ◌*◌, ◌%◌, ◌^◌, ◌<◌, ◌≡◌, arith, ◌==◌, if◌then◌else◌, for_range_inv,
}
use tartarus_hobby_os.Display.{Screen}
use tartarus_hobby_os.MemoryMap.{MemoryDescriptor, Report, visit, count_memory}

-- The pages of the first `n` descriptors that are free, and of those that are not.
abbrev pub free_pages : (ℕ → MemoryDescriptor) → ℕ → ℕ
free_pages map zero = 0
free_pages map (suc n) =
    free_pages map n + (if (map n).type == 7 then (map n).number_of_pages else 0)

abbrev pub reserved_pages : (ℕ → MemoryDescriptor) → ℕ → ℕ
reserved_pages map zero = 0
reserved_pages map (suc n) =
    reserved_pages map n + (if (map n).type == 7 then 0 else (map n).number_of_pages)

record Counts (map : ℕ → MemoryDescriptor) (n : ℕ) (r : Report) : Type 0 where
  free : r.total_free_ram ≡ free_pages map n * 4096 % 2 ^ 64
  reserved : r.total_reserved_ram ≡ reserved_pages map n * 4096 % 2 ^ 64

visit-Counts :
    (map : ℕ → MemoryDescriptor) (n : ℕ) (r : Report)
    → Counts map n r
    → Counts map (suc n) (visit (map n) r)
unfolding visit
visit-Counts map n r is = record {
  free = ground (arith, is.free);
  reserved = ground (arith, is.reserved);
}

-- If the pages of the map fit a 64-bit address space, the two totals are the bytes of the free pages
-- and of all others.
pub count_memory-pages :
    (map : ℕ → MemoryDescriptor) (entries : ℕ) (s : Screen)
    → (free_pages map entries + reserved_pages map entries) * 4096 < 2 ^ 64
    → let r = count_memory map entries s in
      (r.total_free_ram ≡ free_pages map entries * 4096)
      × (r.total_reserved_ram ≡ reserved_pages map entries * 4096)
unfolding count_memory
count_memory-pages map entries s fits =
    let start : Counts map 0 (record { total_free_ram = 0; total_reserved_ram = 0; screen = s }) =
      record { free = omega arith; reserved = omega arith } in
    let c =
      for_range_inv (Counts map) (λ i r. visit (map i) r) entries 0 entries _ (omega arith)
        (λ k r lo hi h. visit-Counts map k r h) start in
    (omega (arith, c.free), omega (arith, c.reserved))
