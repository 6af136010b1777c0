-- ===== src/MemoryMap.antt =====
-- The report of the physical memory in src/memory.c, `Tartarus_AnalyzePhysicalMemory`. The map that
-- UEFI has left is a function from an index to a descriptor.
pub mod Totals
mod Examples
use tartarus_hobby_os.Base.{
  ℕ, ◌*◌, ◌/◌, ◌^◌, ◌%◌, leb, ◌==◌, if◌then◌else◌, u64, add32, add64, for_range,
}
use tartarus_hobby_os.Display.{Screen, draw_hex64, update_cursor}
use tartarus_hobby_os.Display.Print.{label, down}

-- `Tartarus_MemoryDescriptor`.
pub record MemoryDescriptor : Type 0 where
  pub type : ℕ
  pub physical_start : ℕ
  pub virtual_start : ℕ
  pub number_of_pages : ℕ
  pub attribute : ℕ

-- The variables of the loop, and the screen.
pub record Report : Type 0 where
  pub total_free_ram : ℕ
  pub total_reserved_ram : ℕ
  pub screen : Screen

abbrev pub hex_at : ℕ → ℕ → ℕ → Screen → Screen
hex_at dx value color s = draw_hex64 (add32 s.cursor_x dx) s.cursor_y value color s

unfoldable pub show_region : (physical_start chunk_size : ℕ) → Screen → Screen
show_region physical_start chunk_size s =
    let s1 = label 0 "FREE RAM REGION  -> START: " 0x00ffff s in
    let s2 = hex_at 220 physical_start 0x00ffff s1 in
    let s3 = label 400 "SIZE (MB): " 0xffff00 s2 in
    update_cursor (down 8 (hex_at 490 (chunk_size / (1024 * 1024)) 0xffff00 s3))

-- The body of the loop.
unfoldable pub visit : MemoryDescriptor → Report → Report
visit desc r =
    let chunk_size = u64 (desc.number_of_pages * 4096) in
    if desc.type == 7
    then record r {
      total_free_ram = add64 r.total_free_ram chunk_size;
      screen =
          if leb (1024 * 1024) chunk_size
          then show_region desc.physical_start chunk_size r.screen
          else r.screen;
    }
    else record r { total_reserved_ram = add64 r.total_reserved_ram chunk_size }

unfoldable pub show_totals : Report → Screen
show_totals r =
    let s1 =
      label 0 "===================================================" 0xff00ff (down 8 r.screen) in
    let s2 = label 0 "[+] USABLE FREE RAM (MB): " 0x00ff00 (down 8 s1) in
    let s3 = down 8 (hex_at 220 (r.total_free_ram / (1024 * 1024)) 0x00ff00 s2) in
    let s4 = label 0 "[-] RESERVED/YASAK RAM (MB): " 0xff0000 s3 in
    let s5 = down 8 (hex_at 220 (r.total_reserved_ram / (1024 * 1024)) 0xff0000 s4) in
    let s6 = label 0 "===================================================" 0xff00ff s5 in
    update_cursor (down 8 s6)

-- The loop over the entries of the map.
unfoldable pub count_memory : (ℕ → MemoryDescriptor) → ℕ → Screen → Report
count_memory map entries s =
    for_range entries 0 (λ i r. visit (map i) r)
      (record { total_free_ram = 0; total_reserved_ram = 0; screen = s })

-- The sizes in bytes of the map and of a descriptor; UEFI gives a descriptor a size above 0.
unfoldable pub analyze_physical_memory :
    (ℕ → MemoryDescriptor) → (map_size descriptor_size : ℕ) → Screen → Screen
analyze_physical_memory map map_size descriptor_size s =
    let begun =
      update_cursor (down 8 (label 0 "[*] PARSING PHYSICAL UEFI MEMORY MAP..." 0x00ff00 s)) in
    show_totals (count_memory map (map_size / descriptor_size) begun)
