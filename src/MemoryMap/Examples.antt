-- ===== src/MemoryMap/Examples.antt =====
-- The totals of a concrete map.
use tartarus_hobby_os.Base.{ℕ, ◌*◌, ◌≡◌, ◌==◌, if◌then◌else◌, arith}
use tartarus_hobby_os.Display.{Screen}
use tartarus_hobby_os.MemoryMap.{MemoryDescriptor, count_memory}
use tartarus_hobby_os.MemoryMap.Totals.{count_memory-pages}

abbrev screen : Screen
screen = record {
  frame_buffer = 0x8000_0000;
  pixel = λ q. 0;
  pitch = 1024;
  width = 1024;
  height = 768;
  cursor_x = 0;
  cursor_y = 16;
}

-- The second of three regions is reserved.
abbrev map : ℕ → MemoryDescriptor
map i = record {
  type = if i == 1 then 0 else 7;
  physical_start = i * 0x100_0000;
  virtual_start = 0;
  number_of_pages = 100;
  attribute = 15;
}

count_memory-pages_example :
    let r = count_memory map 3 screen in
    (r.total_free_ram ≡ 819200) × (r.total_reserved_ram ≡ 409600)
count_memory-pages_example = count_memory-pages map 3 screen (omega arith)
