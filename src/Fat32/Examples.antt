-- ===== src/Fat32/Examples.antt =====
-- The theorems on the volume at a small disk, with a file of two clusters of one sector.
use tartarus_hobby_os.Base.{
  ℕ, ◌+◌, ◌%◌, ◌^◌, ◌≤◌, ◌<◌, ◌≡◌, refl, arith, true, false, some, List, [], ◌∷◌, inl, ltb, ◌==◌,
  if◌then◌else◌,
}
use tartarus_hobby_os.Memory.{Heap}
use tartarus_hobby_os.Memory.Spec.{Cell, cell}
use tartarus_hobby_os.Memory.Layout.{IsHeap}
use tartarus_hobby_os.Memory.Live.{NoneFits}
use tartarus_hobby_os.Memory.RoundTrip.{IsCoalesced}
use tartarus_hobby_os.Ata.{Ports}
use tartarus_hobby_os.Ata.Sample.{Drive, drive, file_of, IsIdle, IsServing, drive-IsDrive}
use tartarus_hobby_os.Machine.{Volume, Machine}
use tartarus_hobby_os.Fat32.{get_next_cluster, load_loop}
use tartarus_hobby_os.Fat32.Disk.{word_of, HoldsDisk}
use tartarus_hobby_os.Fat32.Chain.{IsReady, IsKept, get_next_cluster-IsKept}
use tartarus_hobby_os.Fat32.Load.{IsFilled, IsTarget, load_loop-IsFilled}
use tartarus_hobby_os.Fat32.File.{IsDataCluster, IsChain, file_byte, load_loop-file_byte}

-- The FAT is sector 1: cluster 3 leads to 4, and 4 to an end mark.
abbrev disk : ℕ → ℕ
disk i =
    if i == 524
    then 4
    else if ltb i 528
    then 0
    else if ltb i 531
    then 0xff
    else if ltb i 1024
    then 0x0f
    else i % 251

disk-byte : (i : ℕ) → disk i < 2 ^ 8
disk-byte i = ground arith

abbrev sample : Ports Drive
sample = drive (word_of disk)

holds_disk : HoldsDisk sample disk file_of IsIdle IsServing
holds_disk = record { bytes = disk-byte; is_drive = drive-IsDrive (word_of disk) }

-- A block of 2000 bytes in use and one of 3000 that is free.
abbrev cells : List Cell
cells = cell 2000 false ∷ cell 3000 true ∷ []

abbrev heap : Heap
heap = record {
  head = 0x1000;
  store = λ a.
      if a == 0x1000
      then record { size = 2000; is_free = false; next = 6120 }
      else record { size = 3000; is_free = true; next = 0 };
}

heap-IsHeap : IsHeap heap 0x1000 9144 cells
heap-IsHeap = record { not_null = omega arith; no_wrap = omega arith; blocks = ground arith }

abbrev volume : Volume
volume = record {
  fat_start_sector = 1;
  data_start_sector = 2;
  root_cluster = 2;
  sectors_per_cluster = 1;
}

abbrev machine : Machine Drive
machine = record {
  console = record {
    caps_lock = false;
    left_shift = false;
    right_shift = false;
    left_ctrl = false;
    command_buffer = [];
    buffer_index = 0;
    clipboard = [];
    screen = record {
      frame_buffer = 0x8000_0000;
      pixel = λ q. 0;
      pitch = 1024;
      width = 1024;
      height = 768;
      cursor_x = 0;
      cursor_y = 0;
    };
    port_writes = [];
  };
  heap = heap;
  ram = λ q. 0xcc;
  drive = record {
    file = record { features = 0; count = 0; low = 0; middle = 0; high = 0; device = 0 };
    lba = 0;
    count = 0;
    given = 0;
    busy = 0;
  };
  volume = volume;
}

coalesced : IsCoalesced cells
coalesced = (λ e. ground (arith, e), tt)

ready : IsReady 3 0x1000 9144 cells machine
ready = record { is_heap = heap-IsHeap; coalesced = coalesced; enough = omega arith }

room : ¬ NoneFits 512 cells
room h = ground (arith, h)

target : IsTarget 3 0x1000 cells 0x1000 (cell 2000 false) volume 600
target = record {
  coalesced = coalesced;
  enough = omega arith;
  held = inl (refl, refl);
  taken = refl;
  some_sectors = omega arith;
  room = omega arith;
  small = omega arith;
}

data_cluster : (d : ℕ) → 2 ≤ d → d < 100 → IsDataCluster volume d
data_cluster d lower upper = record {
  from_two = lower;
  no_mark = omega arith;
  entry_near = omega arith;
  data_near = omega arith;
}

chain : IsChain disk volume 3 (3 ∷ 4 ∷ [])
chain = (
  refl,
  data_cluster 3 (omega arith) (omega arith),
  (refl, data_cluster 4 (omega arith) (omega arith), omega arith),
)

get_next_cluster-IsKept_example :
    (c : ℕ) × (m' : Machine Drive) × (get_next_cluster sample 3 7 machine ≡ some (c, m'))
    × (c < 2 ^ 28)
    × IsKept 0x1000 9144 cells machine m'
get_next_cluster-IsKept_example = get_next_cluster-IsKept sample 3 7 machine 0x1000 9144 cells ready

load_loop-IsFilled_example :
    (m' : Machine Drive) × (load_loop sample 3 3 4120 600 99 0 machine ≡ some (tt, m'))
    × IsFilled 0x1000 9144 cells 0x1000 (cell 2000 false) 0 machine m'
load_loop-IsFilled_example =
    load_loop-IsFilled sample 3 0x1000 9144 cells 0x1000 (cell 2000 false) volume 600 target 2 99
      machine heap-IsHeap refl (omega arith)

load_loop-file_byte_example :
    (m' : Machine Drive) × (load_loop sample 3 3 4120 600 3 0 machine ≡ some (tt, m'))
    × IsFilled 0x1000 9144 cells 0x1000 (cell 2000 false) 0 machine m'
    × ((j : ℕ) → j < 600 → m'.ram (4120 + j) ≡ file_byte disk volume (3 ∷ 4 ∷ []) j)
load_loop-file_byte_example =
    load_loop-file_byte sample disk file_of IsIdle IsServing holds_disk 3 0x1000 9144 cells room
      0x1000 (cell 2000 false) volume (omega arith) 600 target (3 ∷ 4 ∷ []) 2 3 machine chain
      (omega arith) (omega arith) heap-IsHeap refl tt

-- The file's byte 512 is the first of cluster 4, which is sector 4.
file_byte_second : file_byte disk volume (3 ∷ 4 ∷ []) 512 ≡ 40
file_byte_second = refl
