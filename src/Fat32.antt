-- ===== src/Fat32.antt =====
-- src/fat32.c: the boot sector, the chains of clusters, and the search of the root directory. `fuel`
-- bounds the searches of the heap and the clusters of a file.
pub mod Report
pub mod Disk
pub mod Chain
pub mod Load
pub mod File
mod Examples
use tartarus_hobby_os.Base.{
  ℕ, zero, suc, ◌+◌, ◌*◌, ◌/◌, ◌%◌, ◌<<<◌, Bool, true, false, ◌||◌, ◌&&◌, not, Option, none, some,
  List, ltb, ◌==◌, if◌then◌else◌, bit_and, bit_or, add32, sub32, mul32, u32,
}
use tartarus_hobby_os.Ata.{Ports}
use tartarus_hobby_os.Display.{update_cursor}
use tartarus_hobby_os.Display.Print.{label, down}
use tartarus_hobby_os.Ram.{Ram, load16, load32, load_bytes}
use tartarus_hobby_os.Machine.{
  Volume, Machine, M, pure, out_of_fuel, ◌>>=◌, ◌>>◌, gets, modify, show, alloc, release,
  read_sectors,
}

-- `FAT32_BPB`.
pub record Bpb : Type 0 where
  pub jump : List ℕ
  pub oem : List ℕ
  pub bytes_per_sector : ℕ
  pub sectors_per_cluster : ℕ
  pub reserved_sectors : ℕ
  pub fat_count : ℕ
  pub dir_entries : ℕ
  pub total_sectors : ℕ
  pub media_descriptor : ℕ
  pub fat_size_16 : ℕ
  pub sectors_per_track : ℕ
  pub heads : ℕ
  pub hidden_sectors : ℕ
  pub total_sectors_32 : ℕ
  pub fat_size_32 : ℕ
  pub ext_flags : ℕ
  pub fs_version : ℕ
  pub root_cluster : ℕ
  pub fs_info : ℕ
  pub backup_boot_sector : ℕ
  pub reserved : List ℕ
  pub drive_number : ℕ
  pub reserved1 : ℕ
  pub boot_signature : ℕ
  pub volume_id : ℕ
  pub volume_label : List ℕ
  pub fs_type : List ℕ

-- The packed structure at an address.
unfoldable pub bpb_at : Ram → ℕ → Bpb
bpb_at ram p = record {
  jump = load_bytes ram p 3;
  oem = load_bytes ram (p + 3) 8;
  bytes_per_sector = load16 ram (p + 11);
  sectors_per_cluster = ram (p + 13);
  reserved_sectors = load16 ram (p + 14);
  fat_count = ram (p + 16);
  dir_entries = load16 ram (p + 17);
  total_sectors = load16 ram (p + 19);
  media_descriptor = ram (p + 21);
  fat_size_16 = load16 ram (p + 22);
  sectors_per_track = load16 ram (p + 24);
  heads = load16 ram (p + 26);
  hidden_sectors = load32 ram (p + 28);
  total_sectors_32 = load32 ram (p + 32);
  fat_size_32 = load32 ram (p + 36);
  ext_flags = load16 ram (p + 40);
  fs_version = load16 ram (p + 42);
  root_cluster = load32 ram (p + 44);
  fs_info = load16 ram (p + 48);
  backup_boot_sector = load16 ram (p + 50);
  reserved = load_bytes ram (p + 52) 12;
  drive_number = ram (p + 64);
  reserved1 = ram (p + 65);
  boot_signature = ram (p + 66);
  volume_id = load32 ram (p + 67);
  volume_label = load_bytes ram (p + 71) 11;
  fs_type = load_bytes ram (p + 82) 8;
}

-- `FAT32_DIR_ENTRY`, of 32 bytes.
pub record DirEntry : Type 0 where
  pub name : List ℕ
  pub attr : ℕ
  pub nt_res : ℕ
  pub crt_time_tenth : ℕ
  pub crt_time : ℕ
  pub crt_date : ℕ
  pub lst_acc_date : ℕ
  pub cluster_hi : ℕ
  pub wrt_time : ℕ
  pub wrt_date : ℕ
  pub cluster_lo : ℕ
  pub file_size : ℕ

unfoldable pub dir_entry_at : Ram → ℕ → DirEntry
dir_entry_at ram p = record {
  name = load_bytes ram p 11;
  attr = ram (p + 11);
  nt_res = ram (p + 12);
  crt_time_tenth = ram (p + 13);
  crt_time = load16 ram (p + 14);
  crt_date = load16 ram (p + 16);
  lst_acc_date = load16 ram (p + 18);
  cluster_hi = load16 ram (p + 20);
  wrt_time = load16 ram (p + 22);
  wrt_date = load16 ram (p + 24);
  cluster_lo = load16 ram (p + 26);
  file_size = load32 ram (p + 28);
}

-- `name[0]`.
abbrev pub first_byte : DirEntry → ℕ
first_byte e = elim e.name [ List.[] ↦ 0 | List.◌∷◌ c _ ↦ c ]

unfoldable pub mount : Bpb → Volume
mount bpb = record {
  fat_start_sector = bpb.reserved_sectors;
  data_start_sector = add32 bpb.reserved_sectors (mul32 bpb.fat_count bpb.fat_size_32);
  root_cluster = bpb.root_cluster;
  sectors_per_cluster = bpb.sectors_per_cluster;
}

-- The first sector of a cluster.
abbrev pub sector_of : Volume → ℕ → ℕ
sector_of v cluster = add32 v.data_start_sector (mul32 (sub32 cluster 2) v.sectors_per_cluster)

-- `entry->cluster_hi << 16 | entry->cluster_lo`.
unfoldable pub first_cluster : DirEntry → ℕ
first_cluster e = bit_or (u32 (e.cluster_hi <<< 16)) e.cluster_lo

-- The entries that the searches for a file pass over: deleted ones, directories, long names.
unfoldable pub is_skipped : DirEntry → Bool
is_skipped e = (first_byte e == 0xe5) || (e.attr == 0x10) || (e.attr == 0x0f)

-- The loop that looks for the first file, with the entries left from address `p` on.
unfoldable pub first_file : Ram → ℕ → ℕ → Option DirEntry
first_file ram zero p = none
first_file ram (suc n) p =
    let e = dir_entry_at ram p in
    let rest = first_file ram n (p + 32) in
    if first_byte e == 0x00 then none else if is_skipped e then rest else some e

module _ {ℓ} {D : Type ℓ} where
  -- `GetNextCluster` after a read into the buffer at `p` that has succeeded or failed.
  unfoldable pub take_entry : ℕ → ℕ → Bool → M D ℕ
  take_entry current_cluster p true = do
    next_cluster ←
        gets (λ m. bit_and (load32 m.ram (p + mul32 current_cluster 4 % 512)) 0x0fff_ffff)
    _ ← release p
    pure next_cluster
  take_entry current_cluster p false = do _ ← release p; pure 0x0fff_ffff

module _ {ℓ} {D : Type ℓ} (ports : Ports D) (fuel : ℕ) where
  unfoldable pub init_fat32 : M D (Unit {0})
  init_fat32 = do
    p ← alloc fuel 512
    if p == 0 then pure tt else (do
      is_read ← read_sectors ports 0 1 p
      _ ←
          (if is_read
            then (do
              bpb ← gets (λ m. bpb_at m.ram p)
              _ ← modify (λ m. record m { volume = mount bpb })
              show (λ s.
                  update_cursor (down 8 (label 0 "FAT32 Volume Mounted Successfully!" 0x00ff00 s))))
            else pure tt)
      release p)

  -- `GetNextCluster` with the pointer that `malloc` has returned.
  unfoldable pub read_entry : ℕ → ℕ → M D ℕ
  read_entry current_cluster p = do
    v ← gets (λ m. m.volume)
    if p == 0
        then pure 0x0fff_ffff
        else (read_sectors ports (add32 v.fat_start_sector (mul32 current_cluster 4 / 512)) 1 p
            >>= take_entry current_cluster p)

  unfoldable pub get_next_cluster : ℕ → M D ℕ
  get_next_cluster current_cluster = alloc fuel 512 >>= read_entry current_cluster

  -- A round of the loop of `ExecuteFirstFile` that reads the file's clusters one behind the other:
  -- the next cluster and the next `bytes_read`. Whether a read fails is not asked.
  unfoldable pub load_cluster : (exec_buffer current_cluster bytes_read : ℕ) → M D (ℕ × ℕ)
  load_cluster exec_buffer current_cluster bytes_read = do
    v ← gets (λ m. m.volume)
    _ ←
        read_sectors ports (sector_of v current_cluster) v.sectors_per_cluster
          (exec_buffer + bytes_read)
    next_cluster ← get_next_cluster current_cluster
    pure (next_cluster, add32 bytes_read (512 * v.sectors_per_cluster))

  -- `rounds` is fuel.
  unfoldable pub load_loop :
      (rounds exec_buffer total_size current_cluster bytes_read : ℕ) → M D (Unit {0})
  load_loop zero exec_buffer total_size current_cluster bytes_read = out_of_fuel
  load_loop (suc rounds) exec_buffer total_size current_cluster bytes_read =
      elim (ltb current_cluster 0x0fff_fff8 && ltb bytes_read total_size) [
        | false ↦ pure tt
        | true ↦
            load_cluster exec_buffer current_cluster bytes_read
            >>= (λ x. load_loop rounds exec_buffer total_size x.0 x.1)
      ]
