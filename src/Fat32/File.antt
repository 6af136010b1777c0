-- ===== src/Fat32/File.antt =====
-- What the loop of `ExecuteFirstFile` has read, with a drive that holds a FAT32 volume.
use tartarus_hobby_os.Base.{
  ℕ, zero, suc, ◌+◌, ◌*◌, ◌/◌, ◌%◌, ◌-◌, ◌^◌, ◌≤◌, ◌<◌, ◌≡◌, inl, inr, refl, ◌∙◌, ap, arith,
  Bool-cases, true, false, some, List, [], ◌∷◌, length, ltb, ◌&&◌, if◌then◌else◌, add32, sub32,
  mul32,
}
use tartarus_hobby_os.Memory.{sizeof_block}
use tartarus_hobby_os.Memory.Spec.{Cell}
use tartarus_hobby_os.Memory.Layout.{IsHeap}
use tartarus_hobby_os.Memory.Live.{NoneFits}
use tartarus_hobby_os.Ata.{Ports}
use tartarus_hobby_os.Ram.{load32}
use tartarus_hobby_os.Machine.{Volume, Machine}
use tartarus_hobby_os.Fat32.{sector_of, load_cluster, load_loop}
use tartarus_hobby_os.Ata.Drive.{TaskFile}
use tartarus_hobby_os.Fat32.Disk.{HoldsDisk, read_sectors-IsRead}
use tartarus_hobby_os.Fat32.Chain.{IsReady, get_next_cluster-entry}
use tartarus_hobby_os.Fat32.Load.{
  cluster_bytes, IsFilled, IsFilled-refl, IsFilled-trans, IsFilled-read, IsTarget, load_cluster-run,
  load_loop-round,
}

-- The volume on the disk: the entry of a cluster in its FAT, and the cluster's first sector.
abbrev pub fat_entry : (ℕ → ℕ) → Volume → ℕ → ℕ
fat_entry disk v cluster = load32 disk (v.fat_start_sector * 512 + 4 * cluster) % 2 ^ 28

abbrev pub first_sector : Volume → ℕ → ℕ
first_sector v cluster = v.data_start_sector + (cluster - 2) * v.sectors_per_cluster

-- A number of a cluster of data, with its entry and its data in sectors of 28-bit numbers.
pub record IsDataCluster (v : Volume) (cluster : ℕ) : Type 0 where
  pub from_two : 2 ≤ cluster
  pub no_mark : cluster < 0x0fff_fff8
  pub entry_near : v.fat_start_sector + cluster / 128 < 2 ^ 28
  pub data_near : first_sector v cluster + v.sectors_per_cluster ≤ 2 ^ 28

sector_of-first :
    (v : Volume) (d : ℕ)
    → IsDataCluster v d
    → 0 < v.sectors_per_cluster
    → sector_of v d ≡ first_sector v d
sector_of-first v d is pos =
    let two : sub32 d 2 ≡ d - 2 = omega (arith, is.from_two, is.no_mark) in
    let offset : mul32 (sub32 d 2) v.sectors_per_cluster ≡ (d - 2) * v.sectors_per_cluster =
      ap (λ n. mul32 n v.sectors_per_cluster) two ∙ omega (arith, is.data_near) in
    omega (arith, offset, is.data_near)

-- From the number `c` on, the FAT leads through the clusters of the list to an end mark.
abbrev pub IsChain : (ℕ → ℕ) → Volume → ℕ → List ℕ → Type 0
IsChain disk v c [] = 0x0fff_fff8 ≤ c
IsChain disk v c (d ∷ ds) = (c ≡ d) × IsDataCluster v d × IsChain disk v (fat_entry disk v d) ds

-- The bytes of a file: those of its clusters, one behind the other.
abbrev pub file_byte : (ℕ → ℕ) → Volume → List ℕ → ℕ → ℕ
file_byte disk v [] j = 0
file_byte disk v (d ∷ ds) j =
    if ltb j (cluster_bytes v)
    then disk (first_sector v d * 512 + j)
    else file_byte disk v ds (j - cluster_bytes v)

module _ {ℓ κ} {D : Type ℓ} (ports : Ports D) (disk : ℕ → ℕ) (files : D → TaskFile)
    (Idle : D → Type κ) (Serving : (lba count k busy : ℕ) → D → Type κ)
    (holds : HoldsDisk ports disk files Idle Serving) (fuel lo hi : ℕ) (cs : List Cell)
    (room : ¬ NoneFits 512 cs) (a : ℕ) (b : Cell) (v : Volume)
    (byte : v.sectors_per_cluster < 2 ^ 8) (total : ℕ)
    (target : IsTarget fuel lo cs a b v total) where
  load_cluster-data :
      (d r : ℕ) (m : Machine D)
      → IsDataCluster v d
      → IsHeap m.heap lo hi cs
      → m.volume ≡ v
      → Idle m.drive
      → r < total
      → (m' : Machine D) × (load_cluster ports fuel (a + sizeof_block) d r m
          ≡ some ((fat_entry disk v d, r + cluster_bytes v), m'))
        × IsFilled lo hi cs a b r m m'
        × Idle m'.drive
        × ((j : ℕ)
            → j < cluster_bytes v
            → m'.ram (a + sizeof_block + (r + j)) ≡ disk (first_sector v d * 512 + j))
  load_cluster-data d r m is_data is same idle below =
      let spc : m.volume.sectors_per_cluster ≡ v.sectors_per_cluster =
        ap (λ w. w.sectors_per_cluster) same in
      let fat : m.volume.fat_start_sector ≡ v.fat_start_sector =
        ap (λ w. w.fat_start_sector) same in
      let sector : sector_of m.volume d ≡ first_sector v d =
        ap (λ w. sector_of w d) same ∙ sector_of-first v d is_data target.some_sectors in
      let (m1, e1, read) =
        read_sectors-IsRead ports disk files Idle Serving holds (sector_of m.volume d)
          m.volume.sectors_per_cluster (a + sizeof_block + r) m
          (omega (arith, sector, spc, is_data.data_near)) (omega (arith, spc, target.some_sectors))
          (omega (arith, spc, byte)) idle in
      let ready : IsReady fuel lo hi cs m1 = record {
        is_heap = rw read.within.same_heap is;
        coalesced = target.coalesced;
        enough = target.enough;
      } in
      let fat1 : m1.volume.fat_start_sector ≡ v.fat_start_sector =
        ap (λ w. w.fat_start_sector) (read.within.same_volume ∙ same) in
      let (m2, e2, kept, idle2) =
        get_next_cluster-entry ports fuel d m1 lo hi cs ready disk files Idle Serving holds room
          read.idle (omega (arith, is_data.no_mark)) (omega (arith, fat1, is_data.entry_near)) in
      let L : cluster_bytes m.volume ≡ cluster_bytes v = ap (λ w. cluster_bytes w) same in
      let no_wrap : add32 r (cluster_bytes m.volume) ≡ r + cluster_bytes v =
        omega (arith, L, target.small) in
      let entry : fat_entry disk m1.volume d ≡ fat_entry disk v d =
        ap (λ w. fat_entry disk w d) (read.within.same_volume ∙ same) in
      (
        m2,
        load_cluster-run ports fuel (a + sizeof_block) d r m true m1 (fat_entry disk m1.volume d) m2
              e1 e2
            ∙ ap (λ c. some ((c, add32 r (cluster_bytes m.volume)), m2)) entry
            ∙ ap (λ n. some ((fat_entry disk v d, n), m2)) no_wrap,
        IsFilled-read lo hi cs a b r (cluster_bytes m.volume) m m1 m2 target.held target.taken
            (omega (arith, L, target.room)) read.within kept,
        idle2,
        λ j h.
            kept.same_bytes a b (r + j) target.held target.taken (omega (arith, target.room))
            ∙ ap m1.ram (omega arith)
            ∙ read.data_bytes j (omega (arith, L))
            ∙ ap (λ n. disk (n * 512 + j)) sector,
      )

  load_loop-file_byte_from :
      (ds : List ℕ) (rounds c r : ℕ) (m : Machine D)
      → IsChain disk v c ds
      → length ds ≤ rounds
      → total ≤ r + length ds * cluster_bytes v
      → IsHeap m.heap lo hi cs
      → m.volume ≡ v
      → Idle m.drive
      → (m' : Machine D) × (load_loop ports fuel (suc rounds) (a + sizeof_block) total c r m
          ≡ some (tt, m'))
        × IsFilled lo hi cs a b r m m'
        × ((j : ℕ) → r + j < total → m'.ram (a + sizeof_block + (r + j)) ≡ file_byte disk v ds j)
  unfolding load_loop
  load_loop-file_byte_from [] rounds c r m chain enough all is same idle =
      let stop : (ltb c 0x0fff_fff8 && ltb r total) ≡ false = ground arith in
      (m, rw (load_loop, stop) refl, IsFilled-refl lo hi cs a b r m is, λ j h. absurd (omega arith))
  load_loop-file_byte_from (d ∷ ds) zero c r m chain enough all is same idle = absurd (omega arith)
  load_loop-file_byte_from (d ∷ ds) (suc rounds) c r m (here, is_data, chain) enough all is same
        idle =
      elim (Bool-cases (ltb c 0x0fff_fff8 && ltb r total)) [
        | inr stop ↦
            let over : total ≤ r = ground (arith, is_data.no_mark) in
            (
              m,
              rw (load_loop, stop) refl,
              IsFilled-refl lo hi cs a b r m is,
              λ j h. absurd (omega arith),
            )
        | inl go ↦
            let (m1, e, one, idle1, bytes) =
              load_cluster-data d r m is_data is same idle (ground arith) in
            let (m2, e2, two, rest) =
              load_loop-file_byte_from ds rounds (fat_entry disk v d) (r + cluster_bytes v) m1 chain
                (omega arith) (omega (arith, all)) one.still_heap (one.same_volume ∙ same) idle1 in
            (
              m2,
              load_loop-round ports fuel lo hi cs a b v total target (suc rounds) c r m go
                    (fat_entry disk v d) m1 (rw here e)
                  ∙ e2,
              IsFilled-trans lo hi cs a b r (r + cluster_bytes v) m m1 m2 (omega arith) one two,
              λ j h. elim (Bool-cases (ltb j (cluster_bytes v))) [
                | inl early ↦ rw early (
                    two.same_before (r + j) (ground arith) (ground (arith, target.room))
                    ∙ bytes j (ground arith))
                | inr late ↦
                    rw late (ap m2.ram (ground arith) ∙ rest (j - cluster_bytes v) (ground arith))
              ],
            )
      ]

  -- With a drive that holds a FAT32 volume with sector numbers of 28 bits, a heap in which no
  -- two neighbours are both free and the FAT's sector finds room, a block in use that has room for the file's clusters, and a chain of
  -- clusters that covers the file's size: the loop ends within a round per cluster and one more, the
  -- block then holds the file's bytes in order, and the other blocks in use are as they were.
  pub load_loop-file_byte :
      (ds : List ℕ) (rounds c : ℕ) (m : Machine D)
      → IsChain disk v c ds
      → length ds ≤ rounds
      → total ≤ length ds * cluster_bytes v
      → IsHeap m.heap lo hi cs
      → m.volume ≡ v
      → Idle m.drive
      → (m' : Machine D) × (load_loop ports fuel (suc rounds) (a + sizeof_block) total c 0 m
          ≡ some (tt, m'))
        × IsFilled lo hi cs a b 0 m m'
        × ((j : ℕ) → j < total → m'.ram (a + sizeof_block + j) ≡ file_byte disk v ds j)
  load_loop-file_byte ds rounds c m chain enough all is same idle =
      let (m', e, filled, bytes) =
        load_loop-file_byte_from ds rounds c 0 m chain enough (omega (arith, all)) is same idle in
      (m', e, filled, λ j h. ap m'.ram (omega arith) ∙ bytes j (omega arith))
