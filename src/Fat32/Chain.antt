-- ===== src/Fat32/Chain.antt =====
-- `GetNextCluster`: the FAT's entry of a cluster, read into a borrowed block of the heap.
use tartarus_hobby_os.Base.{
  ℕ, ◌+◌, ◌*◌, ◌/◌, ◌%◌, ◌^◌, ◌<◌, ◌≡◌, ◌≢◌, inl, inr, refl, ◌∙◌, ap, arith, Bool, true, false,
  some, List, length, bit_and, if◌then◌else◌, add32, mul32, ◌==◌,
}
use tartarus_hobby_os.Base.Bits.{bit_and_low}
use tartarus_hobby_os.Memory.{Heap, sizeof_block, malloc, free}
use tartarus_hobby_os.Memory.Spec.{Cell}
use tartarus_hobby_os.Memory.Layout.{IsHeap}
use tartarus_hobby_os.Memory.Live.{Holds, NoneFits}
use tartarus_hobby_os.Memory.RoundTrip.{IsCoalesced}
use tartarus_hobby_os.Memory.Borrow.{IsBorrowed, malloc-Borrows}
use tartarus_hobby_os.Ata.{Ports}
use tartarus_hobby_os.Ram.{load32}
use tartarus_hobby_os.Machine.{Volume, Machine, alloc, read_sectors}
use tartarus_hobby_os.Machine.Laws.{bind-some, alloc-some}
use tartarus_hobby_os.Fat32.{get_next_cluster, read_entry, take_entry}
use tartarus_hobby_os.Ata.Drive.{TaskFile}
use tartarus_hobby_os.Fat32.Disk.{HoldsDisk, IsWithin, read_sectors-IsWithin, read_sectors-IsRead}

-- The heap is one of the blocks `cs`, with no two free neighbours, and the fuel is enough for them.
pub record IsReady {ℓ} {D : Type ℓ} (fuel lo hi : ℕ) (cs : List Cell) (m : Machine D) : Type 0 where
  pub is_heap : IsHeap m.heap lo hi cs
  pub coalesced : IsCoalesced cs
  pub enough : length cs < fuel

-- The heap has the same blocks still, and the bytes in the blocks in use are as they were.
pub record IsKept {ℓ} {D : Type ℓ} (lo hi : ℕ) (cs : List Cell) (m m' : Machine D) : Type ℓ where
  pub still_heap : IsHeap m'.heap lo hi cs
  pub same_volume : m'.volume ≡ m.volume
  pub same_console : m'.console ≡ m.console
  pub same_bytes :
      (a : ℕ) (b : Cell) (j : ℕ)
      → Holds lo cs a b
      → b.is_free ≡ false
      → j < b.size
      → m'.ram (a + sizeof_block + j) ≡ m.ram (a + sizeof_block + j)

IsKept-refl {ℓ} :
    {D : Type ℓ} (lo hi : ℕ) (cs : List Cell) (m : Machine D)
    → IsHeap m.heap lo hi cs
    → IsKept lo hi cs m m
IsKept-refl lo hi cs m is = record {
  still_heap = is;
  same_volume = refl;
  same_console = refl;
  same_bytes = λ a b j held taken inside. refl;
}

entry_small : (r : Bool) (x : ℕ) → (if r then bit_and x 0x0fff_ffff else 0x0fff_ffff) < 2 ^ 28
entry_small true x = omega (arith, bit_and_low 28 x)
entry_small false x = omega arith

-- The sector and the place in it of a cluster's entry.
abbrev pub fat_sector : Volume → ℕ → ℕ
fat_sector v current = add32 v.fat_start_sector (mul32 current 4 / 512)

-- The entry in the sector that is read is the one that the disk has for the cluster.
entry_on_disk :
    (disk ram : ℕ → ℕ) (start current ptr : ℕ)
    → current < 2 ^ 28
    → start + current / 128 < 2 ^ 28
    → ((j : ℕ) → j < 512 → ram (ptr + j) ≡ disk (add32 start (mul32 current 4 / 512) * 512 + j))
    → bit_and (load32 ram (ptr + mul32 current 4 % 512)) 0x0fff_ffff
      ≡ load32 disk (start * 512 + 4 * current) % 2 ^ 28
entry_on_disk disk ram start current ptr small near bytes =
    let off = mul32 current 4 % 512 in
    let here : add32 start (mul32 current 4 / 512) * 512 + off ≡ start * 512 + 4 * current =
      omega arith in
    let a = start * 512 + 4 * current in
    let byte : (k q b : ℕ) → k < 4 → q ≡ ptr + (off + k) → b ≡ a + k → ram q ≡ disk b =
      λ k q b h e e'.
        ap ram e ∙ bytes (off + k) (omega arith) ∙ ap disk (omega (arith, here, e')) in
    let word : load32 ram (ptr + off) ≡ load32 disk a = omega (
      arith,
      byte 0 (ptr + off) a (omega arith) (omega arith) (omega arith),
      byte 1 (ptr + off + 1) (a + 1) (omega arith) (omega arith) (omega arith),
      byte 2 (ptr + off + 2) (a + 2) (omega arith) (omega arith) (omega arith),
      byte 3 (ptr + off + 2 + 1) (a + 2 + 1) (omega arith) (omega arith) (omega arith),
    ) in
    bit_and_low 28 (load32 ram (ptr + off)) ∙ ap (λ w. w % 2 ^ 28) word

module _ {ℓ} {D : Type ℓ} (ports : Ports D) (fuel current : ℕ) (m : Machine D) (lo hi : ℕ)
    (cs : List Cell) (ready : IsReady fuel lo hi cs m) where
  pub get_next_cluster-full :
      NoneFits 512 cs
      → malloc fuel 512 m.heap ≡ some (0, m.heap)
      → get_next_cluster ports fuel current m ≡ some (0x0fff_ffff, m)
  unfolding get_next_cluster read_entry
  get_next_cluster-full full e = cc (alloc-some m fuel 512 0 m.heap e)

  take_entry-run :
      (ptr : ℕ) (r : Bool) (m2 : Machine D)
      → take_entry current ptr r m2
        ≡ some (
          if r
              then bit_and (load32 m2.ram (ptr + mul32 current 4 % 512)) 0x0fff_ffff
              else 0x0fff_ffff,
          record m2 { heap = free ptr m2.heap },
        )
  unfolding take_entry
  take_entry-run ptr true m2 = refl
  take_entry-run ptr false m2 = refl

  get_next_cluster-run :
      (ptr : ℕ) (h' : Heap)
      → malloc fuel 512 m.heap ≡ some (ptr, h')
      → ptr ≢ 0
      → (r : Bool) (m2 : Machine D)
      → read_sectors ports (fat_sector m.volume current) 1 ptr (record m { heap = h' })
        ≡ some (r, m2)
      → get_next_cluster ports fuel current m
        ≡ some (
          if r
              then bit_and (load32 m2.ram (ptr + mul32 current 4 % 512)) 0x0fff_ffff
              else 0x0fff_ffff,
          record m2 { heap = free ptr m2.heap },
        )
  unfolding get_next_cluster read_entry
  get_next_cluster-run ptr h' e not_null r m2 e2 =
      let there : (ptr == 0) ≡ false = ground arith in
      bind-some (alloc fuel 512) (read_entry ports fuel current) m ptr (record m { heap = h' })
        (alloc-some m fuel 512 ptr h' e)
      ∙ rw (read_entry, there)
          (bind-some (read_sectors ports (fat_sector m.volume current) 1 ptr)
              (take_entry current ptr) (record m { heap = h' }) r m2 e2
            ∙ take_entry-run ptr r m2)

  -- A read into the borrowed block leaves the blocks in use alone.
  read-IsKept :
      (ptr : ℕ) (h' : Heap) (m2 : Machine D)
      → IsBorrowed lo hi 512 ptr cs h'
      → IsWithin ptr 512 (record m { heap = h' }) m2
      → IsKept lo hi cs m (record m2 { heap = free ptr m2.heap })
  read-IsKept ptr h' m2 borrowed within = record {
    still_heap = rw within.same_heap borrowed.given_back;
    same_volume = within.same_volume;
    same_console = within.same_console;
    same_bytes = λ a b j held taken inside.
        within.others (a + sizeof_block + j)
          (omega (arith, (borrowed.fresh.apart a b held taken).1, borrowed.fresh.enough));
  }

  -- With any drive, whatever it answers, and a heap in which no two neighbours are both free and whose
  -- blocks the fuel is enough for: the search ends with a number of 28 bits, the heap has the same blocks as before, and no byte in a block in
  -- use has changed.
  pub get_next_cluster-IsKept :
      (c : ℕ) × (m' : Machine D) × (get_next_cluster ports fuel current m ≡ some (c, m'))
      × (c < 2 ^ 28)
      × IsKept lo hi cs m m'
  get_next_cluster-IsKept =
      elim (malloc-Borrows m.heap lo hi 512 cs fuel ready.is_heap ready.coalesced (omega arith)
        ready.enough) [
          | inl (full, e) ↦ (
            0x0fff_ffff,
            m,
            get_next_cluster-full full e,
            omega arith,
            IsKept-refl lo hi cs m ready.is_heap,
          )
          | inr (ptr, h', e, borrowed) ↦
              let (r, m2, e2, within) =
                read_sectors-IsWithin ports (fat_sector m.volume current) 1 ptr
                  (record m { heap = h' }) in
              (
                _,
                _,
                get_next_cluster-run ptr h' e borrowed.not_null r m2 e2,
                entry_small r _,
                read-IsKept ptr h' m2 borrowed within,
              )
        ]

  pub get_next_cluster-entry {κ} :
      (disk : ℕ → ℕ) (files : D → TaskFile) (Idle : D → Type κ)
      (Serving : (lba count k busy : ℕ) → D → Type κ)
      → HoldsDisk ports disk files Idle Serving
      → ¬ NoneFits 512 cs
      → Idle m.drive
      → current < 2 ^ 28
      → m.volume.fat_start_sector + current / 128 < 2 ^ 28
      → (m' : Machine D) × (get_next_cluster ports fuel current m
          ≡ some (load32 disk (m.volume.fat_start_sector * 512 + 4 * current) % 2 ^ 28, m'))
        × IsKept lo hi cs m m'
        × Idle m'.drive
  get_next_cluster-entry disk files Idle Serving holds room idle small near =
      elim (malloc-Borrows m.heap lo hi 512 cs fuel ready.is_heap ready.coalesced (omega arith)
        ready.enough) [
          | inl (full, e) ↦ absurd (room full)
          | inr (ptr, h', e, borrowed) ↦
              let (m2, e2, read) =
                read_sectors-IsRead ports disk files Idle Serving holds
                  (fat_sector m.volume current) 1 ptr (record m { heap = h' }) (omega (arith, near))
                  (omega arith) (omega arith) idle in
              let c =
                entry_on_disk disk m2.ram m.volume.fat_start_sector current ptr small near
                  (λ j h. read.data_bytes j (omega arith)) in
              (
                record m2 { heap = free ptr m2.heap },
                get_next_cluster-run ptr h' e borrowed.not_null true m2 e2
                    ∙ ap (λ x. some (x, record m2 { heap = free ptr m2.heap })) c,
                read-IsKept ptr h' m2 borrowed read.within,
                read.idle,
              )
        ]
