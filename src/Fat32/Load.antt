-- ===== src/Fat32/Load.antt =====
-- The loop of `ExecuteFirstFile` that reads a file into a block of the heap.
use tartarus_hobby_os.Base.{
  ℕ, zero, suc, ◌+◌, ◌*◌, ◌^◌, ◌≤◌, ◌<◌, ◌≡◌, ◌≢◌, inl, inr, refl, ◌∙◌, ap, arith, Bool, true,
  false, some, List, length, ltb, ◌&&◌, add32, Bool-cases,
}
use tartarus_hobby_os.Memory.{sizeof_block}
use tartarus_hobby_os.Memory.Spec.{Cell}
use tartarus_hobby_os.Memory.Layout.{IsHeap}
use tartarus_hobby_os.Memory.Live.{Holds, Holds-disjoint}
use tartarus_hobby_os.Memory.RoundTrip.{IsCoalesced}
use tartarus_hobby_os.Ata.{Ports}
use tartarus_hobby_os.Machine.{Volume, Machine, M, read_sectors, ◌>>=◌, pure}
use tartarus_hobby_os.Machine.Laws.{bind-some}
use tartarus_hobby_os.Fat32.{sector_of, get_next_cluster, load_cluster, load_loop}
use tartarus_hobby_os.Fat32.Disk.{IsWithin, read_sectors-IsWithin}
use tartarus_hobby_os.Fat32.Chain.{IsReady, IsKept, get_next_cluster-IsKept}

-- The bytes of a cluster.
abbrev pub cluster_bytes : Volume → ℕ
cluster_bytes v = 512 * v.sectors_per_cluster

-- The end of a round.
abbrev after_round {ℓ} : {D : Type ℓ} → Volume → ℕ → ℕ → M D (ℕ × ℕ)
after_round v bytes_read c = pure (c, add32 bytes_read (cluster_bytes v))

-- `m'` comes from `m` by filling the block `b` at `a` from its byte `r` on: the heap has the same
-- blocks, and the other blocks in use and the bytes before are as they were.
pub record IsFilled {ℓ} {D : Type ℓ} (lo hi : ℕ) (cs : List Cell) (a : ℕ) (b : Cell) (r : ℕ)
    (m m' : Machine D) : Type ℓ where
  pub still_heap : IsHeap m'.heap lo hi cs
  pub same_volume : m'.volume ≡ m.volume
  pub same_console : m'.console ≡ m.console
  pub same_before :
      (j : ℕ) → j < r → j < b.size → m'.ram (a + sizeof_block + j) ≡ m.ram (a + sizeof_block + j)
  pub same_others :
      (a' : ℕ) (b' : Cell) (j : ℕ)
      → Holds lo cs a' b'
      → b'.is_free ≡ false
      → a' ≢ a
      → j < b'.size
      → m'.ram (a' + sizeof_block + j) ≡ m.ram (a' + sizeof_block + j)

module _ {ℓ} {D : Type ℓ} (ports : Ports D) (fuel exec_buffer current bytes_read : ℕ)
    (m : Machine D) where
  pub load_cluster-run :
      (r : Bool) (m1 : Machine D) (c : ℕ) (m2 : Machine D)
      → read_sectors ports
          (sector_of m.volume current)
          m.volume.sectors_per_cluster
          (exec_buffer + bytes_read)
          m
        ≡ some (r, m1)
      → get_next_cluster ports fuel current m1 ≡ some (c, m2)
      → load_cluster ports fuel exec_buffer current bytes_read m
        ≡ some ((c, add32 bytes_read (cluster_bytes m.volume)), m2)
  unfolding load_cluster
  load_cluster-run r m1 c m2 e1 e2 =
      bind-some
        (read_sectors ports (sector_of m.volume current) m.volume.sectors_per_cluster
          (exec_buffer + bytes_read))
        (λ r. get_next_cluster ports fuel current >>= after_round m.volume bytes_read) m r m1 e1
      ∙ bind-some (get_next_cluster ports fuel current) (after_round m.volume bytes_read) m1 c m2 e2

module _ {ℓ} {D : Type ℓ} (lo hi : ℕ) (cs : List Cell) (a : ℕ) (b : Cell) where
  pub IsFilled-refl : (r : ℕ) (m : Machine D) → IsHeap m.heap lo hi cs → IsFilled lo hi cs a b r m m
  IsFilled-refl r m is = record {
    still_heap = is;
    same_volume = refl;
    same_console = refl;
    same_before = λ j h h'. refl;
    same_others = λ a' b' j held taken other h. refl;
  }

  pub IsFilled-trans :
      (r r' : ℕ) (m m1 m2 : Machine D)
      → r ≤ r'
      → IsFilled lo hi cs a b r m m1
      → IsFilled lo hi cs a b r' m1 m2
      → IsFilled lo hi cs a b r m m2
  IsFilled-trans r r' m m1 m2 le one two = record {
    still_heap = two.still_heap;
    same_volume = two.same_volume ∙ one.same_volume;
    same_console = two.same_console ∙ one.same_console;
    same_before = λ j h h'. two.same_before j (omega arith) h' ∙ one.same_before j h h';
    same_others = λ a' b' j held taken other h.
        two.same_others a' b' j held taken other h ∙ one.same_others a' b' j held taken other h;
  }

  -- A read into the block, and a walk along the chain after it.
  pub IsFilled-read :
      (r n : ℕ) (m m1 m2 : Machine D)
      → Holds lo cs a b
      → b.is_free ≡ false
      → r + n ≤ b.size
      → IsWithin (a + sizeof_block + r) n m m1
      → IsKept lo hi cs m1 m2
      → IsFilled lo hi cs a b r m m2
  IsFilled-read r n m m1 m2 held taken room read kept = record {
    still_heap = kept.still_heap;
    same_volume = kept.same_volume ∙ read.same_volume;
    same_console = kept.same_console ∙ read.same_console;
    same_before = λ j h h'. kept.same_bytes a b j held taken h' ∙ read.others _ (omega arith);
    same_others = λ a' b' j held' taken' other h.
        kept.same_bytes a' b' j held' taken' h
        ∙ read.others _ (omega (arith, Holds-disjoint lo cs a' b' a b held' held other));
  }

-- The block `b` at `a` is in use, and has room for the clusters of a file of `total` bytes, whose
-- last cluster may reach behind the file's end.
pub record IsTarget (fuel lo : ℕ) (cs : List Cell) (a : ℕ) (b : Cell) (v : Volume) (total : ℕ)
    : Type 0 where
  pub coalesced : IsCoalesced cs
  pub enough : length cs < fuel
  pub held : Holds lo cs a b
  pub taken : b.is_free ≡ false
  pub some_sectors : 0 < v.sectors_per_cluster
  pub room : total + cluster_bytes v ≤ b.size + 1
  pub small : total + cluster_bytes v < 2 ^ 32

module _ {ℓ} {D : Type ℓ} (ports : Ports D) (fuel lo hi : ℕ) (cs : List Cell) (a : ℕ) (b : Cell)
    (v : Volume) (total : ℕ) (target : IsTarget fuel lo cs a b v total) where
  load_cluster-IsFilled :
      (current r : ℕ) (m : Machine D)
      → IsHeap m.heap lo hi cs
      → m.volume ≡ v
      → r < total
      → (c : ℕ) × (m' : Machine D) × (load_cluster ports fuel (a + sizeof_block) current r m
          ≡ some ((c, r + cluster_bytes v), m'))
        × IsFilled lo hi cs a b r m m'
  load_cluster-IsFilled current r m is same below =
      let (ok, m1, e1, read) =
        read_sectors-IsWithin ports (sector_of m.volume current) m.volume.sectors_per_cluster
          (a + sizeof_block + r) m in
      let ready : IsReady fuel lo hi cs m1 = record {
        is_heap = rw read.same_heap is;
        coalesced = target.coalesced;
        enough = target.enough;
      } in
      let (c, m2, e2, small, kept) = get_next_cluster-IsKept ports fuel current m1 lo hi cs ready in
      let L : cluster_bytes m.volume ≡ cluster_bytes v = ap (λ w. cluster_bytes w) same in
      let no_wrap : add32 r (cluster_bytes m.volume) ≡ r + cluster_bytes v =
        omega (arith, L, target.small) in
      (
        c,
        m2,
        load_cluster-run ports fuel (a + sizeof_block) current r m ok m1 c m2 e1 e2
            ∙ ap (λ x. some ((c, x), m2)) no_wrap,
        IsFilled-read lo hi cs a b r (cluster_bytes m.volume) m m1 m2 target.held target.taken
            (omega (arith, L, target.room)) read kept,
      )

  -- A round that is not the last.
  pub load_loop-round :
      (rounds current r : ℕ) (m : Machine D)
      → (ltb current 0x0fff_fff8 && ltb r total) ≡ true
      → (c : ℕ) (m' : Machine D)
      → load_cluster ports fuel (a + sizeof_block) current r m ≡ some ((c, r + cluster_bytes v), m')
      → load_loop ports fuel (suc rounds) (a + sizeof_block) total current r m
        ≡ load_loop ports fuel rounds (a + sizeof_block) total c (r + cluster_bytes v) m'
  unfolding load_loop
  load_loop-round rounds current r m go c m' e =
      rw (load_loop, go)
        (bind-some (load_cluster ports fuel (a + sizeof_block) current r)
          (λ x. load_loop ports fuel rounds (a + sizeof_block) total x.0 x.1) m
          (c, r + cluster_bytes v) m' e)

  load_loop-IsFilled_from :
      (rounds current r : ℕ) (m : Machine D)
      → IsHeap m.heap lo hi cs
      → m.volume ≡ v
      → total ≤ r + rounds * cluster_bytes v
      → (m' : Machine D) × (load_loop ports fuel (suc rounds) (a + sizeof_block) total current r m
          ≡ some (tt, m'))
        × IsFilled lo hi cs a b r m m'
  unfolding load_loop
  load_loop-IsFilled_from zero current r m is same ends =
      let stop : (ltb current 0x0fff_fff8 && ltb r total) ≡ false = ground arith in
      (m, rw (load_loop, stop) refl, IsFilled-refl lo hi cs a b r m is)
  load_loop-IsFilled_from (suc rounds) current r m is same ends =
      elim (Bool-cases (ltb current 0x0fff_fff8 && ltb r total)) [
        | inr stop ↦ (m, rw (load_loop, stop) refl, IsFilled-refl lo hi cs a b r m is)
        | inl go ↦
            let (c, m1, e, one) = load_cluster-IsFilled current r m is same (ground arith) in
            let (m2, e2, two) =
              load_loop-IsFilled_from rounds c (r + cluster_bytes v) m1 one.still_heap
                (one.same_volume ∙ same) (omega (arith, ends)) in
            (
              m2,
              load_loop-round (suc rounds) current r m go c m1 e ∙ e2,
              IsFilled-trans lo hi cs a b r (r + cluster_bytes v) m m1 m2 (omega arith) one two,
            )
      ]

  -- With any drive, whatever it answers and whatever the FAT says: on a heap in which no two
  -- neighbours are both free, with fuel for its blocks, and into a block in use that has room for the
  -- file's size and one cluster less a byte, the loop ends within the rounds that cover the file's
  -- size, and writes into no other block in use. `ExecuteFirstFile` asks for 512 bytes more than the
  -- size, so it gets that room with clusters of one sector.
  pub load_loop-IsFilled :
      (rounds current : ℕ) (m : Machine D)
      → IsHeap m.heap lo hi cs
      → m.volume ≡ v
      → total ≤ rounds * cluster_bytes v
      → (m' : Machine D) × (load_loop ports fuel (suc rounds) (a + sizeof_block) total current 0 m
          ≡ some (tt, m'))
        × IsFilled lo hi cs a b 0 m m'
  load_loop-IsFilled rounds current m is same ends =
      load_loop-IsFilled_from rounds current 0 m is same (omega (arith, ends))
