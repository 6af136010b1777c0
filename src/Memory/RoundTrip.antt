-- ===== src/Memory/RoundTrip.antt =====
-- `free` undoes `malloc`, and what a `free` keeps.
use tartarus_hobby_os.Base.{
  ℕ, zero, suc, ◌+◌, ◌-◌, ◌<◌, ◌≡◌, ◌≢◌, refl, ◌⊎◌, inl, inr, true, false, Option, none, some, List,
  [], ◌∷◌, if◌then◌else◌, arith, ap, subst, ltb, Bool-cases, length, ltb→lt,
}
use tartarus_hobby_os.Memory.{Heap, sizeof_block, malloc, free}
use tartarus_hobby_os.Memory.Spec.{Cell, cell, carve, join, fits, alloc, release, address, extent}
use tartarus_hobby_os.Memory.Layout.{IsHeap}
use tartarus_hobby_os.Memory.Malloc.{Allocated, malloc-alloc}
use tartarus_hobby_os.Memory.Free.{free-release}
use tartarus_hobby_os.Memory.Live.{Holds, Choice, alloc-Choice, NoneFits}

-- No two neighbours are both free.
abbrev pub IsCoalesced : List Cell → Type 0
IsCoalesced [] = Unit
IsCoalesced (c ∷ []) = Unit
IsCoalesced (c ∷ d ∷ cs) = (c.is_free ≡ true → d.is_free ≡ false) × IsCoalesced (d ∷ cs)

IsCoalesced-tail : (c : Cell) (cs : List Cell) → IsCoalesced (c ∷ cs) → IsCoalesced cs
IsCoalesced-tail c [] h = tt
IsCoalesced-tail c (d ∷ cs) h = h.1

abbrev Restores : List Cell → Option (ℕ × List Cell) → Type 0
Restores cs none = Unit
Restores cs (some (i, ds)) = release i ds ≡ cs

module _ (size : ℕ) (c : Cell) where
  refit : fits size c ≡ true → cell c.size true ≡ c
  refit hit = ground arith

  join-whole :
      (cs : List Cell)
      → fits size c ≡ true
      → IsCoalesced (c ∷ cs)
      → join (cell c.size false) cs ≡ c ∷ cs
  unfolding join
  join-whole [] hit co = rw (refit hit)
  join-whole (d ∷ cs) hit co =
      let taken : d.is_free ≡ false = co.0 (ground arith) in rw (taken, refit hit)

  release-carve :
      (cs : List Cell)
      → fits size c ≡ true
      → IsCoalesced (c ∷ cs)
      → release 0 (carve size c cs) ≡ c ∷ cs
  unfolding release carve
  release-carve cs hit co = elim (Bool-cases (ltb (size + sizeof_block + 16) c.size)) [
    | inl room ↦
        let whole : size + (sizeof_block + (c.size - size - sizeof_block)) ≡ c.size =
          omega (arith, ltb→lt _ _ room) in
        rw (room, whole, refit hit)
    | inr full ↦ rw full (join-whole cs hit co)
  ]

Restores-cons :
    (c : Cell) (cs : List Cell) (found : Option (ℕ × List Cell))
    → Restores cs found
    → Restores (c ∷ cs) (elim found [ none ↦ none | some (i, ds) ↦ some (suc i, c ∷ ds) ])
unfolding release
Restores-cons c cs none r = tt
Restores-cons c cs (some (i, ds)) r = ap (λ l. c ∷ l) r

release-alloc : (size : ℕ) (cs : List Cell) → IsCoalesced cs → Restores cs (alloc size cs)
unfolding alloc
release-alloc size [] co = tt
release-alloc size (c ∷ cs) co = elim (Bool-cases (fits size c)) [
  | inl hit ↦ rw hit (release-carve size c cs hit co)
  | inr miss ↦
      rw miss
        (Restores-cons c cs (alloc size cs) (release-alloc size cs (IsCoalesced-tail c cs co)))
]

-- The pointer that `malloc` returns can be freed, and that gives the blocks back as they were.
abbrev pub UndoneByFree : (lo hi size : ℕ) → List Cell → Heap → Option (ℕ × Heap) → Type 0
UndoneByFree lo hi size cs h result =
    (NoneFits size cs × (result ≡ some (0, h)))
    ⊎ ((ptr : ℕ) × (h' : Heap) × (result ≡ some (ptr, h'))
        × (ptr ≢ 0)
        × IsHeap (free ptr h') lo hi cs)

module _ (fuel size : ℕ) (h : Heap) (lo hi : ℕ) (cs : List Cell) where
  UndoneByFree-found :
      (found : Option (ℕ × List Cell))
      → Choice lo size cs found
      → Restores cs found
      → Allocated h lo hi cs (malloc fuel size h) found
      → UndoneByFree lo hi size cs h (malloc fuel size h)
  UndoneByFree-found none no_room r e = inl (no_room, e)
  UndoneByFree-found (some (i, ds)) chosen r (h', e, is', same) =
      let at_same : address lo ds i ≡ address lo cs i = chosen.same_addresses i (omega arith) in
      let freed = (free-release h' lo hi ds i is' chosen.in_range).0 in
      inr (address lo cs i + sizeof_block, h', e, omega arith, rw (at_same, r) at freed)

  -- On a heap in which no two neighbours are both free, with a request that is not empty and fuel
  -- for every block: if `malloc` returns a pointer, it is not NULL, and freeing it gives the heap of
  -- the same blocks; it returns NULL only where no free block fits, and then changes nothing.
  pub free-malloc :
      IsHeap h lo hi cs
      → IsCoalesced cs
      → 0 < size
      → length cs < fuel
      → UndoneByFree lo hi size cs h (malloc fuel size h)
  free-malloc is co pos enough =
      UndoneByFree-found (alloc size cs) (alloc-Choice lo size cs) (release-alloc size cs co)
        (malloc-alloc fuel size h lo hi cs is pos enough)

-- The size of the block at a position once it is free: it has swallowed its right neighbour if that
-- is free, with the header between them.
abbrev pub merged_size : ℕ → List Cell → ℕ
merged_size i [] = 0
merged_size zero (c ∷ []) = c.size
merged_size zero (c ∷ d ∷ cs) = if d.is_free then c.size + (sizeof_block + d.size) else c.size
merged_size (suc i) (c ∷ cs) = merged_size i cs

-- `free` gives up the block at position `i` and no other.
pub record IsReleased (lo i : ℕ) (cs ds : List Cell) : Type 0 where
  pub freed : Cell
  pub is_there : Holds lo ds (address lo cs i) freed
  pub is_free : freed.is_free ≡ true
  pub size : freed.size ≡ merged_size i cs
  pub kept :
      (a : ℕ) (b : Cell)
      → Holds lo cs a b
      → b.is_free ≡ false
      → a ≢ address lo cs i
      → Holds lo ds a b
  pub same_extent : extent ds ≡ extent cs

module _ (lo : ℕ) (c d : Cell) (cs : List Cell) where
  merged_end :
      lo + sizeof_block + (c.size + (sizeof_block + d.size))
      ≡ lo + sizeof_block + c.size + sizeof_block + d.size
  merged_end = omega arith

  IsReleased-merge :
      d.is_free ≡ true
      → IsReleased lo 0 (c ∷ d ∷ cs) (cell (c.size + (sizeof_block + d.size)) true ∷ cs)
  IsReleased-merge idle = record {
    freed = cell (c.size + (sizeof_block + d.size)) true;
    is_there = inl (refl, refl);
    is_free = refl;
    size = rw idle;
    kept = kept;
    same_extent = omega arith;
  }
    where
      kept :
          (a : ℕ) (b : Cell)
          → Holds lo (c ∷ d ∷ cs) a b
          → b.is_free ≡ false
          → a ≢ lo
          → Holds lo (cell (c.size + (sizeof_block + d.size)) true ∷ cs) a b
      kept a b (inl e) taken ne = absurd (ne e.0)
      kept a b (inr (inl e)) taken ne = absurd (ground arith)
      kept a b (inr (inr h)) taken ne = inr (rw merged_end h)

IsReleased-keep :
    (lo : ℕ) (c : Cell) (cs : List Cell)
    → c.size ≡ merged_size 0 (c ∷ cs)
    → IsReleased lo 0 (c ∷ cs) (cell c.size true ∷ cs)
IsReleased-keep lo c cs same = record {
  freed = cell c.size true;
  is_there = inl (refl, refl);
  is_free = refl;
  size = same;
  kept = kept;
  same_extent = refl;
}
  where
    kept :
        (a : ℕ) (b : Cell)
        → Holds lo (c ∷ cs) a b
        → b.is_free ≡ false
        → a ≢ lo
        → Holds lo (cell c.size true ∷ cs) a b
    kept a b (inl e) taken ne = absurd (ne e.0)
    kept a b (inr h) taken ne = inr h

IsReleased-join : (lo : ℕ) (c : Cell) (cs : List Cell) → IsReleased lo 0 (c ∷ cs) (join c cs)
unfolding join
IsReleased-join lo c [] = IsReleased-keep lo c [] refl
IsReleased-join lo c (d ∷ cs) = elim (Bool-cases d.is_free) [
  | inl idle ↦
      let merge : cell (c.size + (sizeof_block + d.size)) true ∷ cs ≡ join c (d ∷ cs) =
        ground arith in
      subst (IsReleased lo 0 (c ∷ d ∷ cs)) merge (IsReleased-merge lo c d cs idle)
  | inr taken ↦
      let keep : cell c.size true ∷ d ∷ cs ≡ join c (d ∷ cs) = ground arith in
      subst (IsReleased lo 0 (c ∷ d ∷ cs)) keep (IsReleased-keep lo c (d ∷ cs) (rw taken))
]

IsReleased-cons :
    (lo i : ℕ) (c : Cell) (cs ds : List Cell)
    → IsReleased (lo + sizeof_block + c.size) i cs ds
    → IsReleased lo (suc i) (c ∷ cs) (c ∷ ds)
IsReleased-cons lo i c cs ds r = record {
  freed = r.freed;
  is_there = inr r.is_there;
  is_free = r.is_free;
  size = r.size;
  kept = kept;
  same_extent = omega (arith, r.same_extent);
}
  where
    kept :
        (a : ℕ) (b : Cell)
        → Holds lo (c ∷ cs) a b
        → b.is_free ≡ false
        → a ≢ address (lo + sizeof_block + c.size) cs i
        → Holds lo (c ∷ ds) a b
    kept a b (inl e) taken ne = inl e
    kept a b (inr h) taken ne = inr (r.kept a b h taken ne)

release-IsReleased :
    (lo : ℕ) (cs : List Cell) (i : ℕ) → i < length cs → IsReleased lo i cs (release i cs)
unfolding release
release-IsReleased lo [] i h = absurd (omega arith)
release-IsReleased lo (c ∷ cs) zero h = IsReleased-join lo c cs
release-IsReleased lo (c ∷ cs) (suc i) h =
    IsReleased-cons lo i c cs (release i cs)
      (release-IsReleased (lo + sizeof_block + c.size) cs i (omega arith))

-- `free` of the pointer to the block at a position gives a heap of blocks in which that block is
-- free and has swallowed its right neighbour if that was free, every other block in use is still in use
-- where it was, and no byte of the region is lost.
pub free_lem :
    (h : Heap) (lo hi : ℕ) (cs : List Cell) (i : ℕ)
    → IsHeap h lo hi cs
    → i < length cs
    → (ds : List Cell) × IsHeap (free (address lo cs i + sizeof_block) h) lo hi ds
      × IsReleased lo i cs ds
free_lem h lo hi cs i is below =
    (release i cs, (free-release h lo hi cs i is below).0, release-IsReleased lo cs i below)
