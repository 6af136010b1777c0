-- ===== src/Memory/Laws.antt =====
-- What a caller of `malloc` and `free` may rely on.
use tartarus_hobby_os.Base.{
  ℕ, ◌+◌, ◌-◌, ◌≤◌, ◌<◌, ◌≡◌, ◌≢◌, ◌^◌, ◌⊎◌, sym, ◌∙◌, inl, inr, true, false, Option, none, some,
  List, [], ◌∷◌, arith, length,
}
use tartarus_hobby_os.Memory.{Heap, sizeof_block, init_heap, malloc}
use tartarus_hobby_os.Memory.Spec.{Cell, cell, fits, alloc, address}
use tartarus_hobby_os.Memory.Layout.{IsHeap, hi-extent}
use tartarus_hobby_os.Memory.Malloc.{Allocated, malloc-alloc}
use tartarus_hobby_os.Memory.Live.{
  Holds, Holds-ge, Holds-le, Holds-disjoint, NoneFits, IsChosen, Choice, alloc-Choice,
}

-- `InitHeap` makes one free block of the whole region, less its header.
init_heap-IsHeap :
    (start size : ℕ) (h : Heap)
    → 0 < start
    → sizeof_block ≤ size
    → start + size + 16 < 2 ^ 64
    → IsHeap (init_heap start size h) start (start + size) (cell (size - sizeof_block) true ∷ [])
unfolding init_heap
init_heap-IsHeap start size h pos room wrap = record {
  not_null = pos;
  no_wrap = wrap;
  blocks = ground arith;
}

-- `malloc` has returned `ptr`: a block of its own, no smaller than the request, inside the region,
-- in the place of the first free block that fits, and apart from every block in use, and these stay in
-- use where they are.
pub record IsFresh (lo hi size ptr : ℕ) (cs : List Cell) (h' : Heap) : Type 0 where
  pub block : Cell
  pub blocks : List Cell
  pub still_heap : IsHeap h' lo hi blocks
  pub owned : Holds lo blocks (ptr - sizeof_block) block
  pub is_taken : block.is_free ≡ false
  pub enough : size ≤ block.size
  pub old : Cell
  pub was_there : Holds lo cs (ptr - sizeof_block) old
  pub was_enough : fits size old ≡ true
  pub first : (a : ℕ) (b : Cell) → Holds lo cs a b → a + sizeof_block < ptr → fits size b ≡ false
  pub inside : (lo + sizeof_block ≤ ptr) × (ptr + block.size ≤ hi)
  pub apart :
      (a : ℕ) (b : Cell)
      → Holds lo cs a b
      → b.is_free ≡ false
      → Holds lo blocks a b
        × ((ptr + block.size ≤ a) ⊎ (a + sizeof_block + b.size + sizeof_block ≤ ptr))

Holds-unique :
    (lo : ℕ) (cs : List Cell) (a : ℕ) (b b' : Cell) → Holds lo cs a b → Holds lo cs a b' → b ≡ b'
Holds-unique lo [] a b b' h h' = absurd h
Holds-unique lo (c ∷ cs) a b b' (inl e) (inl e') = e.1 ∙ sym e'.1
Holds-unique lo (c ∷ cs) a b b' (inl e) (inr h') =
    absurd (omega (arith, Holds-ge (lo + sizeof_block + c.size) cs a b' h'))
Holds-unique lo (c ∷ cs) a b b' (inr h) (inl e') =
    absurd (omega (arith, Holds-ge (lo + sizeof_block + c.size) cs a b h))
Holds-unique lo (c ∷ cs) a b b' (inr h) (inr h') =
    Holds-unique (lo + sizeof_block + c.size) cs a b b' h h'

IsFresh-IsChosen :
    (size : ℕ) (lo hi : ℕ) (cs : List Cell) (i : ℕ) (ds : List Cell) (h' : Heap)
    → IsHeap h' lo hi ds
    → IsChosen lo size cs i ds
    → IsFresh lo hi size (address lo cs i + sizeof_block) cs h'
IsFresh-IsChosen size lo hi cs i ds h' is' chosen =
    let chosen_at = address lo cs i in
    let back : chosen_at + sizeof_block - sizeof_block ≡ chosen_at = omega arith in
    let there = chosen.is_there in
    record {
      block = chosen.now;
      blocks = ds;
      still_heap = is';
      owned = rw back there;
      is_taken = chosen.is_taken;
      enough = chosen.enough;
      old = chosen.was;
      was_there = rw back chosen.was_there;
      was_enough = chosen.was_enough;
      first = λ a b h before. chosen.first a b h (omega (arith, before));
      inside = omega (
        arith,
        Holds-ge lo ds chosen_at chosen.now there,
        Holds-le lo ds chosen_at chosen.now there,
        hi-extent h'.store h'.head lo hi ds is'.blocks,
      );
      apart = apart;
    }
  where
    apart :
        (a : ℕ) (b : Cell)
        → Holds lo cs a b
        → b.is_free ≡ false
        → Holds lo ds a b
          × ((address lo cs i + sizeof_block + chosen.now.size ≤ a)
              ⊎ (a + sizeof_block + b.size + sizeof_block ≤ address lo cs i + sizeof_block))
    apart a b holds taken =
        let ne : address lo cs i ≢ a = λ e. cc (
          Holds-unique lo cs a b chosen.was holds (rw e at chosen.was_there),
          taken,
          chosen.was_free,
        ) in
        (
          chosen.kept a b holds taken,
          omega (
            arith,
            Holds-disjoint lo ds (address lo cs i) chosen.now a b chosen.is_there
                (chosen.kept a b holds taken) ne,
          ),
        )

-- What `malloc` returns.
abbrev pub MallocResult : Heap → (lo hi size : ℕ) → List Cell → Option (ℕ × Heap) → Type 0
MallocResult h lo hi size cs result =
    (NoneFits size cs × (result ≡ some (0, h)))
    ⊎ ((ptr : ℕ) × (h' : Heap) × (result ≡ some (ptr, h')) × IsFresh lo hi size ptr cs h')

module _ (fuel size : ℕ) (h : Heap) (lo hi : ℕ) (cs : List Cell) where
  MallocResult-found :
      (found : Option (ℕ × List Cell))
      → Choice lo size cs found
      → Allocated h lo hi cs (malloc fuel size h) found
      → MallocResult h lo hi size cs (malloc fuel size h)
  MallocResult-found none no_room e = inl (no_room, e)
  MallocResult-found (some (i, ds)) chosen (h', e, is', same) =
      inr (address lo cs i + sizeof_block, h', e, IsFresh-IsChosen size lo hi cs i ds h' is' chosen)

  -- On a heap of blocks, with a request that is not empty and fuel for every block, `malloc` returns.
  -- Either no free block is as large as the request, and it returns NULL and changes nothing; or it
  -- returns a block of its own, at least as large, at the place of the first free block that fits, inside
  -- the region and apart from every block in use, and the heap is a heap of blocks again in which
  -- those are still in use where they were.
  pub malloc_lem :
      IsHeap h lo hi cs
      → 0 < size
      → length cs < fuel
      → MallocResult h lo hi size cs (malloc fuel size h)
  malloc_lem is pos enough =
      MallocResult-found (alloc size cs) (alloc-Choice lo size cs)
        (malloc-alloc fuel size h lo hi cs is pos enough)
