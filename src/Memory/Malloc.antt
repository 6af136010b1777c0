-- ===== src/Memory/Malloc.antt =====
-- `malloc` implements `alloc`: the loop finds the first block that fits, and the writes carve it.
use tartarus_hobby_os.Base.{
  ℕ, zero, suc, ◌+◌, ◌-◌, ◌≤◌, ◌<◌, ◌≡◌, ◌^◌, refl, inl, inr, true, false, Option, none, some, List,
  [], ◌∷◌, arith, ◌&&◌, ltb, leb, ◌==◌, add64, if◌then◌else◌, length, Bool-cases, ltb→lt,
  ltb_false→le,
}
use tartarus_hobby_os.Memory.{Store, Heap, sizeof_block, take_block, malloc_loop, malloc}
use tartarus_hobby_os.Memory.Spec.{Cell, cell, carve, fits, alloc, address}
use tartarus_hobby_os.Memory.Layout.{IsLaidOut, IsHeap, SameOutside, frame, hi-extent}

-- Where nothing wraps, the split writes two headers.
take_block-split :
    (p size : ℕ) (m : Store)
    → p + sizeof_block + (m p).size < 2 ^ 64
    → size + sizeof_block + 16 < (m p).size
    → (q : ℕ)
    → take_block p size m q ≡ (
        if q == p
        then record { size = size; is_free = false; next = p + sizeof_block + size }
        else if q == p + sizeof_block + size
        then record { size = (m p).size - size - sizeof_block; is_free = true; next = (m p).next }
        else m q)
unfolding take_block
take_block-split p size m wrap room q = ground arith

take_block-whole :
    (p size : ℕ) (m : Store)
    → p + sizeof_block + (m p).size < 2 ^ 64
    → size ≤ (m p).size
    → (m p).size ≤ size + sizeof_block + 16
    → size + sizeof_block + 16 < 2 ^ 64
    → (q : ℕ)
    → take_block p size m q
      ≡ (if q == p then record { size = (m p).size; is_free = false; next = (m p).next } else m q)
unfolding take_block
take_block-whole p size m wrap le room small q = ground arith

module _ (m : Store) (p lo hi size : ℕ) (c : Cell) (cs : List Cell)
    (w : IsLaidOut m p lo hi (c ∷ cs)) (wrap : hi + 16 < 2 ^ 64) where
  end-le-hi : lo + sizeof_block + c.size ≤ hi
  end-le-hi = omega (arith, hi-extent m p lo hi (c ∷ cs) w)

  take_block-SameOutside :
      size ≤ c.size → SameOutside lo (lo + sizeof_block + c.size) m (take_block p size m)
  take_block-SameOutside le q out = elim (Bool-cases (ltb (size + sizeof_block + 16) c.size)) [
    | inl room ↦ ground (arith, end-le-hi, take_block-split p size m _ _ q)
    | inr full ↦ ground (arith, end-le-hi, take_block-whole p size m _ _ _ _ q)
  ]

  after :
      size ≤ c.size → IsLaidOut (take_block p size m) (m p).next (lo + sizeof_block + c.size) hi cs
  after le =
      frame m (take_block p size m) (m p).next (lo + sizeof_block + c.size) hi cs w.3
        (λ q above. take_block-SameOutside le q (inr above))

  -- The two blocks of a split, and those behind them.
  IsLaidOut-split :
      size + sizeof_block + 16 < c.size
      → IsLaidOut
          (take_block p size m)
          p
          lo
          hi
          (cell size false ∷ cell (c.size - size - sizeof_block) true ∷ cs)
  IsLaidOut-split room =
      let wrap' : p + sizeof_block + (m p).size < 2 ^ 64 = omega (arith, end-le-hi) in
      let room' : size + sizeof_block + 16 < (m p).size = omega arith in
      let front : take_block p size m p
          ≡ record { size = size; is_free = false; next = p + sizeof_block + size } =
        ground (arith, take_block-split p size m wrap' room' p) in
      let back : take_block p size m (p + sizeof_block + size)
          ≡ record { size = (m p).size - size - sizeof_block; is_free = true; next = (m p).next } =
        ground (arith, take_block-split p size m wrap' room' (p + sizeof_block + size)) in
      let ends : lo + sizeof_block + size + sizeof_block + (c.size - size - sizeof_block)
          ≡ lo + sizeof_block + c.size =
        omega arith in
      rw (front, back, ends)
        (w.0, refl, refl, (omega arith, omega arith, refl, after (omega arith)))

  IsLaidOut-whole :
      size ≤ c.size
      → c.size ≤ size + sizeof_block + 16
      → IsLaidOut (take_block p size m) p lo hi (cell c.size false ∷ cs)
  IsLaidOut-whole le full =
      let front : take_block p size m p
          ≡ record { size = (m p).size; is_free = false; next = (m p).next } =
        ground (arith, end-le-hi, take_block-whole p size m _ _ _ _ p) in
      rw front (w.0, w.1, refl, after le)

  take_block-carve : size ≤ c.size → IsLaidOut (take_block p size m) p lo hi (carve size c cs)
  unfolding carve
  take_block-carve le = elim (Bool-cases (ltb (size + sizeof_block + 16) c.size)) [
    | inl room ↦ rw room (IsLaidOut-split (ltb→lt _ _ room))
    | inr full ↦ rw full (IsLaidOut-whole le (ltb_false→le _ _ full))
  ]

-- What a run of the loop from a block at `lo` comes to, by what `alloc` says of the blocks.
abbrev pub Outcome :
    Store → (p lo hi : ℕ) → List Cell → Option (ℕ × Store) → Option (ℕ × List Cell) → Type 0
Outcome m p lo hi cs result none = result ≡ some (0, m)
Outcome m p lo hi cs result (some (i, ds)) =
    (m' : Store) × (result ≡ some (address lo cs i + sizeof_block, m'))
    × IsLaidOut m' p lo hi ds
    × SameOutside (address lo cs i) (address lo cs (suc i)) m m'

pub address-ge : (lo : ℕ) (cs : List Cell) (i : ℕ) → lo ≤ address lo cs i
address-ge lo [] zero = omega arith
address-ge lo [] (suc i) = omega arith
address-ge lo (c ∷ cs) zero = omega arith
address-ge lo (c ∷ cs) (suc i) = omega (arith, address-ge (lo + sizeof_block + c.size) cs i)

module _ (m : Store) (p lo hi : ℕ) (c : Cell) (cs : List Cell) (w : IsLaidOut m p lo hi (c ∷ cs))
    (result : Option (ℕ × Store)) where
  -- Below a block that does not fit, the run goes on behind it.
  Outcome-cons :
      (found : Option (ℕ × List Cell))
      → Outcome m (m p).next (lo + sizeof_block + c.size) hi cs result found
      → Outcome m p lo hi
          (c ∷ cs)
          result
          (elim found [ none ↦ none | some (i, ds) ↦ some (suc i, c ∷ ds) ])
  Outcome-cons none e = e
  Outcome-cons (some (i, ds)) (m', e, laid, same) =
      let here : m' p ≡ m p =
        same p (inl (omega (arith, address-ge (lo + sizeof_block + c.size) cs i))) in
      (m', e, rw here (w.0, w.1, w.2, laid), same)

add64-sizeof :
    (p lo hi : ℕ) (c : Cell) (cs : List Cell) (m : Store)
    → IsLaidOut m p lo hi (c ∷ cs)
    → hi + 16 < 2 ^ 64
    → add64 p sizeof_block ≡ p + sizeof_block
add64-sizeof p lo hi c cs m w wrap = omega (arith, hi-extent m p lo hi (c ∷ cs) w)

-- With fuel for every block the loop returns, and does what `alloc` says.
malloc_loop-alloc :
    (fuel size : ℕ) (m : Store) (p lo hi : ℕ) (cs : List Cell)
    → IsLaidOut m p lo hi cs
    → 0 < lo
    → hi + 16 < 2 ^ 64
    → length cs < fuel
    → Outcome m p lo hi cs (malloc_loop fuel size p m) (alloc size cs)
unfolding malloc_loop alloc
malloc_loop-alloc zero size m p lo hi cs w pos wrap enough = absurd (omega arith)
malloc_loop-alloc (suc fuel) size m p lo hi [] w pos wrap enough = rw w.0
malloc_loop-alloc (suc fuel) size m p lo hi (c ∷ cs) w pos wrap enough =
    let live : (p == 0) ≡ false = ground arith in
    let test : ((m p).is_free && leb size (m p).size) ≡ fits size c = rw (w.1, w.2) in
    elim (Bool-cases (fits size c)) [
      | inl hit ↦
          let le : size ≤ c.size = ground arith in
          rw (live, test, hit)
            (
              take_block p size m,
              rw (add64-sizeof p lo hi c cs m w wrap, w.0),
              take_block-carve m p lo hi size c cs w wrap le,
              take_block-SameOutside m p lo hi size c cs w wrap le,
            )
      | inr miss ↦
          rw (live, test, miss)
            (Outcome-cons m p lo hi c cs w _ (alloc size cs) (
              malloc_loop-alloc fuel size m (m p).next (lo + sizeof_block + c.size) hi cs w.3
                (omega arith) wrap (omega arith)))
    ]

-- What `malloc` returns, by what `alloc` says of the blocks.
abbrev pub Allocated :
    Heap → (lo hi : ℕ) → List Cell → Option (ℕ × Heap) → Option (ℕ × List Cell) → Type 0
Allocated h lo hi cs result none = result ≡ some (0, h)
Allocated h lo hi cs result (some (i, ds)) =
    (h' : Heap) × (result ≡ some (address lo cs i + sizeof_block, h'))
    × IsHeap h' lo hi ds
    × SameOutside (address lo cs i) (address lo cs (suc i)) h.store h'.store

module _ (fuel size : ℕ) (h : Heap) (lo hi : ℕ) (cs : List Cell) (is : IsHeap h lo hi cs)
    (pos : 0 < size) where
  Allocated-Outcome :
      (found : Option (ℕ × List Cell))
      → Outcome h.store h.head lo hi cs (malloc_loop fuel size h.head h.store) found
      → Allocated h lo hi cs (malloc fuel size h) found
  unfolding malloc
  Allocated-Outcome none e = let some_size : (size == 0) ≡ false = ground arith in rw (some_size, e)
  Allocated-Outcome (some (i, ds)) (m', e, laid, same) =
      let some_size : (size == 0) ≡ false = ground arith in
      rw (some_size, e)
        (
          record { head = h.head; store = m' },
          refl,
          record { not_null = is.not_null; no_wrap = is.no_wrap; blocks = laid },
          same,
        )

  -- On a heap of blocks, with a request that is not empty and fuel for every block, `malloc` does
  -- what `alloc` says: NULL and no change if it finds no block, and else the address behind the
  -- header of the block that it chooses, in a heap of the blocks that it leaves, whose headers
  -- outside the chosen block are as they were.
  pub malloc-alloc : length cs < fuel → Allocated h lo hi cs (malloc fuel size h) (alloc size cs)
  malloc-alloc enough =
      Allocated-Outcome (alloc size cs) (
        malloc_loop-alloc fuel size h.store h.head lo hi cs is.blocks is.not_null is.no_wrap enough)
