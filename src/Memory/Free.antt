-- ===== src/Memory/Free.antt =====
-- `free` implements `release`: it marks the block and merges it with its right neighbour.
use tartarus_hobby_os.Base.{
  ℕ, zero, suc, ◌+◌, ◌<◌, ◌≡◌, ◌^◌, ◌≤◌, refl, subst, ◌∙◌, inl, inr, true, false, List, [], ◌∷◌,
  arith, ◌==◌, sub64, length, Bool-cases,
}
use tartarus_hobby_os.Memory.{Store, Heap, sizeof_block, free_block, free}
use tartarus_hobby_os.Memory.Spec.{Cell, join, release, address}
use tartarus_hobby_os.Memory.Layout.{IsLaidOut, IsHeap, SameOutside, frame, hi-extent}
use tartarus_hobby_os.Memory.Malloc.{address-ge}

-- `free_block` writes no header but its own.
free_block-ne : (p : ℕ) (m : Store) (q : ℕ) → (q == p) ≡ false → free_block p m q ≡ m q
unfolding free_block
free_block-ne p m q ne = ground arith

free_block-last :
    (p : ℕ) (m : Store)
    → (m p).next ≡ 0
    → free_block p m p ≡ record { size = (m p).size; is_free = true; next = 0 }
unfolding free_block
free_block-last p m last = ground arith

free_block-taken :
    (p : ℕ) (m : Store)
    → (m (m p).next).is_free ≡ false
    → (((m p).next == p) ≡ false)
    → free_block p m p ≡ record { size = (m p).size; is_free = true; next = (m p).next }
unfolding free_block
free_block-taken p m taken ne = ground arith

free_block-merge :
    (p : ℕ) (m : Store)
    → (m (m p).next).is_free ≡ true
    → ((m p).next == 0) ≡ false
    → ((m p).next == p) ≡ false
    → (m p).size + sizeof_block + (m (m p).next).size < 2 ^ 64
    → free_block p m p ≡ record {
      size = (m p).size + (sizeof_block + (m (m p).next).size);
      is_free = true;
      next = (m (m p).next).next;
    }
unfolding free_block
free_block-merge p m is_free live ne wrap = ground arith

module _ (m : Store) (p lo hi : ℕ) (wrap : hi + 16 < 2 ^ 64) where
  behind :
      (l : ℕ) (q : ℕ) (cs : List Cell)
      → p ≡ lo
      → lo < l
      → IsLaidOut m q l hi cs
      → IsLaidOut (free_block p m) q l hi cs
  behind l q cs e below w =
      frame m (free_block p m) q l hi cs w (λ a above. free_block-ne p m a (ground arith))

  free_block-join :
      (c : Cell) (cs : List Cell)
      → 0 < lo
      → IsLaidOut m p lo hi (c ∷ cs)
      → IsLaidOut (free_block p m) p lo hi (join c cs)
  unfolding join
  free_block-join c [] pos w = rw (free_block-last p m w.3.0) (w.0, w.1, refl, (refl, w.3.1))
  free_block-join c (d ∷ cs) pos w =
      let live : ((m p).next == 0) ≡ false = ground arith in
      let other : ((m p).next == p) ≡ false = ground arith in
      let rest = w.3 in
      let ends : lo + sizeof_block + c.size + sizeof_block + d.size ≤ hi =
        omega (arith, hi-extent m (m p).next (lo + sizeof_block + c.size) hi (d ∷ cs) rest) in
      elim (Bool-cases d.is_free) [
        | inl yes_free ↦
            let merged = free_block-merge p m (rest.2 ∙ yes_free) live other (omega arith) in
            let joined : lo + sizeof_block + (c.size + (sizeof_block + d.size))
                ≡ lo + sizeof_block + c.size + sizeof_block + d.size =
              omega arith in
            rw (yes_free, merged, joined)
              (
                w.0,
                omega arith,
                refl,
                behind (lo + sizeof_block + c.size + sizeof_block + d.size) (m (m p).next).next cs
                    w.0 (omega arith) rest.3,
              )
        | inr taken ↦
            let tail : IsLaidOut (free_block p m) (m p).next (lo + sizeof_block + c.size) hi
                (d ∷ cs) =
              behind (lo + sizeof_block + c.size) (m p).next (d ∷ cs) w.0 (omega arith) rest in
            rw (taken, free_block-taken p m (rest.2 ∙ taken) other)
              (w.0, w.1, refl, (tail.0, tail.1, tail.2 ∙ taken, tail.3))
      ]

free_block-release :
    (m : Store) (p lo hi : ℕ) (cs : List Cell) (i : ℕ)
    → hi + 16 < 2 ^ 64
    → 0 < lo
    → IsLaidOut m p lo hi cs
    → i < length cs
    → IsLaidOut (free_block (address lo cs i) m) p lo hi (release i cs)
unfolding release
free_block-release m p lo hi [] i wrap pos w h = absurd (omega arith)
free_block-release m p lo hi (c ∷ cs) zero wrap pos w h =
    subst (λ a. IsLaidOut (free_block a m) p lo hi (join c cs)) w.0
      (free_block-join m p lo hi wrap c cs pos w)
free_block-release m p lo hi (c ∷ cs) (suc i) wrap pos w h =
    let next_lo = lo + sizeof_block + c.size in
    let kept : free_block (address next_lo cs i) m p ≡ m p =
      free_block-ne _ m p (ground (arith, address-ge next_lo cs i)) in
    rw kept (
      w.0,
      w.1,
      w.2,
      free_block-release m (m p).next next_lo hi cs i wrap (omega arith) w.3 (omega arith),
    )

address-lt :
    (m : Store) (p lo hi : ℕ) (cs : List Cell) (i : ℕ)
    → IsLaidOut m p lo hi cs
    → i < length cs
    → address lo cs i + sizeof_block ≤ hi
address-lt m p lo hi [] i w h = absurd (omega arith)
address-lt m p lo hi (c ∷ cs) zero w h = omega (arith, hi-extent m p lo hi (c ∷ cs) w)
address-lt m p lo hi (c ∷ cs) (suc i) w h =
    address-lt m (m p).next (lo + sizeof_block + c.size) hi cs i w.3 (omega arith)

-- `free` of the pointer behind the header of a block of the heap: the store holds the blocks that
-- `release` leaves, and no other header has changed.
pub free-release :
    (h : Heap) (lo hi : ℕ) (cs : List Cell) (i : ℕ)
    → IsHeap h lo hi cs
    → i < length cs
    → IsHeap (free (address lo cs i + sizeof_block) h) lo hi (release i cs)
      × SameOutside
          (address lo cs i)
          (address lo cs i + 1)
          h.store
          (free (address lo cs i + sizeof_block) h).store
unfolding free
free-release h lo hi cs i is below =
    let block = address lo cs i in
    let room = address-lt h.store h.head lo hi cs i is.blocks below in
    let back : sub64 (block + sizeof_block) sizeof_block ≡ block = omega (arith, is.no_wrap) in
    let live : (block + sizeof_block == 0) ≡ false = ground arith in
    rw (live, back)
      (
        record {
          not_null = is.not_null;
          no_wrap = is.no_wrap;
          blocks =
              free_block-release h.store h.head lo hi cs i is.no_wrap is.not_null is.blocks below;
        },
        λ q out. free_block-ne block h.store q (ground arith),
      )
