-- ===== src/Memory/Borrow.antt =====
-- A block that is taken for a while: `malloc`, the use of the block, and `free`.
use tartarus_hobby_os.Base.{
  ℕ, ◌<◌, ◌≡◌, ◌≢◌, ◌⊎◌, inl, inr, Option, none, some, List, length, ap, sym, subst, ◌∙◌,
}
use tartarus_hobby_os.Memory.{Heap, malloc, free}
use tartarus_hobby_os.Memory.Spec.{Cell}
use tartarus_hobby_os.Memory.Layout.{IsHeap}
use tartarus_hobby_os.Memory.Live.{NoneFits}
use tartarus_hobby_os.Memory.Laws.{IsFresh, MallocResult, malloc_lem}
use tartarus_hobby_os.Memory.RoundTrip.{IsCoalesced, UndoneByFree, free-malloc}

-- `malloc` has returned `ptr` and `h'`, and `free` of it gives the blocks back as they were.
pub record IsBorrowed (lo hi size ptr : ℕ) (cs : List Cell) (h' : Heap) : Type 0 where
  pub not_null : ptr ≢ 0
  pub given_back : IsHeap (free ptr h') lo hi cs
  pub fresh : IsFresh lo hi size ptr cs h'

abbrev pub Borrows : Heap → (lo hi size : ℕ) → List Cell → Option (ℕ × Heap) → Type 0
Borrows h lo hi size cs result =
    (NoneFits size cs × (result ≡ some (0, h)))
    ⊎ ((ptr : ℕ) × (h' : Heap) × (result ≡ some (ptr, h')) × IsBorrowed lo hi size ptr cs h')

abbrev value_of : Heap → Option (ℕ × Heap) → ℕ × Heap
value_of h none = (0, h)
value_of h (some x) = x

module _ (h : Heap) (lo hi size : ℕ) (cs : List Cell) where
  Borrows-both :
      (result : Option (ℕ × Heap))
      → MallocResult h lo hi size cs result
      → UndoneByFree lo hi size cs h result
      → Borrows h lo hi size cs result
  Borrows-both result (inl full) undone = inl full
  Borrows-both result (inr (ptr, h', e, fresh)) (inl (full, e')) = inl (full, e')
  Borrows-both result (inr (ptr, h', e, fresh)) (inr (ptr', h'', e', not_null, back)) =
      let same : (ptr', h'') ≡ (ptr, h') = ap (value_of h) (sym e' ∙ e) in
      inr (
        ptr,
        h',
        e,
        record {
          not_null = subst (λ x. x.0 ≢ 0) same not_null;
          given_back = subst (λ x. IsHeap (free x.0 x.1) lo hi cs) same back;
          fresh = fresh;
        },
      )

  pub malloc-Borrows :
      (fuel : ℕ)
      → IsHeap h lo hi cs
      → IsCoalesced cs
      → 0 < size
      → length cs < fuel
      → Borrows h lo hi size cs (malloc fuel size h)
  malloc-Borrows fuel is co pos enough =
      Borrows-both (malloc fuel size h) (malloc_lem fuel size h lo hi cs is pos enough)
        (free-malloc fuel size h lo hi cs is co pos enough)
