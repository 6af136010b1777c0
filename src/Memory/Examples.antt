-- ===== src/Memory/Examples.antt =====
-- Runs of the heap, and its theorems at concrete heaps.
use tartarus_hobby_os.Base.{
  ℕ, ◌≡◌, refl, true, false, Option, none, some, List, [], ◌∷◌, arith, ◌==◌, if◌then◌else◌,
}
use tartarus_hobby_os.Memory.{Heap, write, take_block, malloc_loop, malloc, free_block, free}
use tartarus_hobby_os.Memory.Spec.{Cell, cell, alloc, release}
use tartarus_hobby_os.Memory.Layout.{IsHeap, SameOutside}
use tartarus_hobby_os.Memory.Malloc.{Allocated, malloc-alloc}
use tartarus_hobby_os.Memory.Free.{free-release}
use tartarus_hobby_os.Memory.Laws.{MallocResult, malloc_lem}
use tartarus_hobby_os.Memory.RoundTrip.{UndoneByFree, free-malloc, IsReleased, free_lem}

abbrev nowhere : Heap
nowhere = record { head = 0; store = λ _. record { size = 0; is_free = false; next = 0 } }

-- Two blocks: one of 100 bytes in use, and one of 3000 bytes that is free.
abbrev two : Heap
two = record {
  head = 0x1000;
  store = λ a.
      if a == 0x1000
      then record { size = 100; is_free = false; next = 4220 }
      else record { size = 3000; is_free = true; next = 0 };
}

abbrev two_cells : List Cell
two_cells = cell 100 false ∷ cell 3000 true ∷ []

two-IsHeap : IsHeap two 0x1000 7244 two_cells
two-IsHeap = record { not_null = omega arith; no_wrap = omega arith; blocks = ground arith }

-- The pointer of a request, with 0 for NULL and for a run out of fuel.
pointer : Option (ℕ × Heap) → ℕ
pointer none = 0
pointer (some (ptr, h)) = ptr

malloc_splits : pointer (malloc 3 200 two) ≡ 4244
unfolding pointer malloc malloc_loop take_block write
malloc_splits = refl

malloc_too_large : pointer (malloc 3 3001 two) ≡ 0
unfolding pointer malloc malloc_loop take_block write
malloc_too_large = refl

free_merges : ((free 4120 two).store 0x1000).size ≡ 3124
unfolding free free_block write
free_merges = refl

malloc-alloc_example : Allocated two 0x1000 7244 two_cells (malloc 3 200 two) (alloc 200 two_cells)
malloc-alloc_example =
    malloc-alloc 3 200 two 0x1000 7244 two_cells two-IsHeap (omega arith) (omega arith)

malloc_lem_example : MallocResult two 0x1000 7244 200 two_cells (malloc 3 200 two)
malloc_lem_example =
    malloc_lem 3 200 two 0x1000 7244 two_cells two-IsHeap (omega arith) (omega arith)

free-malloc_example : UndoneByFree 0x1000 7244 200 two_cells two (malloc 3 200 two)
free-malloc_example =
    free-malloc 3 200 two 0x1000 7244 two_cells two-IsHeap (ground arith) (omega arith)
      (omega arith)

free-release_example :
    IsHeap (free 4120 two) 0x1000 7244 (release 0 two_cells)
    × SameOutside 0x1000 0x1001 two.store (free 4120 two).store
free-release_example = free-release two 0x1000 7244 two_cells 0 two-IsHeap (omega arith)

free_lem_example :
    (ds : List Cell) × IsHeap (free 4120 two) 0x1000 7244 ds × IsReleased 0x1000 0 two_cells ds
free_lem_example = free_lem two 0x1000 7244 two_cells 0 two-IsHeap (omega arith)
