-- ===== src/Memory.antt =====
-- src/memory.c, the heap: `InitHeap`, `malloc` and `free`. A block's header is one cell of the store,
-- at the header's address; the bytes between two headers are the payload, which these functions
-- neither read nor write.
pub mod Layout
pub mod Spec
pub mod Malloc
pub mod Free
pub mod Live
pub mod Laws
pub mod RoundTrip
pub mod Borrow
mod Examples
use tartarus_hobby_os.Base.{
  ℕ, zero, suc, Bool, true, false, ◌&&◌, not, Option, none, some, ltb, leb, ◌==◌, if◌then◌else◌,
  add64, sub64,
}

-- `MemoryBlock`; `next` is an address, and 0 is NULL.
pub record Block : Type 0 where
  pub size : ℕ
  pub is_free : Bool
  pub next : ℕ

-- sizeof(MemoryBlock): 8 bytes, 4 and 4 of padding, 8.
abbrev pub sizeof_block : ℕ
sizeof_block = 24

abbrev pub Store : Type 0
Store = ℕ → Block

-- The store and the global `heap_head`.
pub record Heap : Type 0 where
  pub head : ℕ
  pub store : Store

unfoldable pub write : Store → ℕ → Block → Store
write m p b a = if a == p then b else m a

abbrev pub set_size : ℕ → ℕ → Store → Store
set_size p v m = write m p (record { size = v; is_free = (m p).is_free; next = (m p).next })

abbrev pub set_is_free : ℕ → Bool → Store → Store
set_is_free p v m = write m p (record { size = (m p).size; is_free = v; next = (m p).next })

abbrev pub set_next : ℕ → ℕ → Store → Store
set_next p v m = write m p (record { size = (m p).size; is_free = (m p).is_free; next = v })

unfoldable pub init_heap : ℕ → ℕ → Heap → Heap
unfolding write
init_heap heap_start heap_size h =
    let m1 = set_size heap_start (sub64 heap_size sizeof_block) h.store in
    let m2 = set_is_free heap_start true m1 in
    record { head = heap_start; store = set_next heap_start 0 m2 }

-- The body of the branch of `malloc` that has found its block: the split, if what is left over is
-- more than a header and 16 bytes, and the mark.
unfoldable pub take_block : ℕ → ℕ → Store → Store
unfolding write
take_block current size m =
    if ltb (add64 (add64 size sizeof_block) 16) (m current).size
    then (let new_block = add64 (add64 current sizeof_block) size in
        let m1 = set_is_free new_block true m in
        let m2 = set_size new_block (sub64 (sub64 (m1 current).size size) sizeof_block) m1 in
        let m3 = set_next new_block (m2 current).next m2 in
        let m4 = set_size current size m3 in
        let m5 = set_next current new_block m4 in set_is_free current false m5)
    else set_is_free current false m

-- The `while` of `malloc` at `current`; `none` means that the fuel ran out.
unfoldable pub malloc_loop : ℕ → ℕ → ℕ → Store → Option (ℕ × Store)
malloc_loop zero size current m = none
malloc_loop (suc fuel) size current m =
    let rest = malloc_loop fuel size (m current).next m in
    if current == 0
    then some (0, m)
    else if (m current).is_free && leb size (m current).size
    then some (add64 current sizeof_block, take_block current size m)
    else rest

-- The result is the pointer, with 0 for NULL, and the heap.
unfoldable pub malloc : ℕ → ℕ → Heap → Option (ℕ × Heap)
unfolding malloc_loop
malloc fuel size h =
    if size == 0 then some (0, h) else elim (malloc_loop fuel size h.head h.store) [
      | none ↦ none
      | some (ptr, m) ↦ some (ptr, record { head = h.head; store = m })
    ]

-- `free` from the header on: the mark, and the merge with a free right neighbour.
unfoldable pub free_block : ℕ → Store → Store
unfolding write
free_block block m =
    let m1 = set_is_free block true m in
    if not ((m1 block).next == 0) && (m1 (m1 block).next).is_free
    then (let merged = add64 sizeof_block (m1 (m1 block).next).size in
        let m2 = set_size block (add64 (m1 block).size merged) m1 in
        set_next block (m2 (m2 block).next).next m2)
    else m1

unfoldable pub free : ℕ → Heap → Heap
free ptr h =
    if ptr == 0
    then h
    else record { head = h.head; store = free_block (sub64 ptr sizeof_block) h.store }
