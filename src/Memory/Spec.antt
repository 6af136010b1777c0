-- ===== src/Memory/Spec.antt =====
-- What the heap promises, as operations on the sequence of its blocks in address order: their sizes
-- and marks. Addresses follow from the sizes, since a block starts where the one before it ends.
use tartarus_hobby_os.Base.{
  ℕ, zero, suc, ◌+◌, ◌-◌, Bool, true, false, ◌&&◌, Option, none, some, List, [], ◌∷◌, ltb, leb,
  if◌then◌else◌,
}
use tartarus_hobby_os.Memory.{sizeof_block}

pub record Cell : Type 0 where
  pub size : ℕ
  pub is_free : Bool

abbrev pub cell : ℕ → Bool → Cell
cell s f = record { size = s; is_free = f }

-- A free block that is given out: cut down to the request if enough is left over.
unfoldable pub carve : ℕ → Cell → List Cell → List Cell
carve size c cs =
    if ltb (size + sizeof_block + 16) c.size
    then cell size false ∷ cell (c.size - size - sizeof_block) true ∷ cs
    else cell c.size false ∷ cs

abbrev pub fits : ℕ → Cell → Bool
fits size c = c.is_free && leb size c.size

-- The first block that fits: its position, and the blocks after it has been given out.
unfoldable pub alloc : ℕ → List Cell → Option (ℕ × List Cell)
unfolding carve
alloc size [] = none
alloc size (c ∷ cs) =
    if fits size c
    then some (0, carve size c cs)
    else elim (alloc size cs) [ none ↦ none | some (i, ds) ↦ some (suc i, c ∷ ds) ]

-- A block is marked free, and takes in its right neighbour if that is free.
unfoldable pub join : Cell → List Cell → List Cell
join c [] = cell c.size true ∷ []
join c (d ∷ cs) =
    if d.is_free
    then cell (c.size + (sizeof_block + d.size)) true ∷ cs
    else cell c.size true ∷ d ∷ cs

unfoldable pub release : ℕ → List Cell → List Cell
unfolding join
release i [] = []
release zero (c ∷ cs) = join c cs
release (suc i) (c ∷ cs) = c ∷ release i cs

-- The header's address of the block at a position, when the first one is at `lo`.
abbrev pub address : ℕ → List Cell → ℕ → ℕ
address lo cs zero = lo
address lo [] (suc i) = lo
address lo (c ∷ cs) (suc i) = address (lo + sizeof_block + c.size) cs i

-- The bytes that the blocks and their headers fill.
abbrev pub extent : List Cell → ℕ
extent [] = 0
extent (c ∷ cs) = sizeof_block + c.size + extent cs
