-- ===== src/Memory/Live.antt =====
-- What `alloc` does to the blocks in use: it hands out one that was free, and keeps the others.
use tartarus_hobby_os.Base.{
  ℕ, zero, suc, ◌+◌, ◌-◌, ◌≤◌, ◌<◌, ◌≡◌, ◌≢◌, refl, ◌⊎◌, inl, inr, true, false, Option, none, some,
  List, [], ◌∷◌, arith, ltb, Bool-cases, length, ltb→lt,
}
use tartarus_hobby_os.Memory.{sizeof_block}
use tartarus_hobby_os.Memory.Spec.{Cell, cell, carve, fits, alloc, address, extent}

-- Among the blocks `cs` from `lo` on, the one at `a` is `b`.
abbrev pub Holds : ℕ → List Cell → ℕ → Cell → Type 0
Holds lo [] a b = ⊥
Holds lo (c ∷ cs) a b = ((a ≡ lo) × (b ≡ c)) ⊎ Holds (lo + sizeof_block + c.size) cs a b

abbrev pub NoneFits : ℕ → List Cell → Type 0
NoneFits size [] = Unit
NoneFits size (c ∷ cs) = (fits size c ≡ false) × NoneFits size cs

pub Holds-ge : (lo : ℕ) (cs : List Cell) (a : ℕ) (b : Cell) → Holds lo cs a b → lo ≤ a
Holds-ge lo [] a b h = absurd h
Holds-ge lo (c ∷ cs) a b (inl e) = omega arith
Holds-ge lo (c ∷ cs) a b (inr h) = omega (arith, Holds-ge (lo + sizeof_block + c.size) cs a b h)

pub Holds-le :
    (lo : ℕ) (cs : List Cell) (a : ℕ) (b : Cell)
    → Holds lo cs a b
    → a + sizeof_block + b.size ≤ lo + extent cs
Holds-le lo [] a b h = absurd h
Holds-le lo (c ∷ cs) a b (inl e) = ground arith
Holds-le lo (c ∷ cs) a b (inr h) = omega (arith, Holds-le (lo + sizeof_block + c.size) cs a b h)

-- Two blocks at different addresses do not overlap.
pub Holds-disjoint :
    (lo : ℕ) (cs : List Cell) (a : ℕ) (b : Cell) (a' : ℕ) (b' : Cell)
    → Holds lo cs a b
    → Holds lo cs a' b'
    → a ≢ a'
    → (a + sizeof_block + b.size ≤ a') ⊎ (a' + sizeof_block + b'.size ≤ a)
Holds-disjoint lo [] a b a' b' h h' ne = absurd h
Holds-disjoint lo (c ∷ cs) a b a' b' (inl e) (inl e') ne = absurd (omega arith)
Holds-disjoint lo (c ∷ cs) a b a' b' (inl e) (inr h') ne =
    inl (ground (arith, Holds-ge (lo + sizeof_block + c.size) cs a' b' h'))
Holds-disjoint lo (c ∷ cs) a b a' b' (inr h) (inl e') ne =
    inr (ground (arith, Holds-ge (lo + sizeof_block + c.size) cs a b h))
Holds-disjoint lo (c ∷ cs) a b a' b' (inr h) (inr h') ne =
    Holds-disjoint (lo + sizeof_block + c.size) cs a b a' b' h h' ne

-- `alloc` has chosen the block at position `i`, and left `ds`.
pub record IsChosen (lo size : ℕ) (cs : List Cell) (i : ℕ) (ds : List Cell) : Type 0 where
  pub was : Cell
  pub was_there : Holds lo cs (address lo cs i) was
  pub was_free : was.is_free ≡ true
  pub was_enough : fits size was ≡ true
  pub now : Cell
  pub is_there : Holds lo ds (address lo cs i) now
  pub is_taken : now.is_free ≡ false
  pub enough : size ≤ now.size
  pub kept : (a : ℕ) (b : Cell) → Holds lo cs a b → b.is_free ≡ false → Holds lo ds a b
  pub same_extent : extent ds ≡ extent cs
  pub same_addresses : (j : ℕ) → j ≤ i → address lo ds j ≡ address lo cs j
  pub in_range : i < length ds
  pub first : (a : ℕ) (b : Cell) → Holds lo cs a b → a < address lo cs i → fits size b ≡ false

abbrev pub Choice : ℕ → ℕ → List Cell → Option (ℕ × List Cell) → Type 0
Choice lo size cs none = NoneFits size cs
Choice lo size cs (some (i, ds)) = IsChosen lo size cs i ds

module _ (lo size : ℕ) (c : Cell) (cs : List Cell) where
  IsChosen-split :
      fits size c ≡ true
      → size + sizeof_block + 16 < c.size
      → IsChosen lo size
          (c ∷ cs)
          0
          (cell size false ∷ cell (c.size - size - sizeof_block) true ∷ cs)
  IsChosen-split hit room =
      let ends : lo + sizeof_block + size + sizeof_block + (c.size - size - sizeof_block)
          ≡ lo + sizeof_block + c.size =
        omega arith in
      record {
        was = c;
        was_there = inl (refl, refl);
        was_free = ground arith;
        was_enough = hit;
        now = cell size false;
        is_there = inl (refl, refl);
        is_taken = refl;
        enough = omega arith;
        kept = kept ends;
        same_extent = omega arith;
        same_addresses = λ j h. same j h;
        in_range = omega arith;
        first = λ a b h before. absurd (omega (arith, before, Holds-ge lo (c ∷ cs) a b h));
      }
    where
      kept :
          lo + sizeof_block + size + sizeof_block + (c.size - size - sizeof_block)
            ≡ lo + sizeof_block + c.size
          → (a : ℕ) (b : Cell) → Holds lo (c ∷ cs) a b
          → b.is_free ≡ false
          → Holds lo (cell size false ∷ cell (c.size - size - sizeof_block) true ∷ cs) a b
      kept ends a b (inl e) taken = absurd (ground arith)
      kept ends a b (inr h) taken = inr (inr (rw ends h))

      same :
          (j : ℕ)
          → j ≤ 0
          → address lo (cell size false ∷ cell (c.size - size - sizeof_block) true ∷ cs) j
            ≡ address lo (c ∷ cs) j
      same zero h = refl
      same (suc j) h = absurd (omega arith)

  IsChosen-whole : fits size c ≡ true → IsChosen lo size (c ∷ cs) 0 (cell c.size false ∷ cs)
  IsChosen-whole hit = record {
    was = c;
    was_there = inl (refl, refl);
    was_free = ground arith;
    was_enough = hit;
    now = cell c.size false;
    is_there = inl (refl, refl);
    is_taken = refl;
    enough = ground arith;
    kept = kept;
    same_extent = refl;
    same_addresses = same;
    in_range = omega arith;
    first = λ a b h before. absurd (omega (arith, before, Holds-ge lo (c ∷ cs) a b h));
  }
    where
      kept :
          (a : ℕ) (b : Cell)
          → Holds lo (c ∷ cs) a b
          → b.is_free ≡ false
          → Holds lo (cell c.size false ∷ cs) a b
      kept a b (inl e) taken = absurd (ground arith)
      kept a b (inr h) taken = inr h

      same : (j : ℕ) → j ≤ 0 → address lo (cell c.size false ∷ cs) j ≡ address lo (c ∷ cs) j
      same zero h = refl
      same (suc j) h = absurd (omega arith)

  Choice-carve : fits size c ≡ true → IsChosen lo size (c ∷ cs) 0 (carve size c cs)
  unfolding carve
  Choice-carve hit = elim (Bool-cases (ltb (size + sizeof_block + 16) c.size)) [
    | inl room ↦ rw room (IsChosen-split hit (ltb→lt _ _ room))
    | inr full ↦ rw full (IsChosen-whole hit)
  ]

  Choice-cons :
      fits size c ≡ false
      → (found : Option (ℕ × List Cell)) → Choice (lo + sizeof_block + c.size) size cs found
      → Choice lo size (c ∷ cs) (elim found [ none ↦ none | some (i, ds) ↦ some (suc i, c ∷ ds) ])
  Choice-cons miss none r = (miss, r)
  Choice-cons miss (some (i, ds)) r = record {
    was = r.was;
    was_there = inr r.was_there;
    was_free = r.was_free;
    was_enough = r.was_enough;
    now = r.now;
    is_there = inr r.is_there;
    is_taken = r.is_taken;
    enough = r.enough;
    kept = kept;
    same_extent = omega (arith, r.same_extent);
    same_addresses = same;
    in_range = omega (arith, r.in_range);
    first = first;
  }
    where
      first :
          (a : ℕ) (b : Cell)
          → Holds lo (c ∷ cs) a b
          → a < address (lo + sizeof_block + c.size) cs i
          → fits size b ≡ false
      first a b (inl e) before = rw e.1 miss
      first a b (inr h) before = r.first a b h before

      kept : (a : ℕ) (b : Cell) → Holds lo (c ∷ cs) a b → b.is_free ≡ false → Holds lo (c ∷ ds) a b
      kept a b (inl e) taken = inl e
      kept a b (inr h) taken = inr (r.kept a b h taken)

      same : (j : ℕ) → j ≤ suc i → address lo (c ∷ ds) j ≡ address lo (c ∷ cs) j
      same zero h = refl
      same (suc j) h = r.same_addresses j (omega arith)

pub alloc-Choice : (lo size : ℕ) (cs : List Cell) → Choice lo size cs (alloc size cs)
unfolding alloc
alloc-Choice lo size [] = tt
alloc-Choice lo size (c ∷ cs) = elim (Bool-cases (fits size c)) [
  | inl hit ↦ rw hit (Choice-carve lo size c cs hit)
  | inr miss ↦ rw miss (
      Choice-cons lo size c cs miss (alloc size cs)
        (alloc-Choice (lo + sizeof_block + c.size) size cs))
]
