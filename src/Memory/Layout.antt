-- ===== src/Memory/Layout.antt =====
-- The blocks that a store holds: a list in address order, without gap or overlap.
use tartarus_hobby_os.Base.{ℕ, ◌+◌, ◌≤◌, ◌<◌, ◌≡◌, ◌^◌, ◌⊎◌, List, [], ◌∷◌, arith}
use tartarus_hobby_os.Memory.{Store, Heap, sizeof_block}
use tartarus_hobby_os.Memory.Spec.{Cell, extent}

-- From `p` the `next` pointers lead through the blocks `cs`, which fill the bytes from `lo` to `hi`.
abbrev pub IsLaidOut : Store → ℕ → ℕ → ℕ → List Cell → Type 0
IsLaidOut m p lo hi [] = (p ≡ 0) × (lo ≡ hi)
IsLaidOut m p lo hi (c ∷ cs) =
    (p ≡ lo)
    × ((m p).size ≡ c.size)
    × ((m p).is_free ≡ c.is_free)
    × IsLaidOut m (m p).next (lo + sizeof_block + c.size) hi cs

-- The heap fills the bytes from `lo` to `hi`. They do not begin at NULL, and end far enough below
-- 2 ^ 64 for the sums of `malloc` not to wrap.
pub record IsHeap (h : Heap) (lo hi : ℕ) (cs : List Cell) : Type 0 where
  pub not_null : 0 < lo
  pub no_wrap : hi + 16 < 2 ^ 64
  pub blocks : IsLaidOut h.store h.head lo hi cs

-- The two stores differ at most in headers at addresses from `a` up to, not including, `b`.
abbrev pub SameOutside : ℕ → ℕ → Store → Store → Type 0
SameOutside a b m m' = (q : ℕ) → (q < a) ⊎ (b ≤ q) → m' q ≡ m q

pub hi-extent :
    (m : Store) (p lo hi : ℕ) (cs : List Cell) → IsLaidOut m p lo hi cs → lo + extent cs ≡ hi
hi-extent m p lo hi [] w = omega arith
hi-extent m p lo hi (c ∷ cs) (e, s, f, w) =
    omega (arith, hi-extent m (m p).next (lo + sizeof_block + c.size) hi cs w)

-- A layout survives any change below it.
pub frame :
    (m m' : Store) (p lo hi : ℕ) (cs : List Cell)
    → IsLaidOut m p lo hi cs
    → ((q : ℕ) → lo ≤ q → m' q ≡ m q)
    → IsLaidOut m' p lo hi cs
frame m m' p lo hi [] w same = w
frame m m' p lo hi (c ∷ cs) (e, s, f, w) same =
    let here : m' p ≡ m p = same p (omega arith) in
    let below : IsLaidOut m' (m p).next (lo + sizeof_block + c.size) hi cs =
      frame m m' (m p).next (lo + sizeof_block + c.size) hi cs w (λ q h. same q (omega arith)) in
    rw here (e, s, f, below)
