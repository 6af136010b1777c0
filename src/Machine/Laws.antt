-- ===== src/Machine/Laws.antt =====
-- One action after another.
use tartarus_hobby_os.Base.{ℕ, ◌≡◌, ap, Option, none, some}
use tartarus_hobby_os.Memory.{Heap, malloc}
use tartarus_hobby_os.Machine.{Machine, M, ◌>>=◌, alloc}

abbrev after {ℓ} :
    {D : Type ℓ} {A B : Type 0} (g : A → M D B) → Option (A × Machine D) → Option (B × Machine D)
after g none = none
after g (some (a, m)) = g a m

pub bind-some {ℓ} :
    {D : Type ℓ} {A B : Type 0} (f : M D A) (g : A → M D B) (m : Machine D) (a : A) (m' : Machine D)
    → f m ≡ some (a, m')
    → (f >>= g) m ≡ g a m'
bind-some f g m a m' e = ap (after g) e

pub bind-none {ℓ} :
    {D : Type ℓ} {A B : Type 0} (f : M D A) (g : A → M D B) (m : Machine D)
    → f m ≡ none
    → (f >>= g) m ≡ none
bind-none f g m e = ap (after g) e

module _ {ℓ} {D : Type ℓ} (m : Machine D) where
  abbrev with_heap : Option (ℕ × Heap) → Option (ℕ × Machine D)
  with_heap none = none
  with_heap (some (ptr, h)) = some (ptr, record m { heap = h })

  pub alloc-some :
      (fuel size ptr : ℕ) (h' : Heap)
      → malloc fuel size m.heap ≡ some (ptr, h')
      → alloc fuel size m ≡ some (ptr, record m { heap = h' })
  unfolding alloc
  alloc-some fuel size ptr h' e = ap with_heap e
