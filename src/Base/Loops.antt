-- ===== src/Base/Loops.antt =====
-- `for (k = i; k < i + n; k++) s = body k s`: recursion on the rounds that are left.
use Prim.Native.Nat.{ℕ, zero, suc, ◌+◌, ◌≤◌, ◌<◌}
use mathlib.Core.Path.{◌≡◌, subst}
use native.Mathlib.Omega.{arith}

unfoldable pub for_range {ℓ} : {S : Type ℓ} → ℕ → ℕ → (ℕ → S → S) → S → S
for_range zero i body s = s
for_range (suc n) i body s = for_range n (suc i) body (body i s)

-- What holds before the loop, and is kept by every round of it, holds behind it.
pub for_range_inv {ℓ κ} :
    {S : Type ℓ} (P : ℕ → S → Type κ) (body : ℕ → S → S) (n i j : ℕ) (s : S)
    → i + n ≡ j
    → ((k : ℕ) (t : S) → i ≤ k → k < j → P k t → P (suc k) (body k t))
    → P i s
    → P j (for_range n i body s)
unfolding for_range
for_range_inv P body zero i j s e keep h = let end : i ≡ j = omega arith in subst (λ k. P k s) end h
for_range_inv P body (suc n) i j s e keep h =
    for_range_inv P body n (suc i) j (body i s) (omega arith)
      (λ k t lo hi. keep k t (omega arith) hi) (keep i s (omega arith) (omega arith) h)
