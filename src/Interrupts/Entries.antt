-- ===== src/Interrupts/Entries.antt =====
-- A table of entries that are written one after another.
use tartarus_hobby_os.Base.{
  ℕ, suc, ◌+◌, ◌≤◌, ◌<◌, ◌≡◌, ◌∙◌, ap, arith, ◌==◌, if◌then◌else◌, length, set, length-set, get_or,
  get_or-set_self, get_or-set_ne, for_range, for_range_inv, ==_iff, Bool-cases, inl, inr,
}
use tartarus_hobby_os.Interrupts.{IdtEntry, Table}

-- A table of 256 entries, whose entry at each vector below `k` leads to `g` of it.
pub record IsTable (entry_of : ℕ → IdtEntry) (g : ℕ → ℕ) (d : IdtEntry) (k : ℕ) (t : Table)
    : Type 0 where
  pub full : length t ≡ 256
  pub entry : (v : ℕ) → v < k → get_or t v d ≡ entry_of (g v)

module _ (entry_of : ℕ → IdtEntry) (g : ℕ → ℕ) (d : IdtEntry) where
  -- A write among the vectors that are known.
  pub IsTable-set :
      (t : Table) (i addr : ℕ)
      → i < 256
      → IsTable entry_of g d 256 t
      → IsTable entry_of (λ v. if v == i then addr else g v) d 256 (set t i (entry_of addr))
  IsTable-set t i addr h is = record {
    full = length-set t i (entry_of addr) ∙ is.full;
    entry = λ v hv. elim (Bool-cases (v == i)) [
      | inl same ↦
          let s : v ≡ i = (==_iff v i).0 same in
          rw (same, s) (get_or-set_self t i (entry_of addr) d (omega (arith, is.full)))
      | inr other ↦ rw other (get_or-set_ne t i v (entry_of addr) d (ground arith) ∙ is.entry v hv)
    ];
  }

  -- A write at the first vector that is not yet known.
  pub IsTable-suc :
      (k : ℕ) (t : Table) (addr : ℕ)
      → k < 256
      → addr ≡ g k
      → IsTable entry_of g d k t
      → IsTable entry_of g d (suc k) (set t k (entry_of addr))
  IsTable-suc k t addr h e is = record {
    full = length-set t k (entry_of addr) ∙ is.full;
    entry = λ v hv. elim (Bool-cases (v == k)) [
      | inl last ↦
          let s : v ≡ k = (==_iff v k).0 last in
          rw s (get_or-set_self t k (entry_of addr) d (omega (arith, is.full)) ∙ ap entry_of e)
      | inr old ↦ get_or-set_ne t k v (entry_of addr) d (ground arith) ∙ is.entry v (ground arith)
    ];
  }

  -- A loop that writes one address to the vectors from `i` to `j`.
  pub IsTable-range :
      (n i j addr : ℕ) (t : Table)
      → i + n ≡ j
      → j ≤ 256
      → ((v : ℕ) → i ≤ v → v < j → addr ≡ g v)
      → IsTable entry_of g d i t
      → IsTable entry_of g d j (for_range n i (λ k u. set u k (entry_of addr)) t)
  IsTable-range n i j addr t e small same is =
      for_range_inv (IsTable entry_of g d) (λ k u. set u k (entry_of addr)) n i j t e
        (λ k u lo hi h. IsTable-suc k u addr (omega arith) (same k lo hi) h) is
