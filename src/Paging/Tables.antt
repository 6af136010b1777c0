-- ===== src/Paging/Tables.antt =====
-- What the loops of `SetupPaging` leave in the tables.
use tartarus_hobby_os.Base.{
  ℕ, ◌+◌, ◌*◌, ◌^◌, ◌<◌, ◌≡◌, ◌≢◌, refl, ◌∙◌, ap, arith, ltb, ◌==◌, if◌then◌else◌, Bool-cases, inl,
  inr, bit_or, for_range, for_range_inv, ==_iff,
}
use tartarus_hobby_os.Paging.{
  Entries, PageTables, Addresses, pd_address, put, put_row, fill_row, setup_paging,
}

-- A loop that writes one entry in each round.
pub put_range :
    (g : ℕ → ℕ) (n : ℕ) (t : Entries) (j : ℕ)
    → for_range n 0 (λ i f. put i (g i) f) t j ≡ (if ltb j n then g j else t j)
unfolding put
put_range g n t =
    for_range_inv (λ k f. (j : ℕ) → f j ≡ (if ltb j k then g j else t j)) (λ i f. put i (g i) f) n 0
      n t (omega arith)
      (λ k f _ hk h j. elim (Bool-cases (j == k)) [
        | inl last ↦ let e : j ≡ k = (==_iff j k).0 last in rw e (ground arith)
        | inr old ↦ ground (arith, h j)
      ])
      (λ j. ground arith)

-- The entry of a page of two megabytes.
abbrev pub page_entry : ℕ → ℕ
page_entry physical = bit_or physical 0x83

-- Row `i` after `k` rounds, from the physical address `start`.
record RowFilled (i start : ℕ) (pd : ℕ → Entries) (k : ℕ) (s : (ℕ → Entries) × ℕ) : Type 0 where
  physical : s.1 ≡ start + k * 2 ^ 21
  entry : (j : ℕ) → j < k → s.0 i j ≡ page_entry (start + j * 2 ^ 21)
  others : (l j : ℕ) → l ≢ i → s.0 l j ≡ pd l j

fill_row-RowFilled :
    (i start : ℕ) (pd : ℕ → Entries)
    → start + 512 * 2 ^ 21 < 2 ^ 64
    → RowFilled i start pd 512 (fill_row i (pd, start))
unfolding fill_row put_row put
fill_row-RowFilled i start pd small =
    for_range_inv (RowFilled i start pd) _ 512 0 512 (pd, start) (omega arith)
      (λ k s _ hk h. record {
        physical = omega (arith, h.physical);
        entry = λ j hj. elim (Bool-cases (j == k)) [
          | inl last ↦ let e : j ≡ k = (==_iff j k).0 last in rw e (ground (arith, h.physical))
          | inr old ↦ ground (arith, h.entry j)
        ];
        others = λ l j ne. ground (arith, h.others l j);
      })
      (record {
        physical = omega arith;
        entry = λ j hj. absurd (omega arith);
        others = λ l j ne. refl;
      })

-- The rows below `k`.
record Mapped (k : ℕ) (s : (ℕ → Entries) × ℕ) : Type 0 where
  physical : s.1 ≡ k * 2 ^ 30
  entry : (i j : ℕ) → i < k → j < 512 → s.0 i j ≡ page_entry (i * 2 ^ 30 + j * 2 ^ 21)

rows-Mapped : (pd : ℕ → Entries) → Mapped 8 (for_range 8 0 fill_row (pd, 0))
rows-Mapped pd =
    for_range_inv Mapped fill_row 8 0 8 (pd, 0) (omega arith)
      (λ k s _ hk h.
        let row = fill_row-RowFilled k s.1 s.0 (omega (arith, h.physical)) in
        record {
          physical = omega (arith, row.physical, h.physical);
          entry = λ i j hi hj. elim (Bool-cases (i == k)) [
            | inl last ↦
                let e : i ≡ k = (==_iff i k).0 last in
                rw e (row.entry j hj ∙ ap (λ (p : ℕ). page_entry (p + j * 2 ^ 21)) h.physical)
            | inr old ↦ row.others i j (ground arith) ∙ h.entry i j (ground arith) hj
          ];
        })
      (record { physical = omega arith; entry = λ i j hi. absurd (omega arith) })

-- The three tables that the set-up leaves.
pub record IsSetUp (a : Addresses) (t : PageTables) : Type 0 where
  pub pml4 : (j : ℕ) → j < 512 → t.pml4 j ≡ (if j == 0 then bit_or a.pdpt 0x03 else 0)
  pub pdpt : (j : ℕ) → j < 512 → t.pdpt j ≡ (if ltb j 8 then bit_or (pd_address a j) 0x03 else 0)
  pub pd : (i j : ℕ) → i < 8 → j < 512 → t.pd i j ≡ page_entry (i * 2 ^ 30 + j * 2 ^ 21)

pub setup_paging-IsSetUp : (a : Addresses) (t : PageTables) → IsSetUp a (setup_paging a t)
unfolding setup_paging
setup_paging-IsSetUp a t = record {
  pml4 = λ j hj. unfold put in ground (arith, put_range (λ _. 0) 512 t.pml4 j);
  pdpt = λ j hj.
      put_range (λ i. bit_or (pd_address a i) 0x03) 8 (for_range 512 0 (λ i f. put i 0 f) t.pdpt) j
      ∙ ground (arith, put_range (λ _. 0) 512 t.pdpt j);
  pd = (rows-Mapped (for_range 8 0 (λ i f. for_range 512 0 (λ j g. put_row i j 0 g) f) t.pd)).entry;
}
