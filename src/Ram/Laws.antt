-- ===== src/Ram/Laws.antt =====
-- What is read back after a write, and what a write leaves alone.
use tartarus_hobby_os.Base.{
  ℕ, ap, Bool-cases, inl, inr, true, ==_iff, ◌+◌, ◌-◌, ◌*◌, ◌/◌, ◌%◌, ◌^◌, ◌≤◌, ◌<◌, ◌≡◌, ◌≢◌, ◌⊎◌,
  arith, ltb, leb, ◌==◌, ◌&&◌,
}
use tartarus_hobby_os.Ram.{
  Ram, store8, store16, store32, store64, load16, load32, load64, put_words,
}

pub store8-same : (a v q : ℕ) (ram : Ram) → q ≢ a → store8 a v ram q ≡ ram q
unfolding store8
store8-same a v q ram h = ground arith

pub store16-same : (a v q : ℕ) (ram : Ram) → (q < a) ⊎ (a + 2 ≤ q) → store16 a v ram q ≡ ram q
unfolding store16
store16-same a v q ram h = ground arith

pub store32-same : (a v q : ℕ) (ram : Ram) → (q < a) ⊎ (a + 4 ≤ q) → store32 a v ram q ≡ ram q
unfolding store32
store32-same a v q ram h = ground arith

pub store64-same : (a v q : ℕ) (ram : Ram) → (q < a) ⊎ (a + 8 ≤ q) → store64 a v ram q ≡ ram q
unfolding store64
store64-same a v q ram h = ground arith

pub load16-store16 : (a v : ℕ) (ram : Ram) → load16 (store16 a v ram) a ≡ v % 2 ^ 16
unfolding store16
load16-store16 a v ram = ground arith

pub load32-store32 : (a v : ℕ) (ram : Ram) → load32 (store32 a v ram) a ≡ v % 2 ^ 32
unfolding store32
load32-store32 a v ram = ground arith

pub load32-store32_other :
    (a b v : ℕ) (ram : Ram) → (b + 4 ≤ a) ⊎ (a + 4 ≤ b) → load32 (store32 b v ram) a ≡ load32 ram a
unfolding store32
load32-store32_other a b v ram h = ground arith

pub load64-store64 : (a v : ℕ) (ram : Ram) → load64 (store64 a v ram) a ≡ v % 2 ^ 64
unfolding store64
load64-store64 a v ram =
    let low = store32 a v ram in
    omega (
      arith,
      load32-store32_other a (a + 4) (v / 2 ^ 32) low (inr (omega arith)),
      load32-store32 a v ram,
      load32-store32 (a + 4) (v / 2 ^ 32) low,
    )

pub load64-store64_other :
    (a b v : ℕ) (ram : Ram) → (b + 8 ≤ a) ⊎ (a + 8 ≤ b) → load64 (store64 b v ram) a ≡ load64 ram a
load64-store64_other a b v ram h =
    let same : (k q : ℕ) → k < 8 → q ≡ a + k → store64 b v ram q ≡ ram q =
      λ k q below e. store64-same b v q ram (omega (arith, h)) in
    omega (
      arith,
      same 0 a (omega arith) (omega arith),
      same 1 (a + 1) (omega arith) (omega arith),
      same 2 (a + 2) (omega arith) (omega arith),
      same 3 (a + 2 + 1) (omega arith) (omega arith),
      same 4 (a + 4) (omega arith) (omega arith),
      same 5 (a + 4 + 1) (omega arith) (omega arith),
      same 6 (a + 4 + 2) (omega arith) (omega arith),
      same 7 (a + 4 + 2 + 1) (omega arith) (omega arith),
    )

pub put_words-same :
    (p n : ℕ) (word : ℕ → ℕ) (ram : Ram) (q : ℕ)
    → (q < p) ⊎ (p + 2 * n ≤ q)
    → put_words p n word ram q ≡ ram q
unfolding put_words
put_words-same p n word ram q h = ground arith

-- Words that are made of bytes give these bytes.
pub put_words-bytes :
    (p n : ℕ) (word : ℕ → ℕ) (ram : Ram) (byte : ℕ → ℕ) (j : ℕ)
    → j < 2 * n
    → word (j / 2) ≡ byte (j / 2 * 2) + byte (j / 2 * 2 + 1) * 2 ^ 8
    → byte (j / 2 * 2) < 2 ^ 8
    → byte (j / 2 * 2 + 1) < 2 ^ 8
    → put_words p n word ram (p + j) ≡ byte j
unfolding put_words
put_words-bytes p n word ram byte j h e lo hi =
    let start : p + j - p ≡ j = omega arith in
    let inside : (leb p (p + j) && ltb (p + j) (p + 2 * n)) ≡ true = ground arith in
    elim (Bool-cases (j / 2 * 2 == j)) [
      | inl even ↦
          let at_j : j / 2 * 2 ≡ j = (==_iff (j / 2 * 2) j).0 even in
          rw (start, inside, even, e) (omega (arith, ap byte at_j))
      | inr odd ↦
          let at_j : j / 2 * 2 + 1 ≡ j = ground arith in
          rw (start, inside, odd, e) (omega (arith, ap byte at_j))
    ]
