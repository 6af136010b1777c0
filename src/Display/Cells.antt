-- ===== src/Display/Cells.antt =====
-- The cells of the frame buffer by row and column, and what a write to one changes.
use tartarus_hobby_os.Base.{
  ℕ, ◌+◌, ◌*◌, ◌^◌, ◌≤◌, ◌<◌, ◌≡◌, ◌≢◌, ◌⊎◌, inl, inr, false, arith, ◌==◌, Bool-cases, ltb, ltb→lt,
  ltb_false→le, ==_iff,
}
use tartarus_hobby_os.Display.{Pixels, index_of, plot}

mul_step : (r r' p : ℕ) → r < r' → r * p + p ≤ r' * p
mul_step r r' p h = grind arith

apart_by_row : (r r' x x' p : ℕ) → x < p → x' < p → r ≢ r' → (r * p + x == r' * p + x') ≡ false
apart_by_row r r' x x' p hx hx' ne = elim (Bool-cases (ltb r r')) [
  | inl lt ↦ ground (arith, mul_step r r' p (ltb→lt r r' lt))
  | inr ge ↦ ground (arith, mul_step r' r p (omega (arith, ltb_false→le r r' ge)))
]

cells_apart :
    (r r' x x' p : ℕ) → x < p → x' < p → (r ≢ r') ⊎ (x ≢ x') → (r * p + x == r' * p + x') ≡ false
cells_apart r r' x x' p hx hx' ne = elim (Bool-cases (r == r')) [
  | inl same ↦ let e : r ≡ r' = (==_iff r r').0 same in rw e (ground arith)
  | inr other ↦ apart_by_row r r' x x' p hx hx' (ground arith)
]

-- In a screen of pitch `p`, the pixel of a row and a column.
abbrev pub pixel_at : ℕ → Pixels → ℕ → ℕ → ℕ
pixel_at p fb r x = fb (r * p + x)

module _ (p w n : ℕ) (row_fits : w ≤ p) (fits : n * p < 2 ^ 32) where
  pub index-eq : (x y : ℕ) → x < w → y < n → index_of p x y ≡ y * p + x
  index-eq x y hx hy = omega (arith, mul_step y n p hy)

  pub plot_self :
      (fb : Pixels) (x y v : ℕ) → x < w → y < n → pixel_at p (plot (index_of p x y) v fb) y x ≡ v
  unfolding plot
  plot_self fb x y v hx hy = rw (index-eq x y hx hy) (ground arith)

  pub plot_other :
      (fb : Pixels) (x y v x' y' : ℕ)
      → x < w
      → y < n
      → x' < p
      → (y' ≢ y) ⊎ (x' ≢ x)
      → pixel_at p (plot (index_of p x y) v fb) y' x' ≡ pixel_at p fb y' x'
  unfolding plot
  plot_other fb x y v x' y' hx hy hx' ne =
      rw (index-eq x y hx hy, cells_apart y' y x' x p hx' (omega arith) ne)
