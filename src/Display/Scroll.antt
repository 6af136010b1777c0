-- ===== src/Display/Scroll.antt =====
-- `ScrollScreen` moves the visible pixels up by eight rows and blanks the last eight.
use tartarus_hobby_os.Base.{
  ℕ, suc, ◌+◌, ◌-◌, ◌*◌, ◌^◌, ◌≤◌, ◌<◌, ◌≡◌, ◌≢◌, refl, subst, ◌∙◌, ◌⊎◌, inl, inr, arith, ◌==◌,
  if◌then◌else◌, sub32, for_range, for_range_inv, Bool-cases, ltb, ltb→lt, ==_iff,
}
use tartarus_hobby_os.Display.{Screen, Pixels, index_of, plot, scroll_row, blank_row, scroll_screen}
use tartarus_hobby_os.Display.Cells.{pixel_at, index-eq, plot_self, plot_other}

-- The frame buffer fits 32-bit indices, and a row fits its pitch.
pub record IsSound (s : Screen) : Type 0 where
  pub row_fits : s.width ≤ s.pitch
  pub fits : s.height * s.pitch < 2 ^ 32
  pub height_fits : s.height < 2 ^ 32
  pub has_rows : 8 ≤ s.height

module _ (p w n : ℕ) (row_fits : w ≤ p) (fits : n * p < 2 ^ 32) where
  -- Row `r` after `k` rounds of the copying loop.
  record RowCopied (fb : Pixels) (r k : ℕ) (f : Pixels) : Type 0 where
    copied : (x : ℕ) → x < k → pixel_at p f r x ≡ pixel_at p fb (r + 8) x
    others : (r' x : ℕ) → x < p → (r' ≢ r) ⊎ (k ≤ x) → pixel_at p f r' x ≡ pixel_at p fb r' x

  RowCopied-suc :
      (fb f : Pixels) (r k v : ℕ)
      → k < w
      → r < n
      → v ≡ pixel_at p fb (r + 8) k
      → RowCopied fb r k f
      → RowCopied fb r (suc k) (plot (index_of p k r) v f)
  RowCopied-suc fb f r k v hk hr e c = record { copied = copied; others = others }
    where
      copied :
          (x : ℕ) → x < suc k → pixel_at p (plot (index_of p k r) v f) r x ≡ pixel_at p fb (r + 8) x
      copied x hx = elim (Bool-cases (x == k)) [
        | inl last ↦
            let same : x ≡ k = (==_iff x k).0 last in
            rw same (plot_self p w n row_fits fits f k r v hk hr ∙ e)
        | inr old ↦
            plot_other p w n row_fits fits f k r v x r hk hr (omega arith) (inr (ground arith))
            ∙ c.copied x (ground arith)
      ]

      others :
          (r' x : ℕ)
          → x < p
          → (r' ≢ r) ⊎ (suc k ≤ x)
          → pixel_at p (plot (index_of p k r) v f) r' x ≡ pixel_at p fb r' x
      others r' x hx ne =
          plot_other p w n row_fits fits f k r v x r' hk hr hx (ground arith)
          ∙ c.others r' x hx (ground arith)

  scroll_row-RowCopied :
      (fb : Pixels) (r : ℕ) → n < 2 ^ 32 → r + 8 < n → RowCopied fb r w (scroll_row p w (r + 8) fb)
  unfolding scroll_row
  scroll_row-RowCopied fb r small hr =
      for_range_inv (RowCopied fb r) _ w 0 w fb (omega arith) keep
        (record { copied = λ x h. absurd (omega arith); others = λ r' x h ne. refl })
    where
      keep :
          (k : ℕ) (f : Pixels)
          → 0 ≤ k
          → k < w
          → RowCopied fb r k f
          → RowCopied fb r
              (suc k)
              (plot (index_of p k (sub32 (r + 8) 8)) (f (index_of p k (r + 8))) f)
      keep k f lo hk c =
          let up : sub32 (r + 8) 8 ≡ r = omega arith in
          let read : f (index_of p k (r + 8)) ≡ pixel_at p fb (r + 8) k =
            rw (index-eq p w n row_fits fits k (r + 8) hk hr)
              (c.others (r + 8) k (omega arith) (inl (omega arith))) in
          rw up (RowCopied-suc fb f r k (f (index_of p k (r + 8))) hk (omega arith) read c)

  -- The rows above `y` have come from eight rows further down.
  record Moved (fb : Pixels) (y : ℕ) (f : Pixels) : Type 0 where
    moved : (r x : ℕ) → r + 8 < y → x < w → pixel_at p f r x ≡ pixel_at p fb (r + 8) x
    below : (r x : ℕ) → y ≤ r + 8 → x < p → pixel_at p f r x ≡ pixel_at p fb r x

  Moved-suc :
      (fb f : Pixels) (r : ℕ)
      → r + 8 < n
      → Moved fb (r + 8) f
      → (g : Pixels) → RowCopied f r w g
      → Moved fb (suc (r + 8)) g
  Moved-suc fb f r hr m g c = record { moved = moved; below = below }
    where
      moved :
          (r' x : ℕ) → r' + 8 < suc (r + 8) → x < w → pixel_at p g r' x ≡ pixel_at p fb (r' + 8) x
      moved r' x h hx = elim (Bool-cases (r' == r)) [
        | inl last ↦
            let same : r' ≡ r = (==_iff r' r).0 last in
            rw same (c.copied x hx ∙ m.below (r + 8) x (omega arith) (omega arith))
        | inr old ↦
            c.others r' x (omega arith) (inl (ground arith)) ∙ m.moved r' x (ground arith) hx
      ]

      below : (r' x : ℕ) → suc (r + 8) ≤ r' + 8 → x < p → pixel_at p g r' x ≡ pixel_at p fb r' x
      below r' x h hx = c.others r' x hx (inl (omega arith)) ∙ m.below r' x (omega arith) hx

  rows-Moved :
      (fb : Pixels) → n < 2 ^ 32 → 8 ≤ n → Moved fb n (for_range (n - 8) 8 (scroll_row p w) fb)
  rows-Moved fb small enough =
      for_range_inv (Moved fb) (scroll_row p w) (n - 8) 8 n fb (omega arith) keep
        (record { moved = λ r x h hx. absurd (omega arith); below = λ r x h hx. refl })
    where
      keep :
          (y : ℕ) (f : Pixels)
          → 8 ≤ y
          → y < n
          → Moved fb y f
          → Moved fb (suc y) (scroll_row p w y f)
      keep y f lo hi m =
          let e : y - 8 + 8 ≡ y = omega arith in
          subst (λ z. Moved fb (suc z) (scroll_row p w z f)) e
            (Moved-suc fb f (y - 8) (omega arith) (rw e m) _
              (scroll_row-RowCopied f (y - 8) small (omega arith)))

  record RowBlank (fb : Pixels) (r k : ℕ) (f : Pixels) : Type 0 where
    blank : (x : ℕ) → x < k → pixel_at p f r x ≡ 0
    others : (r' x : ℕ) → x < p → (r' ≢ r) ⊎ (k ≤ x) → pixel_at p f r' x ≡ pixel_at p fb r' x

  blank_row-RowBlank : (fb : Pixels) (r : ℕ) → r < n → RowBlank fb r w (blank_row p w r fb)
  unfolding blank_row
  blank_row-RowBlank fb r hr =
      for_range_inv (RowBlank fb r) _ w 0 w fb (omega arith) keep
        (record { blank = λ x h. absurd (omega arith); others = λ r' x h ne. refl })
    where
      keep :
          (k : ℕ) (f : Pixels)
          → 0 ≤ k
          → k < w
          → RowBlank fb r k f
          → RowBlank fb r (suc k) (plot (index_of p k r) 0 f)
      keep k f lo hk c = record {
        blank = λ x hx. elim (Bool-cases (x == k)) [
          | inl last ↦
              let same : x ≡ k = (==_iff x k).0 last in
              rw same (plot_self p w n row_fits fits f k r 0 hk hr)
          | inr old ↦
              plot_other p w n row_fits fits f k r 0 x r hk hr (omega arith) (inr (ground arith))
              ∙ c.blank x (ground arith)
        ];
        others = λ r' x hx ne.
            plot_other p w n row_fits fits f k r 0 x r' hk hr hx (ground arith)
            ∙ c.others r' x hx (ground arith);
      }

  record Blanked (first : ℕ) (fb : Pixels) (y : ℕ) (f : Pixels) : Type 0 where
    blank : (r x : ℕ) → first ≤ r → r < y → x < w → pixel_at p f r x ≡ 0
    others : (r x : ℕ) → (r < first) ⊎ (y ≤ r) → x < p → pixel_at p f r x ≡ pixel_at p fb r x

  rows-Blanked :
      (first : ℕ) (fb : Pixels)
      → first ≤ n
      → Blanked first fb n (for_range (n - first) first (blank_row p w) fb)
  rows-Blanked first fb h =
      for_range_inv (Blanked first fb) (blank_row p w) (n - first) first n fb (omega arith) keep
        (record { blank = λ r x lo hi. absurd (omega arith); others = λ r x ne hx. refl })
    where
      keep :
          (y : ℕ) (f : Pixels)
          → first ≤ y
          → y < n
          → Blanked first fb y f
          → Blanked first fb (suc y) (blank_row p w y f)
      keep y f lo hi b =
          let row = blank_row-RowBlank f y hi in
          record {
            blank = λ r x low high hx. elim (Bool-cases (r == y)) [
              | inl last ↦ let same : r ≡ y = (==_iff r y).0 last in rw same (row.blank x hx)
              | inr old ↦
                  row.others r x (omega arith) (inl (ground arith))
                  ∙ b.blank r x low (ground arith) hx
            ];
            others =
                λ r x ne hx. row.others r x hx (inl (omega arith)) ∙ b.others r x (omega arith) hx;
          }

-- On a sound screen, `ScrollScreen` moves every visible pixel up by eight rows and makes the last
-- eight rows black.
pub scroll_screen_lem :
    (s : Screen) (r x : ℕ)
    → IsSound s
    → r < s.height
    → x < s.width
    → pixel_at s.pitch (scroll_screen s).pixel r x
      ≡ (if ltb (r + 8) s.height then pixel_at s.pitch s.pixel (r + 8) x else 0)
unfolding scroll_screen
scroll_screen_lem s r x ok hr hx =
    let first : sub32 s.height 8 ≡ s.height - 8 = omega (arith, ok.has_rows, ok.height_fits) in
    let moved = for_range (s.height - 8) 8 (scroll_row s.pitch s.width) s.pixel in
    let m =
      rows-Moved s.pitch s.width s.height ok.row_fits ok.fits s.pixel ok.height_fits ok.has_rows in
    let b =
      rows-Blanked s.pitch s.width s.height ok.row_fits ok.fits (s.height - 8) moved
        (omega arith) in
    elim (Bool-cases (ltb (r + 8) s.height)) [
      | inl upper ↦
          rw (first, upper)
            (b.others r x (inl (ground arith)) (omega (arith, ok.row_fits))
              ∙ m.moved r x (ltb→lt _ _ upper) hx)
      | inr lower ↦ rw (first, lower) (b.blank r x (ground arith) hr hx)
    ]
