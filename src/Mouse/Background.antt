-- ===== src/Mouse/Background.antt =====
-- The mouse cursor is drawn over the screen and taken off again.
use tartarus_hobby_os.Base.{
  ℕ, ◌<◌, ◌≡◌, refl, sym, subst, ap, fun_ext, ◌∙◌, ◌⊎◌, Bool, true, false, arith, ◌==◌,
  if◌then◌else◌, add32, ==_iff, Bool-cases, inl, inr, for_range, for_range_inv,
}
use tartarus_hobby_os.Display.{Screen, Pixels, index_of, plot}
use tartarus_hobby_os.Mouse.{
  Mouse, Background, put, visible, save_mouse_bg, restore_mouse_bg, draw_mouse_cursor, move_cursor,
  mouse_step,
}

-- A loop over the five rows and columns, with a round for each pixel.
grid {ℓ} : {S : Type ℓ} → (ℕ → ℕ → S → S) → S → S
grid body s = for_range 5 0 (λ i t. for_range 5 0 (λ j u. body i j u) t) s

-- What every pixel's round keeps, the loop keeps.
grid-keeps {ℓ κ} :
    {S : Type ℓ} (P : S → Type κ) (body : ℕ → ℕ → S → S) (s : S)
    → ((i j : ℕ) (t : S) → i < 5 → j < 5 → P t → P (body i j t))
    → P s
    → P (grid body s)
unfolding grid
grid-keeps P body s keep h =
    for_range_inv (λ i t. P t) _ 5 0 5 s (omega arith)
      (λ i t _ hi p.
        for_range_inv (λ j u. P u) _ 5 0 5 t (omega arith) (λ j u _ hj q. keep i j u hi hj q) p)
      h

-- What a pixel's round makes, and every other round keeps, holds of every pixel behind the loop.
grid-each {ℓ κ} :
    {S : Type ℓ} (R : ℕ → ℕ → S → Type κ) (body : ℕ → ℕ → S → S) (s : S)
    → ((i j : ℕ) (t : S) → i < 5 → j < 5 → R i j (body i j t))
    → ((i j k l : ℕ) (t : S) → k < 5 → l < 5 → R i j t → R i j (body k l t))
    → (i j : ℕ) → i < 5
    → j < 5
    → R i j (grid body s)
unfolding grid
grid-each R body s make keep =
    for_range_inv (λ n t. (i j : ℕ) → i < n → j < 5 → R i j t) _ 5 0 5 s (omega arith)
      (λ k t _ hk done.
        let row =
          for_range_inv (λ n u. ((i j : ℕ) → i < k → j < 5 → R i j u) × ((j : ℕ) → j < n → R k j u))
            (λ j u. body k j u) 5 0 5 t (omega arith)
            (λ l u _ hl h. (
              λ i j hi hj. keep i j k l u hk hl (h.0 i j hi hj),
              λ j hj. elim (Bool-cases (j == l)) [
                | inl last ↦
                    let e : j ≡ l = (==_iff j l).0 last in
                    subst (λ n. R k n (body k l u)) (sym e) (make k l u hk hl)
                | inr old ↦ keep k j k l u hk hl (h.1 j (ground arith))
              ],
            ))
            (done, λ j hj. absurd (omega arith)) in
        λ i j hi hj. elim (Bool-cases (i == k)) [
          | inl last ↦
              let e : i ≡ k = (==_iff i k).0 last in
              subst (λ n. R n j (for_range 5 0 (λ l u. body k l u) t)) (sym e) (row.1 j hj)
          | inr old ↦ row.0 i j (ground arith) hj
        ])
      (λ i j hi hj. absurd (omega arith))

module _ (m : Mouse) (s : Screen) where
  -- The pixel of the cursor at a row and a column of it, at the position that was saved.
  unfoldable pub spot : ℕ → ℕ → ℕ
  spot i j = index_of s.pitch (add32 m.prev_x j) (add32 m.prev_y i)

  unfoldable pub seen : ℕ → ℕ → Bool
  seen i j = visible s (add32 m.prev_x j) (add32 m.prev_y i)

  -- The background is that of `fb`.
  abbrev pub Saved : Pixels → Background → Type 0
  Saved fb bg = (i j : ℕ) → i < 5 → j < 5 → seen i j ≡ true → bg i j ≡ fb (spot i j)

  abbrev pub Covered : ℕ → Type 0
  Covered q = (i : ℕ) × (j : ℕ) × (i < 5) × (j < 5) × (seen i j ≡ true) × (q ≡ spot i j)

  save-Saved : (bg : Background) → Saved s.pixel (save_mouse_bg m s bg)
  unfolding save_mouse_bg grid spot seen put
  save-Saved bg =
      grid-each (λ i j b. seen i j ≡ true → b i j ≡ s.pixel (spot i j)) _ bg
        (λ i j b hi hj vis. ground arith) (λ i j k l b hk hl old vis. ground arith)

  -- A pixel differs from the clean screen only where the cursor covers it.
  abbrev pub Differs : Pixels → Pixels → Type 0
  Differs fb f = (q : ℕ) → (f q ≡ fb q) ⊎ Covered q

  spot-Differs :
      (fb f : Pixels) (i j color q : ℕ)
      → i < 5
      → j < 5
      → (f q ≡ fb q) ⊎ Covered q
      → ((if seen i j then plot (spot i j) color f else f) q ≡ fb q) ⊎ Covered q
  unfolding plot
  spot-Differs fb f i j color q hi hj h = elim (Bool-cases (seen i j)) [
    | inl vis ↦ elim (Bool-cases (q == spot i j)) [
      | inl hit ↦ inr (i, j, hi, hj, vis, (==_iff q (spot i j)).0 hit)
      | inr miss ↦ rw (vis, miss) h
    ]
    | inr hidden ↦ rw hidden h
  ]

  draw-Differs : m.x ≡ m.prev_x → m.y ≡ m.prev_y → Differs s.pixel (draw_mouse_cursor m s)
  unfolding draw_mouse_cursor grid spot seen
  draw-Differs ex ey =
      grid-keeps (Differs s.pixel) _ s.pixel
        (λ i j f hi hj h q. rw (ex, ey) (spot-Differs s.pixel f i j 0x00ff0000 q hi hj (h q)))
        (λ q. inl refl)

  -- The whole cursor is drawn, as far as it is on the screen.
  abbrev pub Drawn : Pixels → Type 0
  Drawn f = (i j : ℕ) → i < 5 → j < 5 → seen i j ≡ true → f (spot i j) ≡ 0x00ff0000

  drawn-keeps :
      (k l : ℕ) (f : Pixels) (q : ℕ)
      → f q ≡ 0x00ff0000
      → (if seen k l then plot (spot k l) 0x00ff0000 f else f) q ≡ 0x00ff0000
  unfolding plot
  drawn-keeps k l f q h = ground (arith, h)

  drawn-makes :
      (i j : ℕ) (f : Pixels)
      → seen i j ≡ true
      → (if seen i j then plot (spot i j) 0x00ff0000 f else f) (spot i j) ≡ 0x00ff0000
  unfolding plot
  drawn-makes i j f vis = ground arith

  draw-Drawn : m.x ≡ m.prev_x → m.y ≡ m.prev_y → Drawn (draw_mouse_cursor m s)
  unfolding draw_mouse_cursor grid spot seen
  draw-Drawn ex ey =
      grid-each (λ i j f. seen i j ≡ true → f (spot i j) ≡ 0x00ff0000) _ s.pixel
        (λ i j f hi hj vis. rw (ex, ey) (drawn-makes i j f vis))
        (λ i j k l f hk hl old vis. rw (ex, ey) (drawn-keeps k l f (spot i j) (old vis)))

  -- A round of the restoring loop puts the right pixel, and spoils none.
  restore-keeps :
      (fb : Pixels) (bg : Background)
      → Saved fb bg
      → (i j : ℕ) (g : Pixels) (q : ℕ) → i < 5
      → j < 5
      → g q ≡ fb q
      → (if seen i j then plot (spot i j) (bg i j) g else g) q ≡ fb q
  unfolding plot
  restore-keeps fb bg saved i j g q hi hj right = elim (Bool-cases (seen i j)) [
    | inl vis ↦ elim (Bool-cases (q == spot i j)) [
      | inl hit ↦ rw (vis, hit) (saved i j hi hj vis ∙ ap fb (sym ((==_iff q (spot i j)).0 hit)))
      | inr miss ↦ rw (vis, miss) right
    ]
    | inr hidden ↦ rw hidden right
  ]

  restore-makes :
      (fb : Pixels) (bg : Background)
      → Saved fb bg
      → (i j : ℕ) (g : Pixels) → i < 5
      → j < 5
      → seen i j ≡ true
      → (if seen i j then plot (spot i j) (bg i j) g else g) (spot i j) ≡ fb (spot i j)
  unfolding plot
  restore-makes fb bg saved i j g hi hj vis = ground (arith, saved i j hi hj vis)

  restore-clean :
      (fb f : Pixels) (bg : Background)
      → Saved fb bg
      → Differs fb f
      → (q : ℕ) → restore_mouse_bg m bg (record s { pixel = f }) q ≡ fb q
  restore-clean fb f bg saved differs q = elim (differs q) [
    | inl right ↦
        unfold restore_mouse_bg grid spot seen in
        grid-keeps (λ g. g q ≡ fb q) _ f
          (λ i j g hi hj h. restore-keeps fb bg saved i j g q hi hj h) right
    | inr (i, j, hi, hj, vis, e) ↦
        unfold restore_mouse_bg grid spot seen in
        subst (λ p. restore_mouse_bg m bg (record s { pixel = f }) p ≡ fb p) (sym e)
          (grid-each (λ k l g. seen k l ≡ true → g (spot k l) ≡ fb (spot k l)) _ f
            (λ k l g hk hl v. restore-makes fb bg saved k l g hk hl v)
            (λ k l k' l' g hk hl h v. restore-keeps fb bg saved k' l' g (spot k l) hk hl (h v)) i j
            hi hj vis)
  ]

-- The screen with the cursor on it, in red on all its pixels that are visible: the pixels without it
-- are `fb`, and the background is saved.
pub record IsOverlaid (fb : Pixels) (m : Mouse) (s : Screen) (bg : Background) : Type 0 where
  pub saved : Saved m s fb bg
  pub differs : Differs m s fb s.pixel
  pub drawn : Drawn m s s.pixel

-- Taking the cursor off gives back the pixels below it.
pub restore_mouse_bg_lem :
    (fb : Pixels) (m : Mouse) (s : Screen) (bg : Background)
    → IsOverlaid fb m s bg
    → restore_mouse_bg m bg s ≡ fb
restore_mouse_bg_lem fb m s bg is =
    fun_ext (λ q. restore-clean m s fb s.pixel bg is.saved is.differs q)

-- The background is saved, and the cursor drawn where it was saved.
pub overlay :
    (m : Mouse) (s : Screen) (bg : Background)
    → m.x ≡ m.prev_x
    → m.y ≡ m.prev_y
    → IsOverlaid s.pixel m (record s { pixel = draw_mouse_cursor m s }) (save_mouse_bg m s bg)
unfolding spot seen
overlay m s bg ex ey = record {
  saved = save-Saved m s bg;
  differs = draw-Differs m s ex ey;
  drawn = draw-Drawn m s ex ey;
}

move_cursor-IsOverlaid :
    (fb : Pixels) (m : Mouse) (s : Screen) (bg : Background)
    → IsOverlaid fb m s bg
    → let (m', s', bg') = move_cursor m s bg in IsOverlaid fb m' s' bg'
unfolding move_cursor spot seen
move_cursor-IsOverlaid fb m s bg is =
    let clean : Screen = record s { pixel = restore_mouse_bg m bg s } in
    let here : Mouse = record m { prev_x = m.x; prev_y = m.y } in
    let drawn : Screen = record clean { pixel = draw_mouse_cursor here clean } in
    let over : IsOverlaid fb here drawn (save_mouse_bg here clean bg) =
      subst (λ f. IsOverlaid f here drawn (save_mouse_bg here clean bg))
        (restore_mouse_bg_lem fb m s bg is) (overlay here clean bg refl refl) in
    record { saved = over.saved; differs = over.differs; drawn = over.drawn }

-- A round of the main loop draws the cursor at the position of the mouse, in red on each of its
-- pixels that is visible, clears the flag, and leaves the picture below the cursor as it was.
pub mouse_step-IsOverlaid :
    (fb : Pixels) (m : Mouse) (s : Screen) (bg : Background)
    → m.moved ≡ true
    → IsOverlaid fb m s bg
    → let (m', s', bg') = mouse_step (m, s, bg) in
      IsOverlaid fb m' s' bg' × (m'.prev_x ≡ m.x) × (m'.prev_y ≡ m.y) × (m'.moved ≡ false)
unfolding mouse_step
mouse_step-IsOverlaid fb m s bg moved is =
    let step : mouse_step (m, s, bg) ≡ move_cursor m s bg = rw moved in
    subst
      (λ r.
        IsOverlaid fb r.0 r.1 r.2 × (r.0.prev_x ≡ m.x) × (r.0.prev_y ≡ m.y) × (r.0.moved ≡ false))
      (sym step) (unfold move_cursor in (move_cursor-IsOverlaid fb m s bg is, refl, refl, refl))
