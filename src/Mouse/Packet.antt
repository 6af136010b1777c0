-- ===== src/Mouse/Packet.antt =====
-- The packets of the mouse, and the bounds of its position.
use tartarus_hobby_os.Base.{
  ℕ, ◌-◌, ◌+◌, ◌≤◌, ◌<◌, ◌≡◌, ◌^◌, refl, ◌∙◌, Bool, true, false, ◌||◌, not, [], ◌∷◌, arith, ltb,
  leb, ◌==◌, if◌then◌else◌, add32, sub32, is_neg32, length, length-set, Bool-cases, inl, inr,
  bit_and, get_or, set,
}
use Prim.Native.Nat.{min}
use tartarus_hobby_os.Mouse.{Mouse, sign_extend, clamp, packet, mouse_handler}

-- The next byte has a place in the packet.
pub record IsReady (m : Mouse) : Type 0 where
  pub cycle : m.cycle < 3
  pub bytes : length m.bytes ≡ 3

abbrev pub InBounds : ℕ → ℕ → Mouse → Type 0
InBounds width height m = (m.x + 5 ≤ width) × (m.y + 5 ≤ height)

clamp-InBounds :
    (width height : ℕ) (m : Mouse)
    → 5 ≤ width
    → 5 ≤ height
    → width < 2 ^ 30
    → height < 2 ^ 30
    → m.x < 2 ^ 32
    → m.y < 2 ^ 32
    → InBounds width height (clamp width height m)
unfolding clamp
clamp-InBounds width height m w h ws hs x y = ground arith

-- The screen has room for the cursor of five by five pixels.
pub record HasRoom (width height : ℕ) : Type 0 where
  pub wide : 5 ≤ width
  pub tall : 5 ≤ height
  pub width_small : width < 2 ^ 30
  pub height_small : height < 2 ^ 30

abbrev overflows : Mouse → Bool
overflows m =
    not (bit_and (get_or m.bytes 0 0) 0x80 == 0) || not (bit_and (get_or m.bytes 0 0) 0x40 == 0)

clamp-same :
    (width height : ℕ) (m : Mouse)
    → ((clamp width height m).cycle ≡ m.cycle) × ((clamp width height m).bytes ≡ m.bytes)
unfolding clamp
clamp-same width height m = ground arith

packet-keeps :
    (width height : ℕ) (m : Mouse)
    → HasRoom width height
    → IsReady m
    → InBounds width height m
    → IsReady (packet width height m) × InBounds width height (packet width height m)
unfolding packet
packet-keeps width height m room ready inside = elim (Bool-cases (overflows m)) [
  | inl bad ↦ rw bad (ready, inside)
  | inr good ↦
      let dx = sign_extend (get_or m.bytes 1 0) in
      let dy = sign_extend (get_or m.bytes 2 0) in
      let moved : Mouse = record m { x = add32 m.x dx; y = sub32 m.y dy } in
      let bounds =
        clamp-InBounds width height moved room.wide room.tall room.width_small room.height_small
          (omega arith) (omega arith) in
      let same = clamp-same width height moved in
      rw good (record { cycle = rw same.0 ready.cycle; bytes = rw same.1 ready.bytes }, bounds)
]

-- Whatever the status and the byte that is read, the handler keeps its place in the packet and
-- the position of the cursor on the screen.
pub mouse_handler-keeps :
    (width height status value : ℕ) (m : Mouse)
    → HasRoom width height
    → IsReady m
    → InBounds width height m
    → IsReady (mouse_handler width height status value m).0
      × InBounds width height (mouse_handler width height status value m).0
unfolding mouse_handler
mouse_handler-keeps width height status value m room ready inside =
    elim (Bool-cases (bit_and status 0x20 == 0)) [
      | inl other ↦ rw other (ready, inside)
      | inr ours ↦ elim (Bool-cases (m.cycle + 1 == 3)) [
        | inl last ↦
            rw (ours, last)
              (packet-keeps width height (record m { bytes = set m.bytes m.cycle value; cycle = 0 })
                room
                (record {
                  cycle = omega arith;
                  bytes = length-set m.bytes m.cycle value ∙ ready.bytes;
                })
                inside)
        | inr more ↦
            rw (ours, more)
              (
                record {
                  cycle = ground (arith, ready.cycle);
                  bytes = length-set m.bytes m.cycle value ∙ ready.bytes;
                },
                inside,
              )
      ]
    ]

-- A coordinate after a move by the byte `b`, read as signed, cut off at 0 and at `most`.
abbrev pub forward : ℕ → ℕ → ℕ → ℕ
forward most x b = min (if ltb b 128 then x + b else x - (256 - b)) most

abbrev pub backward : ℕ → ℕ → ℕ → ℕ
backward most y b = min (if ltb b 128 then y - b else y + (256 - b)) most

-- The tests of one coordinate.
abbrev clamped : ℕ → ℕ → ℕ
clamped size v =
    let w = if is_neg32 v then 0 else v in if leb (sub32 size 5) w then sub32 size 5 else w

clamp-clamped :
    (width height : ℕ) (m : Mouse)
    → ((clamp width height m).x ≡ clamped width m.x)
      × ((clamp width height m).y ≡ clamped height m.y)
unfolding clamp
clamp-clamped width height m = ground arith

clamped-forward :
    (size x b : ℕ)
    → 5 ≤ size
    → size < 2 ^ 30
    → x + 5 ≤ size
    → b < 256
    → clamped size (add32 x (sign_extend b)) ≡ forward (size - 5) x b
clamped-forward size x b room small hx hb = ground arith

clamped-backward :
    (size x b : ℕ)
    → 5 ≤ size
    → size < 2 ^ 30
    → x + 5 ≤ size
    → b < 256
    → clamped size (sub32 x (sign_extend b)) ≡ backward (size - 5) x b
clamped-backward size x b room small hx hb = ground arith

-- The third byte of a packet that reports no overflow moves the cursor by the second and the third
-- byte, read as signed, x to the right and y upwards, as far as the edges of the screen; it tells
-- the main loop, and begins a new packet.
pub mouse_handler-moves :
    (width height status value b0 b1 b2 : ℕ) (m : Mouse)
    → HasRoom width height
    → InBounds width height m
    → (bit_and status 0x20 == 0) ≡ false
    → m.cycle ≡ 2
    → m.bytes ≡ b0 ∷ b1 ∷ b2 ∷ []
    → b1 < 256
    → value < 256
    → bit_and b0 0x80 ≡ 0
    → bit_and b0 0x40 ≡ 0
    → let m' = (mouse_handler width height status value m).0 in
      (m'.x ≡ forward (width - 5) m.x b1)
      × (m'.y ≡ backward (height - 5) m.y value)
      × (m'.moved ≡ true)
      × (m'.cycle ≡ 0)
unfolding mouse_handler packet
mouse_handler-moves width height status value b0 b1 b2 m room inside ours cycle bytes h1 h2 f1 f2 =
    let moved : Mouse = record m {
      x = add32 m.x (sign_extend b1);
      y = sub32 m.y (sign_extend value);
      cycle = 0;
      bytes = b0 ∷ b1 ∷ value ∷ [];
    } in
    let at_end : (m.cycle + 1 == 3) ≡ true = ground arith in
    let held : set m.bytes m.cycle value ≡ b0 ∷ b1 ∷ value ∷ [] = rw (bytes, cycle) in
    let c = clamp-clamped width height moved in
    let same = clamp-same width height moved in
    rw (ours, at_end, held, f1, f2)
      (
        c.0 ∙ clamped-forward width m.x b1 room.wide room.width_small inside.0 h1,
        c.1 ∙ clamped-backward height m.y value room.tall room.height_small inside.1 h2,
        refl,
        same.0,
      )
