-- ===== src/Mouse/Examples.antt =====
-- The theorems on the mouse at a concrete position and screen.
use tartarus_hobby_os.Base.{
  ℕ, suc, ◌==◌, if◌then◌else◌, bit_or, u8, ◌*◌, ◌≡◌, refl, false, true, [], ◌∷◌, arith,
}
use tartarus_hobby_os.Display.{Screen}
use tartarus_hobby_os.Mouse.{
  Mouse, Background, mouse_handler, mouse_step, save_mouse_bg, draw_mouse_cursor,
}
use tartarus_hobby_os.Mouse.Packet.{
  IsReady, InBounds, HasRoom, forward, backward, mouse_handler-keeps, mouse_handler-moves,
}
use tartarus_hobby_os.Mouse.Setup.{Ps2, init_ps2_mouse}
use tartarus_hobby_os.Mouse.Handshake.{
  written, got, traffic, IsPolite, recorded, init_ps2_mouse-IsPolite,
}
use tartarus_hobby_os.Mouse.Background.{IsOverlaid, overlay, mouse_step-IsOverlaid}

-- Near the right edge, with two bytes of a packet read: 10 to the right, and the third to come.
abbrev mouse : Mouse
mouse = record {
  x = 30;
  y = 10;
  prev_x = 30;
  prev_y = 10;
  moved = true;
  cycle = 2;
  bytes = 0x08 ∷ 10 ∷ 0 ∷ [];
}

abbrev screen : Screen
screen = record {
  frame_buffer = 0x8000_0000;
  pixel = λ q. q * 3;
  pitch = 64;
  width = 40;
  height = 24;
  cursor_x = 0;
  cursor_y = 0;
}

room : HasRoom 40 24
room = record {
  wide = omega arith;
  tall = omega arith;
  width_small = omega arith;
  height_small = omega arith;
}

abbrev blank : Background
blank i j = 0

abbrev shown : Screen
shown = record screen { pixel = draw_mouse_cursor mouse screen }

shown-IsOverlaid : IsOverlaid screen.pixel mouse shown (save_mouse_bg mouse screen blank)
shown-IsOverlaid = overlay mouse screen blank refl refl

mouse_handler-keeps_example :
    IsReady (mouse_handler 40 24 0x21 0xfe mouse).0
    × InBounds 40 24 (mouse_handler 40 24 0x21 0xfe mouse).0
mouse_handler-keeps_example =
    mouse_handler-keeps 40 24 0x21 0xfe mouse room (record { cycle = omega arith; bytes = refl })
      (omega arith, omega arith)

mouse_handler-moves_example :
    let m' = (mouse_handler 40 24 0x21 0xfe mouse).0 in
    (m'.x ≡ forward 35 30 10) × (m'.y ≡ backward 19 10 0xfe) × (m'.moved ≡ true) × (m'.cycle ≡ 0)
mouse_handler-moves_example =
    mouse_handler-moves 40 24 0x21 0xfe 0x08 10 0 mouse room (omega arith, omega arith) refl refl
      refl (omega arith) (omega arith) refl refl

mouse_step-IsOverlaid_example :
    let (m', s', bg') = mouse_step (mouse, shown, save_mouse_bg mouse screen blank) in
    IsOverlaid screen.pixel m' s' bg' × (m'.prev_x ≡ 30) × (m'.prev_y ≡ 10) × (m'.moved ≡ false)
mouse_step-IsOverlaid_example =
    mouse_step-IsOverlaid screen.pixel mouse shown (save_mouse_bg mouse screen blank) refl
      shown-IsOverlaid

-- A controller that is always ready, and answers with the number of the read.
abbrev ready_ports : Ps2 ℕ
ready_ports = record {
  outb = λ port value d. d;
  inb = λ port d. (if port == 0x64 then 1 else d, suc d);
}

init_ps2_mouse-IsPolite_example :
    let log = (init_ps2_mouse (recorded ready_ports) (0x40, [])).1 in
    IsPolite log
    × ((status : ℕ) × (ack : ℕ) × (ack2 : ℕ) × (traffic log
          ≡ got 0x60 ack2
            ∷ written 0x60 0xf4
            ∷ written 0x64 0xd4
            ∷ got 0x60 ack
            ∷ written 0x60 0xf6
            ∷ written 0x64 0xd4
            ∷ written 0x60 (u8 (bit_or status 2))
            ∷ written 0x64 0x60
            ∷ got 0x60 status
            ∷ written 0x64 0x20
            ∷ written 0x64 0xa8
            ∷ []))
init_ps2_mouse-IsPolite_example = init_ps2_mouse-IsPolite ready_ports 0x40
