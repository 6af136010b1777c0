-- ===== src/Mouse/Setup.antt =====
-- src/mouse.c: `InitPS2Mouse` with the waits for the controller. `D` is the state of the controller
-- and the mouse behind its ports, which the reads change too.
use tartarus_hobby_os.Base.{
  ℕ, zero, suc, Bool, true, false, ◌==◌, if◌then◌else◌, bit_and, bit_or, u8,
}

pub record Ps2 {ℓ} (D : Type ℓ) : Type ℓ where
  pub outb : ℕ → ℕ → D → D
  pub inb : ℕ → D → ℕ × D

-- What a wait of a type looks for in the status.
unfoldable pub is_done : ℕ → ℕ → Bool
is_done a_type status = if a_type == 0 then bit_and status 1 == 1 else bit_and status 2 == 0

module _ {ℓ} {D : Type ℓ} (ports : Ps2 D) where
  -- The polls that are left.
  unfoldable pub poll_loop : (a_type timeout : ℕ) → D → D
  poll_loop a_type zero d = d
  poll_loop a_type (suc n) d =
      let (status, d') = ports.inb 0x64 d in
      elim (is_done a_type status) [ true ↦ d' | false ↦ poll_loop a_type n d' ]

  -- `while (_time_out--)` from 100000 polls at most 100000 times.
  unfoldable pub mouse_wait : ℕ → D → D
  mouse_wait a_type d = poll_loop a_type 100000 d

  -- `MouseWait(1); outb(port, value);`
  unfoldable pub send : ℕ → ℕ → D → D
  send port value d = ports.outb port value (mouse_wait 1 d)

  unfoldable pub mouse_write : ℕ → D → D
  mouse_write a_write d = send 0x60 a_write (send 0x64 0xd4 d)

  unfoldable pub mouse_read : D → ℕ × D
  mouse_read d = ports.inb 0x60 (mouse_wait 0 d)

  unfoldable pub init_ps2_mouse : D → D
  init_ps2_mouse d =
      let (answer, d1) = mouse_read (send 0x64 0x20 (send 0x64 0xa8 d)) in
      let status = u8 (bit_or answer 2) in
      let d2 = send 0x60 status (send 0x64 0x60 d1) in
      let (ack, d3) = mouse_read (mouse_write 0xf6 d2) in
      let (ack2, d4) = mouse_read (mouse_write 0xf4 d3) in d4
