-- ===== src/Mouse/Handshake.antt =====
-- What passes between `InitPS2Mouse` and the controller, whatever the controller answers.
use tartarus_hobby_os.Base.{
  ℕ, zero, suc, ◌+◌, ◌≡◌, refl, ◌⊎◌, inl, inr, Bool, true, false, ◌&&◌, not, List, [], ◌∷◌, ◌==◌,
  if◌then◌else◌, bit_and, bit_or, u8, arith, ap, subst, Bool-cases,
}
use tartarus_hobby_os.Mouse.Setup.{
  Ps2, is_done, poll_loop, mouse_wait, send, mouse_write, mouse_read, init_ps2_mouse,
}

pub data Event : Type 0 where
  written : (port value : ℕ) → Event
  got : (port value : ℕ) → Event

-- A log has its last event first. This is what passes but for the reads of the status.
abbrev pub traffic : List Event → List Event
traffic [] = []
traffic (written port value ∷ log) = written port value ∷ traffic log
traffic (got port value ∷ log) = if port == 0x64 then traffic log else got port value ∷ traffic log

-- The last event is a read of the status that says that the controller takes a byte.
abbrev pub takes_byte : List Event → Bool
takes_byte (got port value ∷ log) = (port == 0x64) && (bit_and value 2 == 0)
takes_byte (written port value ∷ log) = false
takes_byte [] = false

-- The last `n` events are reads of the status that say that it does not.
abbrev pub is_polled : ℕ → List Event → Bool
is_polled zero log = true
is_polled (suc n) (got port value ∷ log) =
    (port == 0x64) && not (bit_and value 2 == 0) && is_polled n log
is_polled (suc n) (written port value ∷ log) = false
is_polled (suc n) [] = false

-- Nothing is written before the controller says that it takes a byte, or has refused 100000 times.
abbrev pub IsPolite : List Event → Type 0
IsPolite [] = Unit
IsPolite (written port value ∷ log) =
    ((takes_byte log ≡ true) ⊎ (is_polled 100000 log ≡ true)) × IsPolite log
IsPolite (got port value ∷ log) = IsPolite log

-- Ports that also keep the log.
abbrev pub recorded {ℓ} : {D : Type ℓ} → Ps2 D → Ps2 (D × List Event)
recorded ports = record {
  outb = λ port value (d, log). (ports.outb port value d, written port value ∷ log);
  inb = λ port (d, log). let (value, d') = ports.inb port d in (value, (d', got port value ∷ log));
}

module _ {ℓ} {D : Type ℓ} (ports : Ps2 D) where
  -- The log is polite, and this has passed.
  After : List Event → D × List Event → Type 0
  After passed (d, log) = IsPolite log × (traffic log ≡ passed)

  poll_loop-After :
      (a_type n : ℕ) (passed : List Event) (t : D × List Event)
      → After passed t
      → After passed (poll_loop (recorded ports) a_type n t)
  unfolding poll_loop After
  poll_loop-After a_type zero passed t h = h
  poll_loop-After a_type (suc n) passed (d, log) h =
      elim (Bool-cases (is_done a_type (ports.inb 0x64 d).0)) [
        | inl e ↦ rw (After, poll_loop, e) h
        | inr e ↦
            rw (poll_loop, e)
              (poll_loop-After a_type n passed
                ((ports.inb 0x64 d).1, got 0x64 (ports.inb 0x64 d).0 ∷ log) h)
      ]

  poll_loop-polled :
      (n k m : ℕ) (t : D × List Event)
      → m ≡ n + k
      → is_polled k t.1 ≡ true
      → let log = (poll_loop (recorded ports) 1 n t).1 in
        (takes_byte log ≡ true) ⊎ (is_polled m log ≡ true)
  unfolding poll_loop is_done
  poll_loop-polled zero k m t e h =
      let same : k ≡ m = omega (arith, e) in inr (subst (λ q. is_polled q t.1 ≡ true) same h)
  poll_loop-polled (suc n) k m (d, log) e h =
      elim (Bool-cases (bit_and (ports.inb 0x64 d).0 2 == 0)) [
        | inl now ↦ rw (poll_loop, now) (inl now)
        | inr later ↦
            let next : is_polled (suc k) (got 0x64 (ports.inb 0x64 d).0 ∷ log) ≡ true =
              rw (later, h) refl in
            rw (poll_loop, later)
              (poll_loop-polled n (suc k) m
                ((ports.inb 0x64 d).1, got 0x64 (ports.inb 0x64 d).0 ∷ log) (omega (arith, e)) next)
      ]

  send-After :
      (port value : ℕ) (passed : List Event) (t : D × List Event)
      → After passed t
      → After (written port value ∷ passed) (send (recorded ports) port value t)
  unfolding After send mouse_wait
  send-After port value passed t h =
      let waited = poll_loop-After 1 100000 passed t h in
      (
        (poll_loop-polled 100000 0 100000 t refl refl, waited.0),
        ap (λ l. written port value ∷ l) waited.1,
      )

  mouse_write-After :
      (value : ℕ) (passed : List Event) (t : D × List Event)
      → After passed t
      → After
          (written 0x60 value ∷ written 0x64 0xd4 ∷ passed)
          (mouse_write (recorded ports) value t)
  unfolding mouse_write
  mouse_write-After value passed t h = send-After 0x60 value _ _ (send-After 0x64 0xd4 passed t h)

  mouse_read-After :
      (passed : List Event) (t : D × List Event)
      → After passed t
      → let result = mouse_read (recorded ports) t in After (got 0x60 result.0 ∷ passed) result.1
  unfolding After mouse_read mouse_wait
  mouse_read-After passed t h =
      let waited = poll_loop-After 0 100000 passed t h in
      (waited.0, ap (λ l. got 0x60 (mouse_read (recorded ports) t).0 ∷ l) waited.1)

-- Whatever the controller is and answers: `InitPS2Mouse` writes no byte before the controller says
-- that it takes one, or has refused 100000 times. What passes, the reads of the status aside, is the
-- command that turns the mouse's port on, the byte of the set-up read and written back with bit 1
-- set, and the two commands to the mouse with an answer read to each.
pub init_ps2_mouse-IsPolite {ℓ} :
    {D : Type ℓ}
    → (ports : Ps2 D) (d : D)
    → let log = (init_ps2_mouse (recorded ports) (d, [])).1 in
      IsPolite log
      × ((status : ℕ) × (ack : ℕ) × (ack2 : ℕ) × (traffic log
            ≡ got 0x60 ack2
              ∷ written 0x60 0xf4
              ∷ written 0x64 0xd4
              ∷ got 0x60 ack
              ∷ written 0x60 0xf6
              ∷ written 0x64 0xd4
              ∷ written 0x60 (u8 (bit_or status 2))
              ∷ written 0x64 0x60
              ∷ got 0x60 status
              ∷ written 0x64 0x20
              ∷ written 0x64 0xa8
              ∷ []))
unfolding init_ps2_mouse After
init_ps2_mouse-IsPolite ports d =
    let h1 =
      mouse_read-After ports _ _
        (send-After ports 0x64 0x20 _ _ (send-After ports 0x64 0xa8 [] (d, []) (tt, refl))) in
    let h2 = mouse_read-After ports _ _ (
      mouse_write-After ports 0xf6 _ _
        (send-After ports 0x60 _ _ _ (send-After ports 0x64 0x60 _ _ h1))) in
    let h3 = mouse_read-After ports _ _ (mouse_write-After ports 0xf4 _ _ h2) in
    (h3.0, (_, _, _, h3.1))
