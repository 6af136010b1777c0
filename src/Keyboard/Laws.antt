-- ===== src/Keyboard/Laws.antt =====
-- `KeyboardHandler` as an editor of the command line.
use tartarus_hobby_os.Base.{
  ℕ, zero, suc, ◌-◌, ◌<◌, ◌≡◌, ◌≢◌, refl, ◌∙◌, ap, true, List, [], ◌∷◌, ◌++◌, arith, ltb, leb,
  if◌then◌else◌, length, set, replicate, bit_and, Bool-cases, inl, inr,
}
use tartarus_hobby_os.Base.Bits.{bit_and_high}
use tartarus_hobby_os.Keyboard.{
  Console, store_char, paste_loop, backspace, type_key, press_key, keyboard_handler, outb,
}
use tartarus_hobby_os.Keyboard.Edit.{IsEditing, set-append}
use tartarus_hobby_os.Keyboard.Press.{edited, IsEditing-same, release_key-same, press_key-IsEditing}

paste_loop-ports :
    (n : ℕ) (clip : List ℕ) (s : Console) → (paste_loop n clip s).port_writes ≡ s.port_writes
unfolding paste_loop store_char
paste_loop-ports zero clip s = refl
paste_loop-ports (suc n) [] s = refl
paste_loop-ports (suc n) (c ∷ clip) s =
    ground (arith, paste_loop-ports n clip (if ltb s.buffer_index 255 then store_char c s else s))

press_key-ports :
    (execute_command : Console → Console) (scancode : ℕ) (s : Console)
    → scancode ≢ 0x1c
    → (press_key execute_command scancode s).port_writes ≡ s.port_writes
unfolding press_key backspace type_key store_char
press_key-ports execute_command scancode s ne = ground (arith, paste_loop-ports 63 s.clipboard s)

-- On any scancode but that of Enter, the handler turns the line that is being edited into the
-- line that `edited` gives, in a buffer that is zero behind it, and acknowledges the interrupt once.
pub keyboard_handler-IsEditing :
    (execute_command : Console → Console) (scancode : ℕ) (s : Console) (line : List ℕ)
    → scancode < 256
    → scancode ≢ 0x1c
    → IsEditing s line
    → IsEditing (keyboard_handler execute_command scancode s) (edited scancode s line)
      × ((keyboard_handler execute_command scancode s).port_writes ≡ (0x20, 0x20) ∷ s.port_writes)
unfolding keyboard_handler
keyboard_handler-IsEditing execute_command scancode s line byte ne is =
    elim (Bool-cases (ltb scancode 128)) [
      | inl low ↦ rw (bit_and_high scancode byte ∙ low) (
        IsEditing-same (press_key execute_command scancode s) _ (edited scancode s line) refl refl
            (press_key-IsEditing execute_command scancode s line (ground arith) ne is),
        ap (λ (w : List (ℕ × ℕ)). (0x20, 0x20) ∷ w) (press_key-ports execute_command scancode s ne),
      )
      | inr high ↦
          let same = release_key-same (bit_and scancode 0x7f) s in
          let released : leb 128 scancode ≡ true = ground arith in
          rw (bit_and_high scancode byte ∙ high, released)
            (
              IsEditing-same s _ line same.0 same.1 is,
              ap (λ (w : List (ℕ × ℕ)). (0x20, 0x20) ∷ w) same.2,
            )
    ]

-- On Enter the handler runs the command on the console as it is, the line ended by a zero, and
-- then acknowledges the interrupt.
keyboard_handler-enter :
    (execute_command : Console → Console) (s : Console) (line : List ℕ)
    → IsEditing s line
    → keyboard_handler execute_command 0x1c s ≡ outb 0x20 0x20 (execute_command s)
unfolding keyboard_handler press_key
keyboard_handler-enter execute_command s line is =
    let fill : 256 - length line ≡ suc (255 - length line) = omega (arith, is.room) in
    let held : s.command_buffer ≡ line ++ 0 ∷ replicate (255 - length line) 0 =
      is.buffer ∙ rw fill in
    let ended : set s.command_buffer s.buffer_index 0 ≡ s.command_buffer =
      rw (is.index, held) (set-append line 0 (replicate (255 - length line) 0) 0) in
    ap (λ (b : List ℕ). outb 0x20 0x20 (execute_command (record s { command_buffer = b }))) ended
