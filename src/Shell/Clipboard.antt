-- ===== src/Shell/Clipboard.antt =====
-- The command `read`, as it is typed: the clipboard holds what it has read.
use tartarus_hobby_os.Base.{
  ℕ, suc, ◌+◌, ◌*◌, ◌^◌, ◌≤◌, ◌<◌, ◌≡◌, refl, ap, ◌∙◌, sym, arith, true, Option, none, some, List,
  [], ◌∷◌, ◌++◌, length, replicate, drop, ◌==◌, codes, Bool-cases, inl, inr, bit_or, u64, ◌<<<◌,
  ==_iff,
}
use tartarus_hobby_os.Text.{strcmp, hex_value, hex_to_int64_loop, hex_to_int64, hex_to_string}
use tartarus_hobby_os.Text.Compare.{c_string}
use tartarus_hobby_os.Text.Copy.{strcpy_custom_lem}
use tartarus_hobby_os.Text.Hex.{digits, hex_to_string-digits, hex_to_int64-hex_to_string}
use tartarus_hobby_os.Keyboard.Edit.{IsEditing}
use tartarus_hobby_os.Ram.{load64}
use tartarus_hobby_os.Machine.{Machine, pure}
use tartarus_hobby_os.Machine.Laws.{bind-some}
use tartarus_hobby_os.Shell.Parse.{Command}
use tartarus_hobby_os.Shell.Words.{IsTyped, IsWord, spell}
use tartarus_hobby_os.Shell.Commands.{
  Platform, copy_to_clipboard, reach, announce_read, show_value, read_address,
}
use tartarus_hobby_os.Shell.{run_command, execute_command}
use tartarus_hobby_os.Shell.Run.{
  at_line, at_prompt, at_prompt-IsEditing, IsEditing-length, execute_command-ends,
}
use tartarus_hobby_os.Shell.Access.{nonzero, MapsItself}

c_string-length : (s : List ℕ) → length (c_string s) ≤ length s
c_string-length [] = omega arith
c_string-length (c ∷ s) = ground (arith, c_string-length s)

hex_value-zero : hex_value 0 ≡ none
unfolding hex_value
hex_value-zero = refl

after_digit : ℕ → List ℕ → Option ℕ → ℕ
after_digit r s none = r
after_digit r s (some val) = hex_to_int64_loop (bit_or (u64 (r <<< 4)) val) s

loop-digit : (r c : ℕ) (s : List ℕ) → hex_to_int64_loop r (c ∷ s) ≡ after_digit r s (hex_value c)
unfolding hex_to_int64_loop after_digit
loop-digit r c s = same (hex_value c)
  where
    same :
        (x : Option ℕ)
        → elim x [ none ↦ r | some val ↦ hex_to_int64_loop (bit_or (u64 (r <<< 4)) val) s ]
          ≡ after_digit r s x
    same none = refl
    same (some val) = refl

after_digit-same :
    (r : ℕ) (s t : List ℕ) (x : Option ℕ)
    → ((q : ℕ) → hex_to_int64_loop q s ≡ hex_to_int64_loop q t)
    → after_digit r s x ≡ after_digit r t x
unfolding after_digit
after_digit-same r s t none same = refl
after_digit-same r s t (some val) same = same _

-- A terminator ends a number, whatever stands behind it.
hex_to_int64_loop-c_string :
    (r : ℕ) (s rest : List ℕ) → hex_to_int64_loop r (c_string s ++ 0 ∷ rest) ≡ hex_to_int64_loop r s
unfolding after_digit
hex_to_int64_loop-c_string r [] rest =
    loop-digit r 0 rest ∙ ap (after_digit r rest) hex_value-zero ∙ unfold hex_to_int64_loop in refl
hex_to_int64_loop-c_string r (c ∷ s) rest = elim (Bool-cases (c == 0)) [
  | inl ends ↦
      let zero_char : 0 ≡ c = sym ((==_iff c 0).0 ends) in
      rw ends (
        loop-digit r 0 rest
        ∙ ap (after_digit r rest) hex_value-zero
        ∙ sym (
            loop-digit r c s
            ∙ ap (λ x. after_digit r s (hex_value x)) (sym zero_char)
            ∙ ap (after_digit r s) hex_value-zero))
  | inr goes_on ↦ rw goes_on (
      loop-digit r c (c_string s ++ 0 ∷ rest)
      ∙ after_digit-same r (c_string s ++ 0 ∷ rest) s (hex_value c)
          (λ q. hex_to_int64_loop-c_string q s rest)
      ∙ sym (loop-digit r c s))
]

hex_to_int64-clipboard :
    (v : ℕ) (rest : List ℕ)
    → v < 2 ^ 64
    → hex_to_int64 (c_string (hex_to_string v (replicate 19 0)) ++ 0 ∷ rest) ≡ v
unfolding hex_to_int64
hex_to_int64-clipboard v rest small =
    let whole = hex_to_string-digits v (replicate 19 0) (omega arith) in
    let known = hex_to_int64-hex_to_string v (replicate 19 0) small (omega arith) in
    rw whole (hex_to_int64_loop-c_string 0 (digits 16 v (0 ∷ [])) rest ∙ (rw whole at known))

abbrev with_clipboard {ℓ} : {D : Type ℓ} → List ℕ → Machine D → Machine D
with_clipboard clip m = record m { console = record m.console { clipboard = clip } }

module _ {ℓ} {D : Type ℓ} where
  copy_to_clipboard-number :
      (v : ℕ) (m : Machine D)
      → v < 2 ^ 64
      → 19 < length m.console.clipboard
      → (clip : List ℕ) × (copy_to_clipboard v m ≡ some (tt, with_clipboard clip m))
        × (hex_to_int64 clip ≡ v)
  unfolding copy_to_clipboard
  copy_to_clipboard-number v m small room =
      let text = hex_to_string v (replicate 19 0) in
      let full : length text ≡ 19 =
        ap length (hex_to_string-digits v (replicate 19 0) (omega arith)) in
      let copied =
        strcpy_custom_lem m.console.clipboard text
          (omega (arith, c_string-length text, full, room)) in
      let clip = c_string text ++ 0 ∷ drop (suc (length (c_string text))) m.console.clipboard in
      (clip, rw (copy_to_clipboard, copied) refl, hex_to_int64-clipboard v _ small)

-- What `read` does to the screen.
abbrev shown {ℓ} : {D : Type ℓ} → ℕ → Machine D → Machine D
shown target_addr m = record m {
  console = record m.console {
    screen = show_value (load64 m.ram target_addr) (announce_read target_addr m.console.screen);
  };
}

abbrev pub read_command : List ℕ → Command
read_command address = record { cmd = codes "read"; arg1 = address; arg2 = [] }

module _ {ℓ} {D : Type ℓ} (platform : Platform D) (fuel rounds : ℕ) where
  read_address-mapped :
      (a : ℕ) (m m1 : Machine D)
      → MapsItself platform.pages
      → a + 8 ≤ 8 * 2 ^ 30
      → copy_to_clipboard (load64 m.ram a) (shown a m) ≡ some (tt, m1)
      → read_address platform a m ≡ some (tt, m1)
  unfolding read_address reach
  read_address-mapped a m m1 maps mapped e =
      let first : platform.pages a ≡ some a = maps _ (omega (arith, mapped)) in
      let last : platform.pages (a + 7) ≡ some (a + 7) = maps _ (omega (arith, mapped)) in
      rw (read_address, reach, first, last) e

  run_command-read :
      (a : ℕ) (address : List ℕ) (m m1 : Machine D)
      → IsWord (a ∷ address)
      → read_address platform (hex_to_int64 (a ∷ address)) m ≡ some (tt, m1)
      → run_command platform fuel rounds (read_command (a ∷ address)) m ≡ some (true, m1)
  unfolding run_command strcmp
  run_command-read a address m m1 is e =
      rw (run_command, nonzero a is.0)
        (bind-some (read_address platform (hex_to_int64 (a ∷ address))) (λ u. pure true) m tt m1 e)

  -- `read`, typed with an address of the first eight gigabytes, which the pages map to themselves, comes to the next prompt, and leaves in the
  -- clipboard the digits of the eight bytes at the address: as a number they give the bytes again.
  -- The clipboard has more than 19 bytes, and the memory holds bytes there.
  pub execute_command-read :
      (address : List ℕ) (m : Machine D)
      → 0 < length address
      → MapsItself platform.pages
      → IsTyped (read_command address)
      → IsEditing m.console (spell (read_command address))
      → hex_to_int64 address + 8 ≤ 8 * 2 ^ 30
      → 19 < length m.console.clipboard
      → load64 m.ram (hex_to_int64 address) < 2 ^ 64
      → (m' : Machine D) × (execute_command platform fuel rounds m ≡ some (tt, m'))
        × (hex_to_int64 m'.console.clipboard ≡ load64 m.ram (hex_to_int64 address))
        × (m'.ram ≡ m.ram)
        × IsEditing m'.console []
  execute_command-read [] m some1 maps typed is mapped clip small = absurd (omega arith)
  execute_command-read (a ∷ address) m some1 maps typed is mapped room small =
      let target = hex_to_int64 (a ∷ address) in
      let v = load64 m.ram target in
      let (clip, copied, digits_of) =
        copy_to_clipboard-number v (shown target (at_line m)) small room in
      let m1 = with_clipboard clip (shown target (at_line m)) in
      (
        at_prompt m1,
        execute_command-ends platform fuel rounds m (read_command (a ∷ address)) typed (omega arith)
            is m1
            (run_command-read a address (at_line m) m1 typed.arg1_word
              (read_address-mapped target (at_line m) m1 maps mapped copied))
            (IsEditing-length m.console _ is),
        digits_of,
        refl,
        at_prompt-IsEditing m1,
      )
