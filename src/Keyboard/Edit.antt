-- ===== src/Keyboard/Edit.antt =====
-- What the keyboard does to the command line: an editor of a line of at most 255 characters.
use tartarus_hobby_os.Base.{
  ℕ, zero, suc, ◌-◌, ◌≤◌, ◌<◌, ◌≡◌, ◌≢◌, refl, sym, subst, ◌∙◌, ap, true, false, List, [], ◌∷◌,
  ◌++◌, arith, ◌==◌, ltb, if◌then◌else◌, length, length-append, set, replicate, Bool-cases, inl,
  inr, ltb→lt,
}
use tartarus_hobby_os.Keyboard.{Console, store_char, paste_loop, backspace}

abbrev pub append_char : ℕ → List ℕ → List ℕ
append_char c line = if ltb (length line) 255 then line ++ c ∷ [] else line

abbrev pub append_text : ℕ → List ℕ → List ℕ → List ℕ
append_text zero text line = line
append_text (suc n) [] line = line
append_text (suc n) (c ∷ text) line =
    if c == 0 then line else append_text n text (append_char c line)

abbrev pub drop_last : List ℕ → List ℕ
drop_last [] = []
drop_last (c ∷ []) = []
drop_last (c ∷ d ∷ line) = c ∷ drop_last (d ∷ line)

abbrev pub NoZero : List ℕ → Type 0
NoZero [] = Unit
NoZero (c ∷ line) = (c ≢ 0) × NoZero line

-- The command buffer holds `line`, and zeros behind it.
pub record IsEditing (s : Console) (line : List ℕ) : Type 0 where
  pub buffer : s.command_buffer ≡ line ++ replicate (256 - length line) 0
  pub index : s.buffer_index ≡ length line
  pub room : length line ≤ 255
  pub text : NoZero line

pub set-append :
    (line : List ℕ) (b : ℕ) (rest : List ℕ) (c : ℕ)
    → set (line ++ b ∷ rest) (length line) c ≡ line ++ c ∷ rest
set-append [] b rest c = refl
set-append (d ∷ line) b rest c = ap (λ l. d ∷ l) (set-append line b rest c)

append-snoc : (line : List ℕ) (c : ℕ) (rest : List ℕ) → line ++ c ∷ rest ≡ (line ++ c ∷ []) ++ rest
append-snoc [] c rest = refl
append-snoc (d ∷ line) c rest = ap (λ l. d ∷ l) (append-snoc line c rest)

NoZero-snoc : (line : List ℕ) (c : ℕ) → NoZero line → c ≢ 0 → NoZero (line ++ c ∷ [])
NoZero-snoc [] c h ne = (ne, tt)
NoZero-snoc (d ∷ line) c h ne = (h.0, NoZero-snoc line c h.1 ne)

store_char-IsEditing :
    (s : Console) (line : List ℕ) (c : ℕ)
    → IsEditing s line
    → c ≢ 0
    → length line < 255
    → IsEditing (store_char c s) (line ++ c ∷ [])
unfolding store_char
store_char-IsEditing s line c is ne room =
    let one_less : 256 - length line ≡ suc (255 - length line) = omega arith in
    let longer : length (line ++ c ∷ []) ≡ suc (length line) =
      omega (arith, length-append line (c ∷ [])) in
    let as_many : 256 - suc (length line) ≡ 255 - length line = omega arith in
    record {
      buffer =
          rw (is.buffer, is.index, longer, one_less, as_many)
            (set-append line 0 (replicate (255 - length line) 0) c
              ∙ append-snoc line c (replicate (255 - length line) 0));
      index = omega (arith, is.index);
      room = omega arith;
      text = NoZero-snoc line c is.text ne;
    }

-- A character is taken while there is room.
pub append_char-IsEditing :
    (s : Console) (line : List ℕ) (c : ℕ)
    → IsEditing s line
    → c ≢ 0
    → IsEditing (if ltb s.buffer_index 255 then store_char c s else s) (append_char c line)
append_char-IsEditing s line c is ne =
    let test : ltb s.buffer_index 255 ≡ ltb (length line) 255 = ap (λ i. ltb i 255) is.index in
    elim (Bool-cases (ltb (length line) 255)) [
      | inl room ↦ rw (test ∙ room, room) (store_char-IsEditing s line c is ne (ltb→lt _ _ room))
      | inr full ↦ rw (test ∙ full, full) is
    ]

pub paste_loop-IsEditing :
    (n : ℕ) (clip : List ℕ) (s : Console) (line : List ℕ)
    → IsEditing s line
    → IsEditing (paste_loop n clip s) (append_text n clip line)
unfolding paste_loop
paste_loop-IsEditing zero clip s line is = is
paste_loop-IsEditing (suc n) [] s line is = is
paste_loop-IsEditing (suc n) (c ∷ clip) s line is = elim (Bool-cases (c == 0)) [
  | inl end ↦ rw end is
  | inr more ↦ rw more (
      paste_loop-IsEditing n clip (if ltb s.buffer_index 255 then store_char c s else s)
        (append_char c line) (append_char-IsEditing s line c is (ground arith)))
]

-- A line that is not empty is all but its last character, and that.
last_of : (c : ℕ) (line : List ℕ) → (d : ℕ) × (c ∷ line ≡ drop_last (c ∷ line) ++ d ∷ [])
last_of c [] = (c, refl)
last_of c (e ∷ line) = let (d, h) = last_of e line in (d, ap (λ l. c ∷ l) h)

NoZero-init : (line : List ℕ) (d : ℕ) → NoZero (line ++ d ∷ []) → NoZero line
NoZero-init [] d h = tt
NoZero-init (c ∷ line) d h = (h.0, NoZero-init line d h.1)

backspace-init :
    (s : Console) (line : List ℕ) (d : ℕ)
    → IsEditing s (line ++ d ∷ [])
    → IsEditing (backspace s) line
unfolding backspace
backspace-init s line d is =
    let longer : length (line ++ d ∷ []) ≡ suc (length line) =
      omega (arith, length-append line (d ∷ [])) in
    let at_end : s.buffer_index ≡ suc (length line) = is.index ∙ longer in
    let some_left : ltb 0 (suc (length line)) ≡ true = ground arith in
    let before : suc (length line) - 1 ≡ length line = omega arith in
    let fill : 256 - length line ≡ suc (256 - suc (length line)) = omega (arith, is.room, longer) in
    let held : s.command_buffer ≡ line ++ d ∷ replicate (256 - suc (length line)) 0 =
      is.buffer ∙ rw longer (sym (append-snoc line d _)) in
    rw (at_end, some_left, before)
      record {
        buffer = rw (held, fill) (set-append line d (replicate (256 - suc (length line)) 0) 0);
        index = refl;
        room = omega (arith, is.room, longer);
        text = NoZero-init line d is.text;
      }

pub backspace-IsEditing :
    (s : Console) (line : List ℕ) → IsEditing s line → IsEditing (backspace s) (drop_last line)
backspace-IsEditing s [] is =
    let none_left : ltb 0 s.buffer_index ≡ false = ap (λ i. ltb 0 i) is.index in
    unfold backspace in rw none_left is
backspace-IsEditing s (c ∷ line) is =
    let (d, e) = last_of c line in
    backspace-init s (drop_last (c ∷ line)) d (subst (IsEditing s) e is)
