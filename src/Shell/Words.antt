-- ===== src/Shell/Words.antt =====
-- The command line's words: they fit into their buffers, and come back as they were typed.
use tartarus_hobby_os.Base.{
  ℕ, zero, suc, ◌≤◌, ◌<◌, ◌≡◌, ◌≢◌, refl, ap, ◌∙◌, arith, List, [], ◌∷◌, ◌++◌, length, ◌||◌, ◌==◌,
  true, false,
}
use mathlib.Core.List.{append_assoc}
use tartarus_hobby_os.Text.{next_char}
use tartarus_hobby_os.Shell.Parse.{take_word, take_line, take_arg1, take_arg2, Command, parse}

-- No zero and no space.
abbrev pub IsWord : List ℕ → Type 0
IsWord [] = Unit
IsWord (c ∷ w) = (c ≢ 0) × (c ≢ b' ') × IsWord w

abbrev pub IsText : List ℕ → Type 0
IsText [] = Unit
IsText (c ∷ w) = (c ≢ 0) × IsText w

take_word-length : (room : ℕ) (s : List ℕ) → length (take_word room s).0 ≤ room
unfolding take_word
take_word-length zero s = omega arith
take_word-length (suc room) [] = omega arith
take_word-length (suc room) (c ∷ s) = ground (arith, take_word-length room s)

take_line-length : (room : ℕ) (s : List ℕ) → length (take_line room s) ≤ room
unfolding take_line
take_line-length zero s = omega arith
take_line-length (suc room) [] = omega arith
take_line-length (suc room) (c ∷ s) = ground (arith, take_line-length room s)

take_arg1-length : (s : List ℕ) → length (take_arg1 s).0 ≤ 63
unfolding take_arg1
take_arg1-length s = ground (arith, take_word-length 63 (next_char s))

take_arg2-length : (s : List ℕ) → length (take_arg2 s) ≤ 63
unfolding take_arg2
take_arg2-length s = ground (arith, take_line-length 63 (next_char s))

-- Whatever the command line holds, the texts that are taken from it fit, with a terminator, into
-- the buffers of 32, 64 and 64 bytes.
pub parse-length :
    (s : List ℕ)
    → (length (parse s).cmd < 32) × (length (parse s).arg1 < 64) × (length (parse s).arg2 < 64)
unfolding parse
parse-length s =
    let first = take_word 31 s in
    (
      omega (arith, take_word-length 31 s),
      omega (arith, take_arg1-length first.1),
      omega (arith, take_arg2-length (take_arg1 first.1).1),
    )

take_word-word :
    (room : ℕ) (w : List ℕ) (c : ℕ) (rest : List ℕ)
    → IsWord w
    → length w ≤ room
    → (c == b' ') || (c == 0) ≡ true
    → take_word room (w ++ c ∷ rest) ≡ (w, c ∷ rest)
unfolding take_word
take_word-word zero [] c rest is fits ends = refl
take_word-word (suc room) [] c rest is fits ends = rw ends
take_word-word zero (d ∷ w) c rest is fits ends = absurd (omega arith)
take_word-word (suc room) (d ∷ w) c rest (no_zero, no_space, is) fits ends =
    let inner = take_word-word room w c rest is (omega arith) ends in
    let goes_on : ((d == b' ') || (d == 0)) ≡ false = ground arith in rw (goes_on, inner) refl

take_line-text :
    (room : ℕ) (w rest : List ℕ) → IsText w → length w ≤ room → take_line room (w ++ 0 ∷ rest) ≡ w
unfolding take_line
take_line-text zero [] rest is fits = refl
take_line-text (suc room) [] rest is fits = refl
take_line-text zero (d ∷ w) rest is fits = absurd (omega arith)
take_line-text (suc room) (d ∷ w) rest (no_zero, is) fits =
    let goes_on : (d == 0) ≡ false = ground arith in
    rw (goes_on, take_line-text room w rest is (omega arith)) refl

module _ (w rest : List ℕ) (c : ℕ) where
  take_arg1-word :
      IsWord w
      → length w ≤ 63
      → (c == b' ') || (c == 0) ≡ true
      → take_arg1 (b' ' ∷ w ++ c ∷ rest) ≡ (w, c ∷ rest)
  unfolding take_arg1
  take_arg1-word is fits ends = take_word-word 63 w c rest is fits ends

  take_arg2-text : IsText w → length w ≤ 63 → take_arg2 (b' ' ∷ w ++ 0 ∷ rest) ≡ w
  unfolding take_arg2
  take_arg2-text is fits = take_line-text 63 w rest is fits

abbrev pub spell_args : List ℕ → List ℕ → List ℕ
spell_args [] [] = []
spell_args (a ∷ w) [] = b' ' ∷ a ∷ w
spell_args w (b ∷ t) = b' ' ∷ w ++ b' ' ∷ b ∷ t

-- A command as it is typed, with no space behind the last text that is not empty.
abbrev pub spell : Command → List ℕ
spell c = c.cmd ++ spell_args c.arg1 c.arg2

-- Texts without spaces, but for the last one, that fit into their buffers.
pub record IsTyped (c : Command) : Type 0 where
  pub cmd_word : IsWord c.cmd
  pub arg1_word : IsWord c.arg1
  pub arg2_text : IsText c.arg2
  pub cmd_fits : length c.cmd ≤ 31
  pub arg1_fits : length c.arg1 ≤ 63
  pub arg2_fits : length c.arg2 ≤ 63

take_arg2-end : (rest : List ℕ) → take_arg2 (0 ∷ rest) ≡ []
unfolding take_arg2
take_arg2-end rest = refl

take_arg1-end : (rest : List ℕ) → take_arg1 (0 ∷ rest) ≡ ([], 0 ∷ rest)
unfolding take_arg1
take_arg1-end rest = refl

-- Taking the three texts one after the other.
parse-steps :
    (s cmd r1 arg1 r2 arg2 : List ℕ)
    → take_word 31 s ≡ (cmd, r1)
    → take_arg1 r1 ≡ (arg1, r2)
    → take_arg2 r2 ≡ arg2
    → parse s ≡ record { cmd = cmd; arg1 = arg1; arg2 = arg2 }
unfolding parse
parse-steps s cmd r1 arg1 r2 arg2 e1 e2 e3 = cc (e1, e2, e3)

module _ (cmd rest : List ℕ) (is : IsWord cmd) (fits : length cmd ≤ 31) where
  first_word :
      (tail r : List ℕ) (c : ℕ)
      → tail ++ 0 ∷ rest ≡ c ∷ r
      → (c == b' ') || (c == 0) ≡ true
      → take_word 31 ((cmd ++ tail) ++ 0 ∷ rest) ≡ (cmd, c ∷ r)
  first_word tail r c e ends =
      ap (take_word 31) (append_assoc cmd tail (0 ∷ rest) ∙ ap (λ l. cmd ++ l) e)
      ∙ take_word-word 31 cmd c r is fits ends

  parse-texts :
      (arg1 arg2 : List ℕ)
      → IsWord arg1
      → length arg1 ≤ 63
      → IsText arg2
      → length arg2 ≤ 63
      → parse ((cmd ++ spell_args arg1 arg2) ++ 0 ∷ rest)
        ≡ record { cmd = cmd; arg1 = arg1; arg2 = arg2 }
  parse-texts [] [] is1 fits1 is2 fits2 =
      parse-steps _ cmd (0 ∷ rest) [] (0 ∷ rest) [] (first_word [] rest 0 refl refl)
        (take_arg1-end rest) (take_arg2-end rest)
  parse-texts (a ∷ w) [] is1 fits1 is2 fits2 =
      let behind = (a ∷ w) ++ 0 ∷ rest in
      parse-steps _ cmd (b' ' ∷ behind) (a ∷ w) (0 ∷ rest) []
        (first_word (b' ' ∷ a ∷ w) behind b' ' refl refl)
        (take_arg1-word (a ∷ w) rest 0 is1 fits1 refl) (take_arg2-end rest)
  parse-texts [] (b ∷ t) is1 fits1 is2 fits2 =
      let behind = b' ' ∷ (b ∷ t) ++ 0 ∷ rest in
      parse-steps _ cmd (b' ' ∷ behind) [] behind (b ∷ t)
        (first_word (b' ' ∷ b' ' ∷ b ∷ t) behind b' ' refl refl)
        (take_arg1-word [] ((b ∷ t) ++ 0 ∷ rest) b' ' is1 fits1 refl)
        (take_arg2-text (b ∷ t) rest 0 is2 fits2)
  parse-texts (a ∷ w) (b ∷ t) is1 fits1 is2 fits2 =
      let behind = (b ∷ t) ++ 0 ∷ rest in
      let both = (a ∷ w) ++ (b' ' ∷ behind) in
      parse-steps _ cmd (b' ' ∷ both) (a ∷ w) (b' ' ∷ behind) (b ∷ t)
        (first_word (b' ' ∷ (a ∷ w) ++ (b' ' ∷ b ∷ t)) both b' '
          (ap (λ l. b' ' ∷ l) (append_assoc (a ∷ w) (b' ' ∷ b ∷ t) (0 ∷ rest))) refl)
        (take_arg1-word (a ∷ w) behind b' ' is1 fits1 refl)
        (take_arg2-text (b ∷ t) rest 0 is2 fits2)

-- The texts of a command line are taken back from it, whatever stands behind its terminator.
pub parse-spell : (c : Command) (rest : List ℕ) → IsTyped c → parse (spell c ++ 0 ∷ rest) ≡ c
parse-spell c rest is =
    parse-texts c.cmd rest is.cmd_word is.cmd_fits c.arg1 c.arg2 is.arg1_word is.arg1_fits
      is.arg2_text is.arg2_fits
