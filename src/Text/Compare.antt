-- ===== src/Text/Compare.antt =====
-- `strcmp` and `CompareString` tell the texts up to the terminator apart.
use tartarus_hobby_os.Base.{
  ℕ, ◌<◌, ◌≡◌, ◌↔◌, refl, List, [], ◌∷◌, arith, ◌==◌, if◌then◌else◌, sub32,
}
use tartarus_hobby_os.Text.{next_char, strcmp, compare_string}

-- The text before the terminator.
abbrev pub c_string : List ℕ → List ℕ
c_string [] = []
c_string (c ∷ s) = if c == 0 then [] else c ∷ c_string s

abbrev pub AreBytes : List ℕ → Type 0
AreBytes [] = Unit
AreBytes (c ∷ s) = (c < 256) × AreBytes s

difference : (a b : ℕ) → a < 256 → b < 256 → sub32 a b ≡ 0 → a ≡ b
difference a b ha hb e = omega arith

-- `strcmp` of two texts of bytes is 0 exactly when they agree up to their terminators.
strcmp-c_string :
    (s t : List ℕ) → AreBytes s → AreBytes t → (strcmp s t ≡ 0) ↔ (c_string s ≡ c_string t)
unfolding strcmp
strcmp-c_string [] [] hs ht = (λ e. refl, λ e. refl)
strcmp-c_string [] (d ∷ t) hs ht = ground arith
strcmp-c_string (c ∷ s) [] hs ht = ground arith
strcmp-c_string (c ∷ s) (d ∷ t) hs ht = ground (arith, strcmp-c_string s t hs.1 ht.1)

-- The two functions are one.
compare_string-strcmp : (s t : List ℕ) → compare_string s t ≡ strcmp s t
unfolding strcmp compare_string
compare_string-strcmp [] t = refl
compare_string-strcmp (c ∷ s) t = rw (compare_string-strcmp s (next_char t))
