-- ===== src/ApiManifold/Rounds.antt =====
-- What a round of `BuildUniversalExportTable` writes, and what it leaves alone.
use tartarus_hobby_os.Base.{
  ℕ, zero, suc, ◌+◌, ◌%◌, ◌^◌, ◌≤◌, ◌<◌, ◌≡◌, ◌≢◌, ◌⊎◌, inl, inr, refl, ap, ◌∙◌, arith, Bool, true,
  false, ◌&&◌, List, [], ◌∷◌, ◌++◌, length, leb, ltb, ◌==◌, Bool-cases,
}
use tartarus_hobby_os.Base.Bits.{all_below, all_below_lem}
use tartarus_hobby_os.Ram.{Ram, store8, load16, load32, load64, load_bytes}
use tartarus_hobby_os.Ram.Laws.{store8-same, store32-same, store64-same}
use tartarus_hobby_os.ApiManifold.{nth}
use tartarus_hobby_os.ApiManifold.Names.{api_list, api_count}
use tartarus_hobby_os.ApiManifold.Exports.{copy_name, write_trampoline}

-- The two memories have the same `n` bytes from `a` on.
abbrev pub SameAt : (a n : ℕ) → Ram → Ram → Type 0
SameAt a n r r' = (q : ℕ) → a ≤ q → q < a + n → r' q ≡ r q

module _ (r r' : Ram) (a : ℕ) where
  pub load16-same : SameAt a 2 r r' → load16 r' a ≡ load16 r a
  load16-same same =
      omega (arith, same a (omega arith) (omega arith), same (a + 1) (omega arith) (omega arith))

  pub load32-same : SameAt a 4 r r' → load32 r' a ≡ load32 r a
  load32-same same = omega (
    arith,
    same a (omega arith) (omega arith),
    same (a + 1) (omega arith) (omega arith),
    same (a + 2) (omega arith) (omega arith),
    same (a + 2 + 1) (omega arith) (omega arith),
  )

pub load64-same : (r r' : Ram) (a : ℕ) → SameAt a 8 r r' → load64 r' a ≡ load64 r a
load64-same r r' a same = omega (
  arith,
  load32-same r r' a (λ q low high. same q low (omega arith)),
  load32-same r r' (a + 4) (λ q low high. same q (omega arith) (omega arith)),
)

pub load_bytes-same :
    (r r' : Ram) (n a : ℕ) → SameAt a n r r' → load_bytes r' a n ≡ load_bytes r a n
load_bytes-same r r' zero a same = refl
load_bytes-same r r' (suc n) a same = rw (same a (omega arith) (omega arith)) (
    ap (λ l. r a ∷ l)
      (load_bytes-same r r' n (a + 1) (λ q low high. same q (omega arith) (omega arith))))

-- Bytes that are no terminator.
abbrev pub IsName : List ℕ → Type 0
IsName [] = Unit
IsName (c ∷ s) = (0 < c) × (c < 2 ^ 8) × IsName s

pub copy_name-same :
    (room : ℕ) (src : List ℕ) (p q : ℕ) (ram : Ram)
    → (q < p) ⊎ (p + length src + 1 ≤ q)
    → copy_name room src p ram q ≡ ram q
unfolding copy_name
copy_name-same zero src p q ram out = store8-same p 0 q ram (λ e. ground (arith, e, out))
copy_name-same (suc room) [] p q ram out = store8-same p 0 q ram (λ e. ground (arith, e, out))
copy_name-same (suc room) (c ∷ src) p q ram out =
    let ne : q ≢ p = λ e. ground (arith, e, out) in
    elim (Bool-cases (c == 0)) [
      | inl ends ↦ rw (copy_name, ends) (store8-same p 0 q ram ne)
      | inr goes_on ↦
          rw (copy_name, goes_on)
            (copy_name-same room src (p + 1) q (store8 p c ram) (omega (arith, out))
              ∙ store8-same p c q ram ne)
    ]

pub store8-here : (a v : ℕ) (ram : Ram) → store8 a v ram a ≡ v % 2 ^ 8
unfolding store8
store8-here a v ram = ground arith

copy_name-step :
    (room c : ℕ) (src : List ℕ) (p : ℕ) (ram : Ram)
    → (c == 0) ≡ false
    → copy_name (suc room) (c ∷ src) p ram ≡ copy_name room src (p + 1) (store8 p c ram)
unfolding copy_name
copy_name-step room c src p ram goes_on = rw (copy_name, goes_on) refl

pub copy_name-bytes :
    (room : ℕ) (src : List ℕ) (p : ℕ) (ram : Ram)
    → IsName src
    → length src ≤ room
    → load_bytes (copy_name room src p ram) p (suc (length src)) ≡ src ++ 0 ∷ []
unfolding copy_name
copy_name-bytes zero [] p ram is fits = ap (λ b. b ∷ []) (store8-here p 0 ram)
copy_name-bytes (suc room) [] p ram is fits = ap (λ b. b ∷ []) (store8-here p 0 ram)
copy_name-bytes zero (c ∷ src) p ram is fits = absurd (omega arith)
copy_name-bytes (suc room) (c ∷ src) p ram (some, byte, is) fits =
    let goes_on : (c == 0) ≡ false = ground arith in
    let after = copy_name room src (p + 1) (store8 p c ram) in
    let here : after p ≡ c =
      copy_name-same room src (p + 1) p (store8 p c ram) (omega arith)
      ∙ store8-here p c ram
      ∙ omega arith in
    let n = suc (length src) in
    ap (λ (r : Ram). load_bytes r p (suc n)) (copy_name-step room c src p ram goes_on)
    ∙ ap (λ b. b ∷ load_bytes after (p + 1) n) here
    ∙ ap (λ l. c ∷ l) (copy_name-bytes room src (p + 1) (store8 p c ram) is (omega arith))

pub write_trampoline-same :
    (tramp i trap q : ℕ) (ram : Ram)
    → (q < tramp) ⊎ (tramp + 17 ≤ q)
    → write_trampoline tramp i trap ram q ≡ ram q
unfolding write_trampoline
write_trampoline-same tramp i trap q ram out =
    store8-same (tramp + 16) 0xe0 q _ (λ e. ground (arith, e, out))
    ∙ store8-same (tramp + 15) 0xff q _ (λ e. ground (arith, e, out))
    ∙ store64-same (tramp + 7) trap q _ (omega (arith, out))
    ∙ store8-same (tramp + 6) 0xb8 q _ (λ e. ground (arith, e, out))
    ∙ store8-same (tramp + 5) 0x48 q _ (λ e. ground (arith, e, out))
    ∙ store32-same (tramp + 1) i q _ (omega (arith, out))
    ∙ store8-same tramp 0xb9 q ram (λ e. ground (arith, e, out))

-- Every name of the list is one, and fits into its 64 bytes.
abbrev is_name : List ℕ → Bool
is_name [] = true
is_name (c ∷ s) = ltb 0 c && (ltb c (2 ^ 8) && is_name s)

is_name-IsName : (s : List ℕ) → is_name s ≡ true → IsName s
is_name-IsName [] h = tt
is_name-IsName (c ∷ s) h =
    (ground (arith, h), ground (arith, h), is_name-IsName s (ground (arith, h)))

abbrev fits_slot : ℕ → Bool
fits_slot i = leb (length (nth api_list i)) 63 && is_name (nth api_list i)

pub nth-IsName : (i : ℕ) → i < api_count → (length (nth api_list i) ≤ 63) × IsName (nth api_list i)
unfolding all_below
nth-IsName i h =
    let ok : fits_slot i ≡ true = all_below_lem 70 fits_slot i refl h in
    (ground (arith, ok), is_name-IsName (nth api_list i) (ground (arith, ok)))
