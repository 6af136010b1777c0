-- ===== src/Loader/Code.antt =====
-- The instructions that `FindOriginalEntryPoint` looks for, by their bytes.
use tartarus_hobby_os.Base.{
  ℕ, ◌%◌, ◌^◌, ◌-◌, List, [], ◌∷◌, sym, add64, ltb, ==_iff, ◌∙◌, if◌then◌else◌, ◌+◌, ◌≤◌, ◌<◌, ◌≡◌,
  refl, ◌⊎◌, inl, inr, arith, Bool, true, false, Bool-cases, none, some, ◌==◌,
}
use tartarus_hobby_os.Ram.{Ram, load32}
use tartarus_hobby_os.Loader.EntryPoint.{
  load_int32, lea_target, search, msvc_target, has_msvc_prologue, gcc_target,
}
use tartarus_hobby_os.Loader.First.{First, Decides, First-search, search-First}

-- The bytes of an instruction stand from `p + k` on.
abbrev pub Code : Ram → (p k : ℕ) → List ℕ → Type 0
Code ram p k [] = Unit
Code ram p k (c ∷ cs) = (ram (p + k) ≡ c) × Code ram p (k + 1) cs

-- The four bytes at `p` end an instruction, and are its displacement: a number with a sign, from the
-- next instruction on, which leads to `t`. Addresses have 64 bits.
abbrev pub LeadsTo : Ram → (p t : ℕ) → Type 0
LeadsTo ram p t =
    ((load32 ram p < 2 ^ 31) × (t ≡ (p + 4 + load32 ram p) % 2 ^ 64))
    ⊎ ((2 ^ 31 ≤ load32 ram p) × (t ≡ (p + 4 + 2 ^ 64 + load32 ram p - 2 ^ 32) % 2 ^ 64))

-- lea rcx, [t] at the byte `k` from `main` on.
abbrev pub IsLea : Ram → (main k t : ℕ) → Type 0
IsLea ram main k t =
    let p = (main + k) % 2 ^ 64 in
    (ram p ≡ 0x48) × Code ram p 1 (0x8d ∷ 0x0d ∷ []) × LeadsTo ram (p + 3) t

-- A jump at the byte `i` of the stub, to code whose first such load within 128 bytes is of `t`.
abbrev pub IsMsvcJump : Ram → (entry i t : ℕ) → Type 0
IsMsvcJump ram entry i t =
    (ram (entry + i) ≡ 0xe9)
    × ((main : ℕ) × LeadsTo ram (entry + i + 1) main × First (IsLea ram main) 0 128 t)

-- A call of `t` at the byte `i` of the stub, then mov ecx, eax or mov rcx, rax, and a second call.
abbrev pub IsGccCall : Ram → (entry i t : ℕ) → Type 0
IsGccCall ram entry i t =
    (ram (entry + i) ≡ 0xe8)
    × (Code ram (entry + i) 5 (0x89 ∷ 0xc1 ∷ 0xe8 ∷ [])
        ⊎ Code ram (entry + i) 5 (0x48 ∷ 0x89 ∷ 0xc1 ∷ 0xe8 ∷ []))
    × LeadsTo ram (entry + i + 1) t

-- sub rsp, 28h, and a call.
abbrev pub IsMsvcStub : Ram → ℕ → Type 0
IsMsvcStub ram entry = (ram entry ≡ 0x48) × Code ram entry 1 (0x83 ∷ 0xec ∷ 0x28 ∷ 0xe8 ∷ [])

displaced : (ram : Ram) (p q t : ℕ) → q ≡ p + 4 → add64 q (load_int32 ram p) ≡ t → LeadsTo ram p t
displaced ram p q t e h = elim (Bool-cases (ltb (load32 ram p) (2 ^ 31))) [
  | inl forward ↦ inl (ground arith, sym h ∙ rw forward (omega (arith, e)))
  | inr backward ↦
      let big : 2 ^ 31 ≤ load32 ram p = ground arith in
      inr (big, sym h ∙ rw backward (omega (arith, e, big)))
]

displaced_back :
    (ram : Ram) (p q t : ℕ) → q ≡ p + 4 → LeadsTo ram p t → add64 q (load_int32 ram p) ≡ t
displaced_back ram p q t e (inl h) =
    let forward : ltb (load32 ram p) (2 ^ 31) ≡ true = ground (arith, h.0) in
    rw forward (omega (arith, e, h.1))
displaced_back ram p q t e (inr h) =
    let backward : ltb (load32 ram p) (2 ^ 31) ≡ false = ground (arith, h.0) in
    rw backward (omega (arith, e, h.0, h.1))

guarded : (b : Bool) (x t : ℕ) → (if b then some x else none) ≡ some t → (b ≡ true) × (x ≡ t)
guarded true x t e = (refl, cc e)
guarded false x t e = absurd (cc e)

guard : (b : Bool) (x t : ℕ) → b ≡ true → x ≡ t → (if b then some x else none) ≡ some t
guard b x t e e' = rw (e, e')

module _ (ram : Ram) where
  lea_target-Decides : (main : ℕ) → Decides (lea_target ram main) (IsLea ram main)
  unfolding Decides lea_target
  lea_target-Decides main = (
    λ k t h.
        let p = add64 main k in
        let g = guarded _ _ t h in
        let first : ram p ≡ 0x48 = ground (arith, g.0) in
        let second : ram (p + 1) ≡ 0x8d = ground (arith, g.0) in
        let third : ram (p + 2) ≡ 0x0d = ground (arith, g.0) in
        (first, (second, (third, tt)), displaced ram (p + 3) (p + 7) t (omega arith) g.1),
    λ k t h. guard _ _ t (ground (arith, h.0, h.1)) (displaced_back ram _ _ t (omega arith) h.2),
  )

  pub gcc_target-Decides : (entry : ℕ) → Decides (gcc_target ram entry) (IsGccCall ram entry)
  unfolding Decides gcc_target
  gcc_target-Decides entry = (
    λ k t h.
        let p = entry + k in
        let g = guarded _ _ t h in
        let first : ram p ≡ 0xe8 = ground (arith, g.0) in
        let rest : Code ram p 5 (0x89 ∷ 0xc1 ∷ 0xe8 ∷ [])
            ⊎ Code ram p 5 (0x48 ∷ 0x89 ∷ 0xc1 ∷ 0xe8 ∷ []) =
          ground (arith, g.0) in
        (first, rest, displaced ram (p + 1) (p + 5) t (omega arith) g.1),
    λ k t h. guard _ _ t (ground (arith, h.0, h.1)) (displaced_back ram _ _ t (omega arith) h.2),
  )

  pub has_msvc_prologue-IsMsvcStub :
      (entry : ℕ)
      → ((has_msvc_prologue ram entry ≡ true) × IsMsvcStub ram entry)
        ⊎ ((has_msvc_prologue ram entry ≡ false) × ¬ IsMsvcStub ram entry)
  unfolding has_msvc_prologue
  has_msvc_prologue-IsMsvcStub entry = elim (Bool-cases (has_msvc_prologue ram entry)) [
    | inl hit ↦ inl (hit, ground (arith, hit))
    | inr miss ↦ inr (miss, λ h. ground (arith, miss, h))
  ]

  pub msvc_target-Decides : (entry : ℕ) → Decides (msvc_target ram entry) (IsMsvcJump ram entry)
  unfolding Decides msvc_target
  msvc_target-Decides entry = (
    λ k t h. elim (Bool-cases (ram (entry + k) == 0xe9)) [
      | inl jump ↦
          let main = add64 (entry + k + 5) (load_int32 ram (entry + k + 1)) in
          let first : search (lea_target ram main) 128 0 ≡ some t = rw jump at h in
          (
            (==_iff (ram (entry + k)) 0xe9).0 jump,
            (
              main,
              displaced ram (entry + k + 1) (entry + k + 5) main (omega arith) refl,
              search-First (lea_target ram main) (IsLea ram main) (lea_target-Decides main) 128 0 t
                  first,
            ),
          )
      | inr other ↦ absurd (ground (arith, other, h))
    ],
    λ k t (jump, (main, leads, first)).
        let here : (ram (entry + k) == 0xe9) ≡ true = ground (arith, jump) in
        let same = displaced_back ram (entry + k + 1) (entry + k + 5) main (omega arith) leads in
        rw (here, same)
          (First-search (lea_target ram main) (IsLea ram main) (lea_target-Decides main) 128 0 t
            first),
  )
