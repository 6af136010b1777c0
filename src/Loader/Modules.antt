-- ===== src/Loader/Modules.antt =====
-- What a program finds in the low memory: the list of modules, read as Windows programs read it.
use Prim.Native.String.{String}
use tartarus_hobby_os.Base.{
  ℕ, zero, suc, ◌+◌, ◌/◌, ◌≡◌, refl, List, [], ◌∷◌, codes, for_range, ◌==◌, if◌then◌else◌,
}
use tartarus_hobby_os.Ram.{Ram, store8, store16, store32, store64, load16, load64, memset_ram}
use tartarus_hobby_os.Loader.Peb.{write_name, write_module, link_modules, build_peb}

-- A text of 16-bit characters.
abbrev pub wide_text : Ram → (p count : ℕ) → List ℕ
wide_text ram p zero = []
wide_text ram p (suc n) = load16 ram p ∷ wide_text ram (p + 2) n

pub record Module : Type 0 where
  pub base : ℕ
  pub full_name : List ℕ
  pub base_name : List ℕ

-- The module whose links are at `p`.
abbrev pub module_at : Ram → ℕ → Module
module_at ram p = record {
  base = load64 ram (p + 0x20);
  full_name = wide_text ram (load64 ram (p + 0x40)) (load16 ram (p + 0x38) / 2);
  base_name = wide_text ram (load64 ram (p + 0x50)) (load16 ram (p + 0x48) / 2);
}

-- At most `left` modules of the list with this head, from the links at `p` on, by the links forward.
abbrev pub modules_from : Ram → (head left p : ℕ) → List Module
modules_from ram head zero p = []
modules_from ram head (suc n) p =
    let rest = modules_from ram head n (load64 ram p) in
    if p == head then [] else module_at ram p ∷ rest

-- The link of the entry at `p` that leads backward.
abbrev pub back : Ram → ℕ → ℕ
back ram p = load64 ram (p + 8)

abbrev pub named : ℕ → String → Module
named base name = record { base = base; full_name = codes name; base_name = codes name }

-- The process block of the thread block at the address that 0x30 holds, and the head of the list of
-- modules in the loader's data.
abbrev pub peb_of : Ram → ℕ
peb_of ram = load64 ram (load64 ram 0x30 + 0x60)

abbrev pub list_head : Ram → ℕ
list_head ram = load64 ram (peb_of ram + 0x18) + 0x20

-- Whatever the memory held before: the process block is the one that address 0x60 holds; the list of
-- modules leads through ntdll.dll at 0x02000000 and kernel32.dll at 0x03000000 back to its head; the
-- links backward of both modules lead to the entry before, but that of the head is null, so a walk
-- backward from the head finds no module.
pub build_peb-modules :
    (ram : Ram)
    → let r = build_peb ram in
      let head = list_head r in
      let first = load64 r head in
      let last = load64 r first in
      (peb_of r ≡ load64 r 0x60)
      × (modules_from r head 3 first
          ≡ named 0x0200_0000 "ntdll.dll" ∷ named 0x0300_0000 "kernel32.dll" ∷ [])
      × (back r first ≡ head)
      × (back r last ≡ first)
      × (back r head ≡ 0)
unfolding build_peb write_name write_module link_modules memset_ram store64 store32 store16 store8
    for_range
build_peb-modules ram = (refl, refl, refl, refl, refl)
