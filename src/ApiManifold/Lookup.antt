-- ===== src/ApiManifold/Lookup.antt =====
-- The export tables of `BuildUniversalExportTable`, as a program reads them that looks for a name.
use tartarus_hobby_os.Base.{
  ℕ, suc, ◌+◌, ◌*◌, ◌%◌, ◌^◌, ◌≤◌, ◌<◌, ◌≡◌, ◌≢◌, ◌⊎◌, inl, inr, ◌∙◌, arith, Bool-cases, List, [],
  ◌∷◌, ◌++◌, length, ◌==◌, for_range_inv,
}
use tartarus_hobby_os.Ram.{
  Ram, store8, store16, store32, store64, load16, load32, load64, load_bytes,
}
use tartarus_hobby_os.Ram.Laws.{
  store8-same, store16-same, store32-same, store64-same, load16-store16, load32-store32,
  load64-store64,
}
use tartarus_hobby_os.ApiManifold.{nth}
use tartarus_hobby_os.ApiManifold.Names.{api_list, api_count}
use tartarus_hobby_os.ApiManifold.Exports.{
  copy_name, write_headers, write_trampoline, write_export, build_universal_export_table,
}
use tartarus_hobby_os.ApiManifold.Rounds.{
  SameAt, load16-same, load32-same, load64-same, load_bytes-same, copy_name-same, copy_name-bytes,
  write_trampoline-same, store8-here, nth-IsName,
}

-- The code at `p`: mov ecx, i; mov rax, trap; jmp rax.
pub record IsStub (trap p i : ℕ) (ram : Ram) : Type 0 where
  pub mov_ecx : ram p ≡ 0xb9
  pub number : load32 ram (p + 1) ≡ i
  pub mov_rax : (ram (p + 5) ≡ 0x48) × (ram (p + 6) ≡ 0xb8)
  pub target : load64 ram (p + 7) ≡ trap % 2 ^ 64
  pub jmp_rax : (ram (p + 15) ≡ 0xff) × (ram (p + 16) ≡ 0xe0)

-- In the image at `base`, name `i` is the list's, with its terminator, and its ordinal leads to a stub.
pub record IsExported (trap base i : ℕ) (ram : Ram) : Type 0 where
  pub name_rva : load32 ram (base + 0x400 + i * 4) ≡ 0x800 + 64 * i
  pub name :
      load_bytes ram (base + (0x800 + 64 * i)) (suc (length (nth api_list i)))
      ≡ nth api_list i ++ 0 ∷ []
  pub ordinal : load16 ram (base + 0x600 + i * 2) ≡ i
  pub function_rva : load32 ram (base + 0x200 + i * 4) ≡ 0x2000 + 32 * i
  pub stub : IsStub trap (base + (0x2000 + 32 * i)) i ram

-- The bytes that belong to export `i`.
record SameExport (base i : ℕ) (r r' : Ram) : Type 0 where
  function : SameAt (base + 0x200 + i * 4) 4 r r'
  name_rva : SameAt (base + 0x400 + i * 4) 4 r r'
  ordinal : SameAt (base + 0x600 + i * 2) 2 r r'
  name : SameAt (base + (0x800 + 64 * i)) 64 r r'
  stub : SameAt (base + (0x2000 + 32 * i)) 17 r r'

IsStub-same :
    (trap p i : ℕ) (r r' : Ram) → SameAt p 17 r r' → IsStub trap p i r → IsStub trap p i r'
IsStub-same trap p i r r' same is = record {
  mov_ecx = same p (omega arith) (omega arith) ∙ is.mov_ecx;
  number = load32-same r r' (p + 1) (λ q low high. same q (omega arith) (omega arith)) ∙ is.number;
  mov_rax = (
    same (p + 5) (omega arith) (omega arith) ∙ is.mov_rax.0,
    same (p + 6) (omega arith) (omega arith) ∙ is.mov_rax.1,
  );
  target = load64-same r r' (p + 7) (λ q low high. same q (omega arith) (omega arith)) ∙ is.target;
  jmp_rax = (
    same (p + 15) (omega arith) (omega arith) ∙ is.jmp_rax.0,
    same (p + 16) (omega arith) (omega arith) ∙ is.jmp_rax.1,
  );
}

IsExported-same :
    (trap base i : ℕ) (r r' : Ram)
    → i < api_count
    → SameExport base i r r'
    → IsExported trap base i r
    → IsExported trap base i r'
IsExported-same trap base i r r' below same is =
    let short = (nth-IsName i below).0 in
    record {
      name_rva = load32-same r r' _ same.name_rva ∙ is.name_rva;
      name =
          load_bytes-same r r' (suc (length (nth api_list i))) _
            (λ q low high. same.name q low (omega (arith, short)))
          ∙ is.name;
      ordinal = load16-same r r' _ same.ordinal ∙ is.ordinal;
      function_rva = load32-same r r' _ same.function ∙ is.function_rva;
      stub = IsStub-same trap _ i r r' same.stub is.stub;
    }

write_trampoline-IsStub :
    (tramp i trap : ℕ) (ram : Ram)
    → i < 2 ^ 32
    → IsStub trap tramp i (write_trampoline tramp i trap ram)
unfolding write_trampoline
write_trampoline-IsStub tramp i trap ram small =
    let s0 = store8 tramp 0xb9 ram in
    let s1 = store32 (tramp + 1) i s0 in
    let s2 = store8 (tramp + 6) 0xb8 (store8 (tramp + 5) 0x48 s1) in
    let s3 = store64 (tramp + 7) trap s2 in
    let s4 = store8 (tramp + 16) 0xe0 (store8 (tramp + 15) 0xff s3) in
    let end : (q : ℕ) → q < tramp + 15 → s4 q ≡ s3 q = λ q h.
      store8-same (tramp + 16) 0xe0 q _ (λ e. omega (arith, e))
      ∙ store8-same (tramp + 15) 0xff q s3 (λ e. omega (arith, e)) in
    let middle : (q : ℕ) → q < tramp + 7 → s4 q ≡ s2 q =
      λ q h. end q (omega arith) ∙ store64-same (tramp + 7) trap q s2 (omega arith) in
    let early : (q : ℕ) → q < tramp + 5 → s4 q ≡ s1 q = λ q h.
      middle q (omega arith)
      ∙ store8-same (tramp + 6) 0xb8 q _ (λ e. omega (arith, e))
      ∙ store8-same (tramp + 5) 0x48 q s1 (λ e. omega (arith, e)) in
    record {
      mov_ecx =
          early tramp (omega arith)
          ∙ store32-same (tramp + 1) i tramp s0 (omega arith)
          ∙ store8-here tramp 0xb9 ram;
      number =
          load32-same s1 s4 (tramp + 1) (λ q low high. early q (omega arith))
          ∙ load32-store32 (tramp + 1) i s0
          ∙ omega arith;
      mov_rax = (
        middle (tramp + 5) (omega arith)
            ∙ store8-same (tramp + 6) 0xb8 (tramp + 5) _ (λ e. omega (arith, e))
            ∙ store8-here (tramp + 5) 0x48 s1,
        middle (tramp + 6) (omega arith) ∙ store8-here (tramp + 6) 0xb8 _,
      );
      target =
          load64-same s3 s4 (tramp + 7) (λ q low high. end q (omega arith))
          ∙ load64-store64 (tramp + 7) trap s2;
      jmp_rax = (
        store8-same (tramp + 16) 0xe0 (tramp + 15) _ (λ e. omega (arith, e))
            ∙ store8-here (tramp + 15) 0xff s3,
        store8-here (tramp + 16) 0xe0 _,
      );
    }

-- The addresses that round `i` writes to.
abbrev Outside : (base i q : ℕ) → Type 0
Outside base i q =
    ((q < base + 0x200 + i * 4) ⊎ (base + 0x200 + i * 4 + 4 ≤ q))
    × ((q < base + 0x400 + i * 4) ⊎ (base + 0x400 + i * 4 + 4 ≤ q))
    × ((q < base + 0x600 + i * 2) ⊎ (base + 0x600 + i * 2 + 2 ≤ q))
    × ((q < base + (0x800 + 64 * i)) ⊎ (base + (0x800 + 64 * i) + 64 ≤ q))
    × ((q < base + (0x2000 + 32 * i)) ⊎ (base + (0x2000 + 32 * i) + 17 ≤ q))

module _ (trap base i : ℕ) (below : i < api_count) (ram : Ram) where
  write_export-elsewhere : (q : ℕ) → Outside base i q → write_export trap base i ram q ≡ ram q
  unfolding write_export
  write_export-elsewhere q (functions, names, ordinals, texts, stubs) =
      store32-same (base + 0x200 + i * 4) (0x2000 + 32 * i) q _ functions
      ∙ write_trampoline-same (base + (0x2000 + 32 * i)) i trap q _ stubs
      ∙ store16-same (base + 0x600 + i * 2) i q _ ordinals
      ∙ store32-same (base + 0x400 + i * 4) (0x800 + 64 * i) q _ names
      ∙ copy_name-same 127 (nth api_list i) (base + (0x800 + 64 * i)) q ram
          (omega (arith, texts, (nth-IsName i below).0))

  write_export-SameExport :
      (j : ℕ) → j < api_count → j ≢ i → SameExport base j ram (write_export trap base i ram)
  write_export-SameExport j low ne = record {
    function = λ q from to. write_export-elsewhere q (omega (arith, ne));
    name_rva = λ q from to. write_export-elsewhere q (omega (arith, ne));
    ordinal = λ q from to. write_export-elsewhere q (omega (arith, ne));
    name = λ q from to. write_export-elsewhere q (omega (arith, ne));
    stub = λ q from to. write_export-elsewhere q (omega (arith, ne));
  }

  write_export-IsExported : IsExported trap base i (write_export trap base i ram)
  unfolding write_export
  write_export-IsExported =
      let short = (nth-IsName i below).0 in
      let r1 = copy_name 127 (nth api_list i) (base + (0x800 + 64 * i)) ram in
      let r2 = store32 (base + 0x400 + i * 4) (0x800 + 64 * i) r1 in
      let r3 = store16 (base + 0x600 + i * 2) i r2 in
      let r4 = write_trampoline (base + (0x2000 + 32 * i)) i trap r3 in
      let r5 = store32 (base + 0x200 + i * 4) (0x2000 + 32 * i) r4 in
      let last : (q : ℕ) → base + 0x400 ≤ q → r5 q ≡ r4 q =
        λ q h. store32-same (base + 0x200 + i * 4) (0x2000 + 32 * i) q r4 (omega (arith, below)) in
      let tables : (q : ℕ) → base + 0x400 ≤ q → q < base + 0x2000 → r5 q ≡ r3 q = λ q h h'.
        last q h ∙ write_trampoline-same (base + (0x2000 + 32 * i)) i trap q r3 (omega arith) in
      record {
        name_rva =
            load32-same r2 r5 _ (λ q low high.
              tables q (omega arith) (omega (arith, below))
              ∙ store16-same (base + 0x600 + i * 2) i q r2 (omega (arith, below)))
            ∙ load32-store32 (base + 0x400 + i * 4) (0x800 + 64 * i) r1
            ∙ omega (arith, below);
        name =
            load_bytes-same r1 r5 (suc (length (nth api_list i))) _ (λ q low high.
              tables q (omega arith) (omega (arith, below, short))
              ∙ store16-same (base + 0x600 + i * 2) i q r2 (omega (arith, below))
              ∙ store32-same (base + 0x400 + i * 4) (0x800 + 64 * i) q r1 (omega (arith, below)))
            ∙ copy_name-bytes 127 (nth api_list i) _ ram (nth-IsName i below).1
                (omega (arith, short));
        ordinal =
            load16-same r3 r5 _ (λ q low high. tables q (omega arith) (omega (arith, below)))
            ∙ load16-store16 (base + 0x600 + i * 2) i r2
            ∙ omega (arith, below);
        function_rva =
            load32-store32 (base + 0x200 + i * 4) (0x2000 + 32 * i) r4 ∙ omega (arith, below);
        stub =
            IsStub-same trap _ i r4 r5 (λ q low high. last q (omega arith))
              (write_trampoline-IsStub (base + (0x2000 + 32 * i)) i trap r3 (omega (arith, below)));
      }

-- Whatever the memory held before: in the image that is built at `base`, every name of the list stands
-- at its place in the table of names, with its terminator, and its ordinal leads through the table of
-- functions to a stub of its own, which calls the trap with the name's place in the list.
pub build_universal_export_table-IsExported :
    (trap base : ℕ) (dll_internal_name : List ℕ) (ram : Ram) (i : ℕ)
    → i < api_count
    → IsExported trap base i (build_universal_export_table trap base dll_internal_name ram)
unfolding build_universal_export_table
build_universal_export_table-IsExported trap base dll_internal_name ram i below =
    let r1 = copy_name 127 dll_internal_name (base + 0x180) (write_headers base ram) in
    for_range_inv (λ n r. (j : ℕ) → j < n → j < api_count → IsExported trap base j r)
      (λ k r. write_export trap base k r) api_count 0 api_count r1 (omega arith)
      (λ k r lo hi done j h in_list. elim (Bool-cases (j == k)) [
        | inl now ↦
            let e : j ≡ k = ground arith in
            rw e (write_export-IsExported trap base k (omega (arith, hi)) r)
        | inr before ↦
            IsExported-same trap base j r (write_export trap base k r) in_list
              (write_export-SameExport trap base k (omega (arith, hi)) r j in_list
                (λ e. ground (arith, e)))
              (done j (ground arith) in_list)
      ])
      (λ j h in_list. absurd (omega arith)) i below below
