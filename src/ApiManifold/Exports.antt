-- ===== src/ApiManifold/Exports.antt =====
-- `BuildUniversalExportTable`: the image of a library that exports every name of the list, each with
-- a stub that enters the trap with the name's number.
use tartarus_hobby_os.Base.{ℕ, zero, suc, ◌+◌, ◌*◌, ◌==◌, List, [], ◌∷◌, if◌then◌else◌, for_range}
use tartarus_hobby_os.Ram.{Ram, store8, store16, store32, store64}
use tartarus_hobby_os.ApiManifold.{nth}
use tartarus_hobby_os.ApiManifold.Names.{api_list, api_count}

-- `CopyApiName` into the memory, with `room` bytes left of the 127 that it copies at most.
unfoldable pub copy_name : (room : ℕ) → List ℕ → ℕ → Ram → Ram
copy_name zero src p ram = store8 p 0 ram
copy_name (suc room) [] p ram = store8 p 0 ram
copy_name (suc room) (c ∷ src) p ram =
    let rest = copy_name room src (p + 1) (store8 p c ram) in
    if c == 0 then store8 p 0 ram else rest

-- The headers, and the directory of exports.
unfoldable pub write_headers : ℕ → Ram → Ram
write_headers base ram =
    let r1 =
      store32 (base + 0x40) 0x0000_4550 (store32 (base + 0x3c) 0x40 (store16 base 0x5a4d ram)) in
    let r2 = store16 (base + 0x58) 0x020b (store16 (base + 0x54) 0xf0 r1) in
    let r3 = store32 (base + 0xcc) 0x100 (store32 (base + 0xc8) 0x100 r2) in
    let exp_dir = base + 0x100 in
    let r4 = store32 (exp_dir + 0x14) api_count (store32 (exp_dir + 0x0c) 0x180 r3) in
    let r5 = store32 (exp_dir + 0x1c) 0x200 (store32 (exp_dir + 0x18) api_count r4) in
    store32 (exp_dir + 0x24) 0x600 (store32 (exp_dir + 0x20) 0x400 r5)

-- mov ecx, i; mov rax, trap; jmp rax.
unfoldable pub write_trampoline : (tramp i trap : ℕ) → Ram → Ram
write_trampoline tramp i trap ram =
    let r1 =
      store8 (tramp + 6) 0xb8
        (store8 (tramp + 5) 0x48 (store32 (tramp + 1) i (store8 tramp 0xb9 ram))) in
    store8 (tramp + 16) 0xe0 (store8 (tramp + 15) 0xff (store64 (tramp + 7) trap r1))

-- A round: before round `i`, `string_pool_rva` is 0x800 + 64 * i and `tramp_pool_rva` is
-- 0x2000 + 32 * i.
unfoldable pub write_export : (trap base i : ℕ) → Ram → Ram
write_export trap base i ram =
    let string_pool_rva = 0x800 + 64 * i in
    let tramp_pool_rva = 0x2000 + 32 * i in
    let r1 = copy_name 127 (nth api_list i) (base + string_pool_rva) ram in
    let r2 = store16 (base + 0x600 + i * 2) i (store32 (base + 0x400 + i * 4) string_pool_rva r1) in
    let r3 = write_trampoline (base + tramp_pool_rva) i trap r2 in
    store32 (base + 0x200 + i * 4) tramp_pool_rva r3

-- `trap` is the address of `UniversalApiTrap`.
unfoldable pub build_universal_export_table : (trap base : ℕ) → List ℕ → Ram → Ram
build_universal_export_table trap base dll_internal_name ram =
    let r1 = copy_name 127 dll_internal_name (base + 0x180) (write_headers base ram) in
    for_range api_count 0 (λ i r. write_export trap base i r) r1
