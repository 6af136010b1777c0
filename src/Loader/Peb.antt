-- ===== src/Loader/Peb.antt =====
-- The structures of Windows that `ExecuteFirstFile` puts into the low memory: the thread block, the
-- process block, the list of the loaded modules with its two entries, and the trap at address 0.
use tartarus_hobby_os.Base.{ℕ, ◌+◌, List, [], ◌∷◌, codes}
use tartarus_hobby_os.Ram.{Ram, store8, store16, store32, store64, memset_ram}

abbrev pub fake_teb : ℕ
fake_teb = 0x4000

abbrev pub fake_peb : ℕ
fake_peb = 0x5000

abbrev pub fake_ldr : ℕ
fake_ldr = 0x6000

abbrev pub entry1_ntdll : ℕ
entry1_ntdll = 0x7000

abbrev pub entry2_kernel : ℕ
entry2_kernel = 0x8000

-- A text and its terminator, in characters of 16 bits.
unfoldable pub write_name : ℕ → List ℕ → Ram → Ram
write_name p [] ram = store16 p 0 ram
write_name p (c ∷ s) ram = write_name (p + 2) s (store16 p c ram)

-- The lengths and the pointers of the module's two names, which are the same text.
unfoldable pub write_module : (entry name length maximum : ℕ) → Ram → Ram
write_module entry name length maximum ram =
    let r1 =
      store64 (entry + 0x50) name
        (store16 (entry + 0x4a) maximum (store16 (entry + 0x48) length ram)) in
    store64 (entry + 0x60) name (store16 (entry + 0x5a) maximum (store16 (entry + 0x58) length r1))

-- The two lists that the modules are linked by, with the head in the loader's data.
unfoldable pub link_modules : Ram → Ram
link_modules ram =
    let r1 = store64 (fake_ldr + 0x20) (entry1_ntdll + 0x10) ram in
    let r2 = store64 (entry1_ntdll + 0x10) (entry2_kernel + 0x10) r1 in
    let r3 = store64 (entry1_ntdll + 0x18) (fake_ldr + 0x20) r2 in
    let r4 = store64 (entry2_kernel + 0x10) (fake_ldr + 0x20) r3 in
    store64 (entry2_kernel + 0x18) (entry1_ntdll + 0x10) r4

unfoldable pub build_peb : Ram → Ram
build_peb ram =
    let r1 = memset_ram fake_ldr 0 0x100 (memset_ram fake_peb 0 0x100 ram) in
    let r2 = store64 (fake_peb + 0x18) fake_ldr r1 in
    let r3 = memset_ram entry2_kernel 0 0x100 (memset_ram entry1_ntdll 0 0x100 r2) in
    let r4 = store64 (entry1_ntdll + 0x30) 0x0200_0000 (link_modules r3) in
    let r5 = write_module entry1_ntdll 0x7500 18 20 (write_name 0x7500 (codes "ntdll.dll") r4) in
    let r6 =
      write_name 0x8500 (codes "kernel32.dll") (store64 (entry2_kernel + 0x30) 0x0300_0000 r5) in
    let r7 = write_module entry2_kernel 0x8500 24 26 r6 in
    let r8 = store64 (fake_teb + 0x60) fake_peb (memset_ram fake_teb 0 0x100 r7) in
    store64 0x60 fake_peb (store64 0x30 fake_teb r8)

-- mov ecx, 999; mov rax, trap; jmp rax, where `trap` is the address of `UniversalApiTrap`.
unfoldable pub plant_abyss : (trap : ℕ) → Ram → Ram
plant_abyss trap ram =
    let r1 = store8 6 0xb8 (store8 5 0x48 (store32 1 999 (store8 0 0xb9 ram))) in
    store8 16 0xe0 (store8 15 0xff (store64 7 trap r1))
