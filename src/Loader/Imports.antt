-- ===== src/Loader/Imports.antt =====
-- The part of `ExecuteFirstFile` that patches the import table: every import by name gets a stub of
-- its own in the pool at 0x04000000, which calls `StaticIatTrap` with the import's name. `trap` is
-- the address of `StaticIatTrap`. The loops' `rounds` are fuel.
use tartarus_hobby_os.Base.{
  ℕ, zero, suc, ◌+◌, ◌==◌, Option, none, some, true, false, if◌then◌else◌, bit_and, add32,
}
use tartarus_hobby_os.Ram.{Ram, store8, store64, load64, memset_ram}
use tartarus_hobby_os.Loader.Headers.{ImportDescriptor, import_descriptor_at}

abbrev pub iat_tramp_pool : ℕ
iat_tramp_pool = 0x0400_0000

-- mov rcx, func_name; mov rax, trap; jmp rax.
unfoldable pub write_stub : (tramp func_name trap : ℕ) → Ram → Ram
write_stub tramp func_name trap ram =
    let r1 = store64 (tramp + 2) func_name (store8 (tramp + 1) 0xb9 (store8 tramp 0x48 ram)) in
    let r2 = store64 (tramp + 12) trap (store8 (tramp + 11) 0xb8 (store8 (tramp + 10) 0x48 r1)) in
    store8 (tramp + 21) 0xe0 (store8 (tramp + 20) 0xff r2)

-- An import at `func_ref` whose thunk is `thunk`; an import by ordinal keeps what it has.
unfoldable pub patch_import : (trap virtual_ram thunk func_ref : ℕ) → ℕ × Ram → ℕ × Ram
patch_import trap virtual_ram thunk func_ref (tramp_offset, ram) =
    let tramp = iat_tramp_pool + tramp_offset in
    let func_name = virtual_ram + bit_and thunk 0x7fff_ffff + 2 in
    if bit_and thunk 0x8000_0000_0000_0000 == 0
    then (add32 tramp_offset 32, store64 func_ref tramp (write_stub tramp func_name trap ram))
    else (tramp_offset, ram)

-- `while (*thunkRef != 0)`.
unfoldable pub patch_thunks :
    (trap virtual_ram rounds thunk_ref func_ref : ℕ) → ℕ × Ram → Option (ℕ × Ram)
patch_thunks trap virtual_ram zero thunk_ref func_ref t = none
patch_thunks trap virtual_ram (suc rounds) thunk_ref func_ref t = elim (load64 t.1 thunk_ref == 0) [
  | true ↦ some t
  | false ↦
      patch_thunks trap virtual_ram rounds (thunk_ref + 8) (func_ref + 8)
        (patch_import trap virtual_ram (load64 t.1 thunk_ref) func_ref t)
]

-- The thunks of a descriptor: without a table of names, they are in the table itself.
abbrev pub thunks_of : ImportDescriptor → ℕ
thunks_of d = if d.original_first_thunk == 0 then d.first_thunk else d.original_first_thunk

-- `while (importDesc->Name != 0)`, with the descriptor at `p`.
unfoldable pub patch_descriptors : (trap virtual_ram rounds p : ℕ) → ℕ × Ram → Option (ℕ × Ram)
patch_descriptors trap virtual_ram zero p t = none
patch_descriptors trap virtual_ram (suc rounds) p t =
    let d = import_descriptor_at t.1 p in
    elim (d.name == 0) [
      | true ↦ some t
      | false ↦
          elim (patch_thunks trap virtual_ram rounds (virtual_ram + thunks_of d)
            (virtual_ram + d.first_thunk) t) [
              | none ↦ none
              | some t' ↦ patch_descriptors trap virtual_ram rounds (p + 20) t'
            ]
    ]

unfoldable pub patch_imports : (trap virtual_ram rounds import_dir_rva : ℕ) → Ram → Option Ram
patch_imports trap virtual_ram rounds import_dir_rva ram =
    if import_dir_rva == 0
    then some ram
    else elim (patch_descriptors trap virtual_ram rounds (virtual_ram + import_dir_rva)
        (0, memset_ram iat_tramp_pool 0 0x5000 ram)) [
          | none ↦ none
          | some (tramp_offset, ram') ↦ some ram'
        ]
