-- ===== src/Loader/EntryPoint.antt =====
-- `FindOriginalEntryPoint` of src/fat32.c: the search for the call of `main` in a start-up stub.
use tartarus_hobby_os.Base.{
  ℕ, zero, suc, ◌+◌, ◌-◌, ◌^◌, Bool, ◌&&◌, ◌||◌, Option, none, some, ltb, ◌==◌, if◌then◌else◌,
  add64,
}
use tartarus_hobby_os.Ram.{Ram, load32}

-- An INT32 in the memory, as the 64-bit number that is added to a pointer.
abbrev pub load_int32 : Ram → ℕ → ℕ
load_int32 ram p = let x = load32 ram p in if ltb x (2 ^ 31) then x else x + (2 ^ 64 - 2 ^ 32)

-- A loop that returns what the first round with a result has; `left` rounds from `i` on.
unfoldable pub search : (ℕ → Option ℕ) → (left i : ℕ) → Option ℕ
search f zero i = none
search f (suc n) i = elim (f i) [ some t ↦ some t | none ↦ search f n (suc i) ]

-- `lea rcx, [main]` at `common_main + k`.
unfoldable pub lea_target : Ram → (common_main k : ℕ) → Option ℕ
lea_target ram common_main k =
    let p = add64 common_main k in
    if (ram p == 0x48) && (ram (p + 1) == 0x8d) && (ram (p + 2) == 0x0d)
    then some (add64 (p + 7) (load_int32 ram (p + 3)))
    else none

-- A jump at `entry_point_addr + i`, and the scan behind it.
unfoldable pub msvc_target : Ram → (entry_point_addr i : ℕ) → Option ℕ
msvc_target ram entry_point_addr i =
    let common_main =
      add64 (entry_point_addr + i + 5) (load_int32 ram (entry_point_addr + i + 1)) in
    if ram (entry_point_addr + i) == 0xe9 then search (lea_target ram common_main) 128 0 else none

unfoldable pub has_msvc_prologue : Ram → ℕ → Bool
has_msvc_prologue ram e =
    ((ram e == 0x48) && (ram (e + 1) == 0x83) && (ram (e + 2) == 0xec) && (ram (e + 3) == 0x28))
    && (ram (e + 4) == 0xe8)

-- A call at `entry_point_addr + i` whose result goes to a second call.
unfoldable pub gcc_target : Ram → (entry_point_addr i : ℕ) → Option ℕ
gcc_target ram entry_point_addr i =
    let p = entry_point_addr + i in
    let short = (ram (p + 5) == 0x89) && (ram (p + 6) == 0xc1) && (ram (p + 7) == 0xe8) in
    let long =
      (ram (p + 5) == 0x48)
      && (ram (p + 6) == 0x89)
      && (ram (p + 7) == 0xc1)
      && (ram (p + 8) == 0xe8) in
    if (ram p == 0xe8) && (short || long)
    then some (add64 (p + 5) (load_int32 ram (p + 1)))
    else none

unfoldable pub find_msvc : Ram → ℕ → Option ℕ
find_msvc ram entry_point_addr =
    if has_msvc_prologue ram entry_point_addr
    then search (msvc_target ram entry_point_addr) 27 5
    else none

unfoldable pub find_original_entry_point : Ram → ℕ → ℕ
find_original_entry_point ram entry_point_addr = elim (find_msvc ram entry_point_addr) [
  | some main ↦ main
  | none ↦ elim (search (gcc_target ram entry_point_addr) 2048 0) [
    | some main ↦ main
    | none ↦ entry_point_addr
  ]
]
