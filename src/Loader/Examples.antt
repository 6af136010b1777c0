-- ===== src/Loader/Examples.antt =====
-- The loader at a concrete stub and memory.
use tartarus_hobby_os.Base.{◌≡◌, refl, [], ◌∷◌, ◌==◌, if◌then◌else◌}
use tartarus_hobby_os.Ram.{Ram, load64}
use tartarus_hobby_os.Loader.EntryPoint.{
  search, has_msvc_prologue, gcc_target, find_msvc, find_original_entry_point,
}
use tartarus_hobby_os.Loader.Search.{Found, find_original_entry_point-Found}
use tartarus_hobby_os.Loader.Peb.{build_peb}
use tartarus_hobby_os.Loader.Modules.{
  named, peb_of, list_head, modules_from, back, build_peb-modules,
}

-- call main; mov ecx, eax; call exit, at 0x1003.
abbrev stub : Ram
stub a =
    if a == 0x1003
    then 0xe8
    else if a == 0x1004
    then 0x20
    else if a == 0x1008
    then 0x89
    else if a == 0x1009
    then 0xc1
    else if a == 0x100a
    then 0xe8
    else 0

find_original_entry_point-Found_example : Found stub 0x1000 (find_original_entry_point stub 0x1000)
find_original_entry_point-Found_example = find_original_entry_point-Found stub 0x1000

build_peb-modules_example :
    let r = build_peb (λ a. 0xcc) in
    let head = list_head r in
    let first = load64 r head in
    let last = load64 r first in
    (peb_of r ≡ load64 r 0x60)
    × (modules_from r head 3 first
        ≡ named 0x0200_0000 "ntdll.dll" ∷ named 0x0300_0000 "kernel32.dll" ∷ [])
    × (back r first ≡ head)
    × (back r last ≡ first)
    × (back r head ≡ 0)
build_peb-modules_example = build_peb-modules (λ a. 0xcc)

-- The target of the call, whose offset is 0x20.
stub_main : find_original_entry_point stub 0x1000 ≡ 0x1028
unfolding find_original_entry_point find_msvc has_msvc_prologue search gcc_target
stub_main = refl
