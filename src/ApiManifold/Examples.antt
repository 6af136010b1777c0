-- ===== src/ApiManifold/Examples.antt =====
-- The theorems on the traps at concrete calls.
use tartarus_hobby_os.Base.{
  ℕ, ◌+◌, ◌*◌, ◌≡◌, ◌⊎◌, true, false, some, List, codes, replicate, arith, inr,
}
use tartarus_hobby_os.ApiManifold.Exports.{build_universal_export_table}
use tartarus_hobby_os.ApiManifold.Lookup.{IsExported, build_universal_export_table-IsExported}
use tartarus_hobby_os.Text.{is_anti_debug}
use tartarus_hobby_os.Text.Compare.{c_string}
use tartarus_hobby_os.Ram.{load64}
use tartarus_hobby_os.Display.{Screen}
use tartarus_hobby_os.ApiManifold.{
  show_trap, universal_api_trap, deploy_god_object, static_iat_trap,
}
use tartarus_hobby_os.ApiManifold.Traps.{universal_api_trap-name_of, static_iat_trap-stub}

abbrev screen : Screen
screen = record {
  frame_buffer = 0x8000_0000;
  pixel = λ q. 0;
  pitch = 1024;
  width = 1024;
  height = 768;
  cursor_x = 0;
  cursor_y = 16;
}

abbrev buffer : List ℕ
buffer = replicate 128 0

universal_api_trap-name_of_example :
    (noted : List ℕ) × (universal_api_trap 2 buffer screen ≡ some (noted, show_trap noted screen))
    × (c_string noted ≡ codes "CreateFileA")
universal_api_trap-name_of_example =
    universal_api_trap-name_of 2 buffer screen (omega arith) (inr (omega arith))

static_iat_trap-stub_example :
    let result = (static_iat_trap (codes "VirtualAlloc") screen).0 in
    ((is_anti_debug (codes "VirtualAlloc") ≡ true) × (result ≡ 0))
    ⊎ ((is_anti_debug (codes "VirtualAlloc") ≡ false)
        × (load64 (deploy_god_object 0x10_0800 (λ a. 0)) (result + 5 * 8) ≡ 0x10_0800))
static_iat_trap-stub_example =
    static_iat_trap-stub (codes "VirtualAlloc") screen 0x10_0800 (λ a. 0) 5 (omega arith)

build_universal_export_table-IsExported_example :
    IsExported 0x10_1000 0x0200_0000 5
      (build_universal_export_table 0x10_1000 0x0200_0000 (codes "ntdll.dll") (λ a. 0))
build_universal_export_table-IsExported_example =
    build_universal_export_table-IsExported 0x10_1000 0x0200_0000 (codes "ntdll.dll") (λ a. 0) 5
      (omega arith)
