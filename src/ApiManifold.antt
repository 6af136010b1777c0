-- ===== src/ApiManifold.antt =====
-- src/api_manifold.c: the traps that programs reach in place of the functions they import, and the
-- zone at 0x06000000. `last_api` is the buffer `GlobalLastAPI` of 128 bytes.
pub mod Names
pub mod Traps
pub mod Exports
pub mod Rounds
pub mod Lookup
mod Examples
use Names.{api_list, api_count}
use tartarus_hobby_os.Base.{
  ℕ, zero, suc, ◌+◌, ◌*◌, Bool, Option, none, some, List, [], ◌∷◌, ◌==◌, ltb, if◌then◌else◌, set,
  codes, for_range,
}
use tartarus_hobby_os.Ram.{Ram, store64}
use tartarus_hobby_os.Text.{copy_api_name, is_anti_debug}
use tartarus_hobby_os.Display.{Screen, clear_screen, draw_string, update_cursor}
use tartarus_hobby_os.Display.Lines.{Line, label, text, draw_lines, draw_line_of}
use tartarus_hobby_os.Display.Print.{down}

unfoldable pub init_api_manifold : List ℕ → List ℕ
init_api_manifold last_api = set (set (set (set (set last_api 0 b'N') 1 b'U') 2 b'L') 3 b'L') 4 0

abbrev pub abyss : List ℕ
abyss = codes "ABYSS TRAP: MALWARE JUMPED TO NULL (NOT FOUND)"

-- An entry of the list, with the empty text out of range.
abbrev pub nth : List (List ℕ) → ℕ → List ℕ
nth [] i = []
nth (name ∷ names) zero = name
nth (name ∷ names) (suc i) = nth names i

-- What the trap does to `last_api`; `none` is a write behind its end.
unfoldable pub note_api : ℕ → List ℕ → Option (List ℕ)
note_api api_index last_api =
    if api_index == 999
    then copy_api_name abyss last_api
    else if ltb api_index api_count
    then copy_api_name (nth api_list api_index) last_api
    else some last_api

unfoldable pub show_trap : List ℕ → Screen → Screen
show_trap last_api s =
    draw_lines
      (label 0 0 "===================================================" 0xff00ff
        ∷ label 0 8 "  [TARTARUS] UNIVERSAL API MANIFOLD TRIGGERED      " 0xff00ff
        ∷ label 0 16 "===================================================" 0xff00ff
        ∷ label 0 32 "[+] Malware successfully caught calling API: " 0x00ff00
        ∷ text 350 32 last_api 0xffffff
        ∷ label 0 64 "[!] EXECUTION HALTED. MALWARE DISARMED." 0xff0000
        ∷ [])
      (clear_screen s)

-- The buffer and the screen when the processor is halted, which it then is for good.
unfoldable pub universal_api_trap : ℕ → List ℕ → Screen → Option (List ℕ × Screen)
universal_api_trap api_index last_api s = elim (note_api api_index last_api) [
  | none ↦ none
  | some noted ↦ some (noted, show_trap noted s)
]

abbrev pub god_zone : ℕ
god_zone = 0x600_0000

-- `amnesia_address` is the address of `Tartarus_AmnesiaStub`.
unfoldable pub deploy_god_object : ℕ → Ram → Ram
deploy_god_object amnesia_address ram =
    for_range 4096 0 (λ i r. store64 (god_zone + i * 8) amnesia_address r) ram

-- The value that is returned, and the screen.
unfoldable pub static_iat_trap : List ℕ → Screen → ℕ × Screen
static_iat_trap func_name s =
    let s1 = draw_line_of (label 0 s.cursor_y "[X-RAY] API Intercepted: " 0xffff00) s in
    let s2 = draw_line_of (text 220 s1.cursor_y func_name 0xffffff) s1 in
    let s3 = update_cursor (down 8 s2) in
    if is_anti_debug func_name then (0, s3) else (god_zone, s3)
