-- ===== src/Text/Examples.antt =====
-- Runs of the texts, and their theorems at concrete texts.
use tartarus_hobby_os.Base.{ℕ, ◌≡◌, refl, true, List, [], ◌∷◌, ◌++◌, arith, replicate, codes}
use tartarus_hobby_os.Text.{
  hex_to_string, hex_value, hex_to_int64_loop, hex_to_int64, is_anti_debug,
}
use tartarus_hobby_os.Text.Hex.{hex_to_int64-hex_to_string}

abbrev help : List ℕ
help = codes "help" ++ 0 ∷ []

abbrev stale_help : List ℕ
stale_help = codes "help" ++ 0 ∷ codes "less"

abbrev zeros : List ℕ
zeros = replicate 20 0

abbrev name_buffer : List ℕ
name_buffer = replicate 128 0

debugger_name : is_anti_debug (codes "IsDebuggerPresent") ≡ true
unfolding is_anti_debug
debugger_name = refl

hex_upper_and_lower : hex_to_int64 (codes "0xC0dE;") ≡ 49374
unfolding hex_to_int64 hex_to_int64_loop hex_value
hex_upper_and_lower = refl

hex_to_int64-hex_to_string_example : hex_to_int64 (hex_to_string 0xdead_beef zeros) ≡ 0xdead_beef
hex_to_int64-hex_to_string_example =
    hex_to_int64-hex_to_string 0xdead_beef zeros (omega arith) (omega arith)
