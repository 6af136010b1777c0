-- ===== src/Text.antt =====
-- The text routines of src/shell.c (`strcmp`, `memset_custom`, `strcpy_custom`, `HexToInt64`,
-- `HexToString`), `CompareString` of src/fat32.c, and `CopyApiName` and `Tartarus_IsAntiDebug` of
-- src/api_manifold.c. A `char *` is the list of the bytes from the pointer on; past the end of the
-- list, a read gives the terminator.
pub mod Compare
pub mod Copy
pub mod Hex
mod Examples
use tartarus_hobby_os.Base.{
  ℕ, zero, suc, ◌+◌, ◌-◌, ◌^◌, ◌*◌, ◌/◌, ◌%◌, bit_and, bit_or, Bool, true, false, ◌&&◌, ◌||◌, not,
  Option, none, some, List, [], ◌∷◌, leb, ltb, ◌==◌, if◌then◌else◌, set, get_or, u64, sub32, ◌<<<◌,
  ◌>>>◌, codes,
}
use mathlib.Core.Option

-- `*s`.
abbrev pub head_char : List ℕ → ℕ
head_char [] = 0
head_char (c ∷ s) = c

abbrev pub next_char : List ℕ → List ℕ
next_char [] = []
next_char (c ∷ s) = s

-- The difference of two bytes, as an int.
unfoldable pub strcmp : List ℕ → List ℕ → ℕ
strcmp [] t = sub32 0 (head_char t)
strcmp (c ∷ s) t =
    let rest = strcmp s (next_char t) in
    if not (c == 0) && (c == head_char t) then rest else sub32 c (head_char t)

-- The same text as `strcmp`.
pub compare_string : List ℕ → List ℕ → ℕ
compare_string [] t = sub32 0 (head_char t)
compare_string (c ∷ s) t =
    let rest = compare_string s (next_char t) in
    if not (c == 0) && (c == head_char t) then rest else sub32 c (head_char t)

-- `count` bytes from the start of `dest`; `none` is a write past its end.
unfoldable pub memset_custom : List ℕ → ℕ → ℕ → Option (List ℕ)
memset_custom dest val zero = some dest
memset_custom [] val (suc n) = none
memset_custom (d ∷ dest) val (suc n) = Option.map (λ r. val ∷ r) (memset_custom dest val n)

unfoldable pub strcpy_custom : List ℕ → List ℕ → Option (List ℕ)
strcpy_custom [] src = none
strcpy_custom (d ∷ dest) [] = some (0 ∷ dest)
strcpy_custom (d ∷ dest) (c ∷ src) =
    let rest = strcpy_custom dest src in
    if c == 0 then some (0 ∷ dest) else Option.map (λ r. c ∷ r) rest

-- The loop of `CopyApiName`, with `room` bytes left of the 127 that it copies at most.
unfoldable pub copy_api_loop : ℕ → List ℕ → List ℕ → Option (List ℕ)
copy_api_loop room src [] = none
copy_api_loop zero src (d ∷ dest) = some (0 ∷ dest)
copy_api_loop (suc room) [] (d ∷ dest) = some (0 ∷ dest)
copy_api_loop (suc room) (c ∷ src) (d ∷ dest) =
    let rest = copy_api_loop room src dest in
    if c == 0 then some (0 ∷ dest) else Option.map (λ r. c ∷ r) rest

unfoldable pub copy_api_name : List ℕ → List ℕ → Option (List ℕ)
unfolding copy_api_loop
copy_api_name src dest = copy_api_loop 127 src dest

-- The value of a hexadecimal digit; `none` ends the number.
unfoldable pub hex_value : ℕ → Option ℕ
hex_value c =
    if leb b'0' c && leb c b'9'
    then some (c - b'0')
    else if leb b'a' c && leb c b'f'
    then some (c - b'a' + 10)
    else if leb b'A' c && leb c b'F'
    then some (c - b'A' + 10)
    else none

unfoldable pub hex_to_int64_loop : ℕ → List ℕ → ℕ
hex_to_int64_loop result [] = result
hex_to_int64_loop result (c ∷ s) = elim (hex_value c) [
  | none ↦ result
  | some val ↦ hex_to_int64_loop (bit_or (u64 (result <<< 4)) val) s
]

unfoldable pub hex_to_int64 : List ℕ → ℕ
hex_to_int64 s =
    if (head_char s == b'0')
      && ((head_char (next_char s) == b'x') || (head_char (next_char s) == b'X'))
    then hex_to_int64_loop 0 (next_char (next_char s))
    else hex_to_int64_loop 0 s

abbrev pub hex_chars : List ℕ
hex_chars = codes "0123456789ABCDEF"

-- The rounds that are left, at index `rounds + 1` of the buffer.
unfoldable pub hex_to_string_loop : ℕ → ℕ → List ℕ → List ℕ
hex_to_string_loop zero value buffer = buffer
hex_to_string_loop (suc k) value buffer =
    hex_to_string_loop k (value >>> 4)
      (set buffer (k + 2) (get_or hex_chars (bit_and value 0x0f) 0))

unfoldable pub hex_to_string : ℕ → List ℕ → List ℕ
hex_to_string value buffer = hex_to_string_loop 16 value (set (set (set buffer 0 b'0') 1 b'x') 18 0)

-- The names of the two calls that ask for a debugger begin so.
unfoldable pub is_anti_debug : List ℕ → Bool
is_anti_debug name =
    ((get_or name 0 0 == b'I') && (get_or name 1 0 == b's') && (get_or name 2 0 == b'D'))
    || ((get_or name 0 0 == b'C')
        && (get_or name 1 0 == b'h')
        && (get_or name 2 0 == b'e')
        && (get_or name 3 0 == b'c'))
