-- ===== src/Text/Copy.antt =====
-- The copies of texts stay inside their buffers, and end in a terminator.
use tartarus_hobby_os.Base.{
  ℕ, zero, suc, ◌≤◌, ◌<◌, ◌≡◌, refl, none, some, List, [], ◌∷◌, arith, length, take, replicate,
  drop, ◌++◌,
}
use tartarus_hobby_os.Text.{memset_custom, strcpy_custom, copy_api_loop, copy_api_name}
use tartarus_hobby_os.Text.Compare.{c_string}

-- `strcpy_custom` into a buffer with room for the text and its terminator changes nothing else.
pub strcpy_custom_lem :
    (dest src : List ℕ)
    → length (c_string src) < length dest
    → strcpy_custom dest src ≡ some (c_string src ++ 0 ∷ drop (suc (length (c_string src))) dest)
unfolding strcpy_custom
strcpy_custom_lem [] src h = absurd (omega arith)
strcpy_custom_lem (d ∷ dest) [] h = refl
strcpy_custom_lem (d ∷ dest) (c ∷ src) h = ground (arith, strcpy_custom_lem dest src)

-- In a shorter buffer it writes past the end.
strcpy_custom_overflow :
    (dest src : List ℕ) → length dest ≤ length (c_string src) → strcpy_custom dest src ≡ none
unfolding strcpy_custom
strcpy_custom_overflow [] src h = refl
strcpy_custom_overflow (d ∷ dest) [] h = absurd (omega arith)
strcpy_custom_overflow (d ∷ dest) (c ∷ src) h = ground (arith, strcpy_custom_overflow dest src)

copy_api_loop_lem :
    (room : ℕ) (src dest : List ℕ)
    → length (take room (c_string src)) < length dest
    → copy_api_loop room src dest
      ≡ some (take room (c_string src) ++ 0 ∷ drop (suc (length (take room (c_string src)))) dest)
unfolding copy_api_loop
copy_api_loop_lem room src [] h = absurd (omega arith)
copy_api_loop_lem zero src (d ∷ dest) h = refl
copy_api_loop_lem (suc room) [] (d ∷ dest) h = refl
copy_api_loop_lem (suc room) (c ∷ src) (d ∷ dest) h =
    ground (arith, copy_api_loop_lem room src dest)

length-take-le : (n : ℕ) (xs : List ℕ) → length (take n xs) ≤ n
length-take-le zero xs = omega arith
length-take-le (suc n) [] = omega arith
length-take-le (suc n) (x ∷ xs) = omega (arith, length-take-le n xs)

-- `CopyApiName` cuts the name to 127 bytes, so it stays inside every buffer of 128.
pub copy_api_name_lem :
    (src dest : List ℕ)
    → 128 ≤ length dest
    → copy_api_name src dest
      ≡ some (take 127 (c_string src) ++ 0 ∷ drop (suc (length (take 127 (c_string src)))) dest)
unfolding copy_api_name
copy_api_name_lem src dest h =
    copy_api_loop_lem 127 src dest (omega (arith, length-take-le 127 (c_string src)))

-- `memset_custom` fills the first `count` bytes and no more.
memset_custom_lem :
    (dest : List ℕ) (val count : ℕ)
    → count ≤ length dest
    → memset_custom dest val count ≡ some (replicate count val ++ drop count dest)
unfolding memset_custom
memset_custom_lem dest val zero h = refl
memset_custom_lem [] val (suc n) h = absurd (omega arith)
memset_custom_lem (d ∷ dest) val (suc n) h = ground (arith, memset_custom_lem dest val n)
