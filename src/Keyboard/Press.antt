-- ===== src/Keyboard/Press.antt =====
-- What every scancode but that of Enter does to the line.
use tartarus_hobby_os.Base.{
  ℕ, ◌<◌, ◌≡◌, ◌≢◌, refl, ◌∙◌, false, ◌&&◌, ◌||◌, not, List, arith, ◌==◌, ltb, leb, if◌then◌else◌,
  get_or, Bool-cases, inl, inr, ==_iff,
}
use tartarus_hobby_os.Keyboard.{Console, shifted, type_key, release_key, press_key, scancode_map}
use tartarus_hobby_os.Keyboard.Edit.{
  append_char, append_text, drop_last, IsEditing, append_char-IsEditing, paste_loop-IsEditing,
  backspace-IsEditing,
}

-- The line after a key other than Enter: what a key does depends on the state of the modifiers,
-- and on the clipboard.
abbrev pub edited : ℕ → Console → List ℕ → List ℕ
edited scancode s line =
    if leb 128 scancode
    then line
    else if (scancode == 0x2f) && s.left_ctrl
    then append_text 63 s.clipboard line
    else if scancode == 0x0e
    then drop_last line
    else if (scancode == 0x3a) || (scancode == 0x2a) || (scancode == 0x36) || (scancode == 0x1d)
    then line
    else if ltb scancode 58 && not (get_or scancode_map scancode 0 == 0)
    then append_char (shifted s (get_or scancode_map scancode 0)) line
    else line

shifted-ne-zero : (s : Console) (c : ℕ) → c ≢ 0 → shifted s c ≢ 0
unfolding shifted
shifted-ne-zero s c ne = ground arith

pub IsEditing-same :
    (s t : Console) (line : List ℕ)
    → t.command_buffer ≡ s.command_buffer
    → t.buffer_index ≡ s.buffer_index
    → IsEditing s line
    → IsEditing t line
IsEditing-same s t line b i is = record {
  buffer = b ∙ is.buffer;
  index = i ∙ is.index;
  room = is.room;
  text = is.text;
}

pub release_key-same :
    (c : ℕ) (s : Console)
    → ((release_key c s).command_buffer ≡ s.command_buffer)
      × ((release_key c s).buffer_index ≡ s.buffer_index)
      × ((release_key c s).port_writes ≡ s.port_writes)
unfolding release_key
release_key-same c s = ground arith

type_key-IsEditing :
    (scancode : ℕ) (s : Console) (line : List ℕ)
    → IsEditing s line
    → IsEditing (type_key scancode s) (
        if not (get_or scancode_map scancode 0 == 0)
        then append_char (shifted s (get_or scancode_map scancode 0)) line
        else line)
unfolding type_key
type_key-IsEditing scancode s line is = elim (Bool-cases (get_or scancode_map scancode 0 == 0)) [
  | inl silent ↦ rw silent is
  | inr sounds ↦ rw sounds (
      append_char-IsEditing s line (shifted s (get_or scancode_map scancode 0)) is
        (shifted-ne-zero s _ (ground arith)))
]

lt→leb_false : (a : ℕ) → a < 128 → leb 128 a ≡ false
lt→leb_false a h = ground arith

ne→==_false : (a b : ℕ) → a ≢ b → (a == b) ≡ false
ne→==_false a b h = ground arith

pub press_key-IsEditing :
    (execute_command : Console → Console) (scancode : ℕ) (s : Console) (line : List ℕ)
    → scancode < 128
    → scancode ≢ 0x1c
    → IsEditing s line
    → IsEditing (press_key execute_command scancode s) (edited scancode s line)
unfolding press_key
press_key-IsEditing execute_command scancode s line low ne is =
    elim (Bool-cases (scancode == 0x3a)) [
      | inl caps ↦ rw ((==_iff scancode 0x3a).0 caps) (IsEditing-same s _ line refl refl is)
      | inr h1 ↦ elim (Bool-cases (scancode == 0x2a)) [
        | inl left ↦ rw ((==_iff scancode 0x2a).0 left) (IsEditing-same s _ line refl refl is)
        | inr h2 ↦ elim (Bool-cases (scancode == 0x36)) [
          | inl right ↦ rw ((==_iff scancode 0x36).0 right) (IsEditing-same s _ line refl refl is)
          | inr h3 ↦ elim (Bool-cases (scancode == 0x1d)) [
            | inl ctrl ↦ rw ((==_iff scancode 0x1d).0 ctrl) (IsEditing-same s _ line refl refl is)
            | inr h4 ↦ elim (Bool-cases ((scancode == 0x2f) && s.left_ctrl)) [
              | inl paste ↦
                  rw (h1, h2, h3, h4, paste, lt→leb_false scancode low)
                    (paste_loop-IsEditing 63 s.clipboard s line is)
              | inr h5 ↦ elim (Bool-cases (scancode == 0x0e)) [
                | inl back ↦ rw ((==_iff scancode 0x0e).0 back) (backspace-IsEditing s line is)
                | inr h6 ↦ elim (Bool-cases (ltb scancode 58)) [
                  | inl key ↦
                      rw
                        (
                          h1,
                          h2,
                          h3,
                          h4,
                          h5,
                          h6,
                          ne→==_false scancode 0x1c ne,
                          key,
                          lt→leb_false scancode low,
                        )
                        (type_key-IsEditing scancode s line is)
                  | inr other ↦
                      rw
                        (
                          h1,
                          h2,
                          h3,
                          h4,
                          h5,
                          h6,
                          ne→==_false scancode 0x1c ne,
                          other,
                          lt→leb_false scancode low,
                        )
                        is
                ]
              ]
            ]
          ]
        ]
      ]
    ]
