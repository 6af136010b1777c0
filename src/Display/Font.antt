-- ===== src/Display/Font.antt =====
-- The table `font` of src/display.c: eight rows for each character, one bit for each pixel, the
-- leftmost in the highest bit. Characters that the table does not name have empty rows.
use tartarus_hobby_os.Base.{ℕ, List, [], ◌∷◌, ◌==◌, if◌then◌else◌, get_or}

abbrev empty_glyph : List ℕ
empty_glyph = 0 ∷ 0 ∷ 0 ∷ 0 ∷ 0 ∷ 0 ∷ 0 ∷ 0 ∷ []

-- The rows of a character among the entries of a table.
glyph_of : ℕ → List (ℕ × List ℕ) → List ℕ
glyph_of c [] = empty_glyph
glyph_of c ((d, rows) ∷ table) = let rest = glyph_of c table in if c == d then rows else rest

font_table : List (ℕ × List ℕ)
font_table =
    (65, 0x38 ∷ 0x6c ∷ 0xc6 ∷ 0xc6 ∷ 0xfe ∷ 0xc6 ∷ 0xc6 ∷ 0xc6 ∷ [])
    ∷ (66, 0xfc ∷ 0x66 ∷ 0x66 ∷ 0x7c ∷ 0x66 ∷ 0x66 ∷ 0x66 ∷ 0xfc ∷ [])
    ∷ (67, 0x3c ∷ 0x66 ∷ 0xc0 ∷ 0xc0 ∷ 0xc0 ∷ 0xc0 ∷ 0x66 ∷ 0x3c ∷ [])
    ∷ (68, 0xf8 ∷ 0x6c ∷ 0x66 ∷ 0x66 ∷ 0x66 ∷ 0x66 ∷ 0x6c ∷ 0xf8 ∷ [])
    ∷ (69, 0xfe ∷ 0x62 ∷ 0x68 ∷ 0x78 ∷ 0x68 ∷ 0x60 ∷ 0x62 ∷ 0xfe ∷ [])
    ∷ (70, 0xfe ∷ 0x62 ∷ 0x68 ∷ 0x78 ∷ 0x68 ∷ 0x60 ∷ 0x60 ∷ 0xf0 ∷ [])
    ∷ (71, 0x3c ∷ 0x66 ∷ 0xc0 ∷ 0xc0 ∷ 0xce ∷ 0xc6 ∷ 0x66 ∷ 0x3e ∷ [])
    ∷ (72, 0xc6 ∷ 0xc6 ∷ 0xc6 ∷ 0xfe ∷ 0xc6 ∷ 0xc6 ∷ 0xc6 ∷ 0xc6 ∷ [])
    ∷ (73, 0x3e ∷ 0x8 ∷ 0x8 ∷ 0x8 ∷ 0x8 ∷ 0x8 ∷ 0x8 ∷ 0x3e ∷ [])
    ∷ (74, 0x1e ∷ 0xc ∷ 0xc ∷ 0xc ∷ 0xc ∷ 0xcc ∷ 0xcc ∷ 0x78 ∷ [])
    ∷ (75, 0xe6 ∷ 0x66 ∷ 0x6c ∷ 0x78 ∷ 0x78 ∷ 0x6c ∷ 0x66 ∷ 0xe6 ∷ [])
    ∷ (76, 0xf0 ∷ 0x60 ∷ 0x60 ∷ 0x60 ∷ 0x60 ∷ 0x60 ∷ 0x62 ∷ 0xfe ∷ [])
    ∷ (77, 0xc6 ∷ 0xee ∷ 0xfe ∷ 0xfe ∷ 0xd6 ∷ 0xc6 ∷ 0xc6 ∷ 0xc6 ∷ [])
    ∷ (78, 0xc6 ∷ 0xe6 ∷ 0xf6 ∷ 0xde ∷ 0xce ∷ 0xc6 ∷ 0xc6 ∷ 0xc6 ∷ [])
    ∷ (79, 0x3c ∷ 0x66 ∷ 0xc6 ∷ 0xc6 ∷ 0xc6 ∷ 0xc6 ∷ 0x66 ∷ 0x3c ∷ [])
    ∷ (80, 0xfc ∷ 0x66 ∷ 0x66 ∷ 0x7c ∷ 0x60 ∷ 0x60 ∷ 0x60 ∷ 0xf0 ∷ [])
    ∷ (81, 0x3c ∷ 0x66 ∷ 0xc6 ∷ 0xc6 ∷ 0xc6 ∷ 0xda ∷ 0xcc ∷ 0x76 ∷ [])
    ∷ (82, 0xfc ∷ 0x66 ∷ 0x66 ∷ 0x7c ∷ 0x6c ∷ 0x66 ∷ 0x66 ∷ 0xe6 ∷ [])
    ∷ (83, 0x3e ∷ 0x60 ∷ 0x60 ∷ 0x3c ∷ 0x6 ∷ 0x6 ∷ 0x6 ∷ 0x7c ∷ [])
    ∷ (84, 0x7e ∷ 0x18 ∷ 0x18 ∷ 0x18 ∷ 0x18 ∷ 0x18 ∷ 0x18 ∷ 0x3c ∷ [])
    ∷ (85, 0xc6 ∷ 0xc6 ∷ 0xc6 ∷ 0xc6 ∷ 0xc6 ∷ 0xc6 ∷ 0xc6 ∷ 0x7c ∷ [])
    ∷ (86, 0xc6 ∷ 0xc6 ∷ 0xc6 ∷ 0xc6 ∷ 0xc6 ∷ 0x6c ∷ 0x38 ∷ 0x10 ∷ [])
    ∷ (87, 0xc6 ∷ 0xc6 ∷ 0xc6 ∷ 0xd6 ∷ 0xfe ∷ 0xfe ∷ 0xee ∷ 0xc6 ∷ [])
    ∷ (88, 0xc6 ∷ 0xc6 ∷ 0x6c ∷ 0x38 ∷ 0x38 ∷ 0x6c ∷ 0xc6 ∷ 0xc6 ∷ [])
    ∷ (89, 0xc6 ∷ 0xc6 ∷ 0xc6 ∷ 0x6c ∷ 0x38 ∷ 0x18 ∷ 0x18 ∷ 0x3c ∷ [])
    ∷ (90, 0xfe ∷ 0x6 ∷ 0xc ∷ 0x18 ∷ 0x30 ∷ 0x60 ∷ 0xc0 ∷ 0xfe ∷ [])
    ∷ (97, 0 ∷ 0 ∷ 0x3c ∷ 0x6 ∷ 0x3e ∷ 0x66 ∷ 0x66 ∷ 0x3f ∷ [])
    ∷ (98, 0x60 ∷ 0x60 ∷ 0x7c ∷ 0x66 ∷ 0x66 ∷ 0x66 ∷ 0x66 ∷ 0x7c ∷ [])
    ∷ (99, 0 ∷ 0 ∷ 0x3c ∷ 0x66 ∷ 0x60 ∷ 0x60 ∷ 0x66 ∷ 0x3c ∷ [])
    ∷ (100, 0x6 ∷ 0x6 ∷ 0x3e ∷ 0x66 ∷ 0x66 ∷ 0x66 ∷ 0x66 ∷ 0x3e ∷ [])
    ∷ (101, 0 ∷ 0 ∷ 0x3c ∷ 0x66 ∷ 0x7e ∷ 0x60 ∷ 0x60 ∷ 0x3c ∷ [])
    ∷ (102, 0x1c ∷ 0x36 ∷ 0x30 ∷ 0x7c ∷ 0x30 ∷ 0x30 ∷ 0x30 ∷ 0x30 ∷ [])
    ∷ (103, 0 ∷ 0 ∷ 0x3e ∷ 0x66 ∷ 0x66 ∷ 0x3e ∷ 0x6 ∷ 0x3c ∷ [])
    ∷ (104, 0x60 ∷ 0x60 ∷ 0x7c ∷ 0x66 ∷ 0x66 ∷ 0x66 ∷ 0x66 ∷ 0x66 ∷ [])
    ∷ (105, 0x18 ∷ 0 ∷ 0x38 ∷ 0x18 ∷ 0x18 ∷ 0x18 ∷ 0x18 ∷ 0x3c ∷ [])
    ∷ (106, 0xc ∷ 0 ∷ 0x1c ∷ 0xc ∷ 0xc ∷ 0xc ∷ 0xcc ∷ 0x78 ∷ [])
    ∷ (107, 0x60 ∷ 0x60 ∷ 0x66 ∷ 0x6c ∷ 0x78 ∷ 0x6c ∷ 0x66 ∷ 0x66 ∷ [])
    ∷ (108, 0x38 ∷ 0x18 ∷ 0x18 ∷ 0x18 ∷ 0x18 ∷ 0x18 ∷ 0x18 ∷ 0x3c ∷ [])
    ∷ (109, 0 ∷ 0 ∷ 0xfc ∷ 0xfe ∷ 0xd6 ∷ 0xc6 ∷ 0xc6 ∷ 0xc6 ∷ [])
    ∷ (110, 0 ∷ 0 ∷ 0x7c ∷ 0x66 ∷ 0x66 ∷ 0x66 ∷ 0x66 ∷ 0x66 ∷ [])
    ∷ (111, 0 ∷ 0 ∷ 0x3c ∷ 0x66 ∷ 0x66 ∷ 0x66 ∷ 0x66 ∷ 0x3c ∷ [])
    ∷ (112, 0 ∷ 0 ∷ 0x7c ∷ 0x66 ∷ 0x66 ∷ 0x7c ∷ 0x60 ∷ 0x60 ∷ [])
    ∷ (113, 0 ∷ 0 ∷ 0x3e ∷ 0x66 ∷ 0x66 ∷ 0x3e ∷ 0x6 ∷ 0x6 ∷ [])
    ∷ (114, 0 ∷ 0 ∷ 0x5c ∷ 0x66 ∷ 0x60 ∷ 0x60 ∷ 0x60 ∷ 0x60 ∷ [])
    ∷ (115, 0 ∷ 0 ∷ 0x3e ∷ 0x60 ∷ 0x3c ∷ 0x6 ∷ 0x6 ∷ 0x3c ∷ [])
    ∷ (116, 0x10 ∷ 0x3c ∷ 0x10 ∷ 0x10 ∷ 0x10 ∷ 0x10 ∷ 0x14 ∷ 0x18 ∷ [])
    ∷ (117, 0 ∷ 0 ∷ 0x66 ∷ 0x66 ∷ 0x66 ∷ 0x66 ∷ 0x66 ∷ 0x3e ∷ [])
    ∷ (118, 0 ∷ 0 ∷ 0x66 ∷ 0x66 ∷ 0x66 ∷ 0x66 ∷ 0x3c ∷ 0x18 ∷ [])
    ∷ (119, 0 ∷ 0 ∷ 0xc6 ∷ 0xc6 ∷ 0xd6 ∷ 0xfe ∷ 0x6c ∷ 0x28 ∷ [])
    ∷ (120, 0 ∷ 0 ∷ 0x66 ∷ 0x3c ∷ 0x18 ∷ 0x3c ∷ 0x66 ∷ 0x66 ∷ [])
    ∷ (121, 0 ∷ 0 ∷ 0x66 ∷ 0x66 ∷ 0x66 ∷ 0x3e ∷ 0x6 ∷ 0x3c ∷ [])
    ∷ (122, 0 ∷ 0 ∷ 0x7e ∷ 0xc ∷ 0x18 ∷ 0x30 ∷ 0x60 ∷ 0x7e ∷ [])
    ∷ (48, 0x3c ∷ 0x66 ∷ 0x66 ∷ 0x66 ∷ 0x66 ∷ 0x66 ∷ 0x66 ∷ 0x3c ∷ [])
    ∷ (49, 0x18 ∷ 0x38 ∷ 0x18 ∷ 0x18 ∷ 0x18 ∷ 0x18 ∷ 0x18 ∷ 0x3c ∷ [])
    ∷ (50, 0x3c ∷ 0x66 ∷ 0x6 ∷ 0x1c ∷ 0x30 ∷ 0x60 ∷ 0x7e ∷ 0 ∷ [])
    ∷ (51, 0x3c ∷ 0x66 ∷ 0x6 ∷ 0x1c ∷ 0x6 ∷ 0x66 ∷ 0x3c ∷ 0 ∷ [])
    ∷ (52, 0x1c ∷ 0x3c ∷ 0x6c ∷ 0xcc ∷ 0xfe ∷ 0xc ∷ 0xc ∷ 0x1e ∷ [])
    ∷ (53, 0x7e ∷ 0x60 ∷ 0x7c ∷ 0x6 ∷ 0x6 ∷ 0x66 ∷ 0x3c ∷ 0 ∷ [])
    ∷ (54, 0x3c ∷ 0x60 ∷ 0x7c ∷ 0x66 ∷ 0x66 ∷ 0x66 ∷ 0x3c ∷ 0 ∷ [])
    ∷ (55, 0x7e ∷ 0x66 ∷ 0x6 ∷ 0xc ∷ 0x18 ∷ 0x18 ∷ 0x18 ∷ 0 ∷ [])
    ∷ (56, 0x3c ∷ 0x66 ∷ 0x3c ∷ 0x66 ∷ 0x66 ∷ 0x66 ∷ 0x3c ∷ 0 ∷ [])
    ∷ (57, 0x3c ∷ 0x66 ∷ 0x66 ∷ 0x3e ∷ 0x6 ∷ 0xc ∷ 0x38 ∷ 0 ∷ [])
    ∷ (32, 0 ∷ 0 ∷ 0 ∷ 0 ∷ 0 ∷ 0 ∷ 0 ∷ 0 ∷ [])
    ∷ (45, 0 ∷ 0 ∷ 0 ∷ 0x3c ∷ 0 ∷ 0 ∷ 0 ∷ 0 ∷ [])
    ∷ (61, 0 ∷ 0 ∷ 0x3c ∷ 0 ∷ 0x3c ∷ 0 ∷ 0 ∷ 0 ∷ [])
    ∷ (91, 0x3c ∷ 0x30 ∷ 0x30 ∷ 0x30 ∷ 0x30 ∷ 0x30 ∷ 0x30 ∷ 0x3c ∷ [])
    ∷ (93, 0x3c ∷ 0xc ∷ 0xc ∷ 0xc ∷ 0xc ∷ 0xc ∷ 0xc ∷ 0x3c ∷ [])
    ∷ (59, 0 ∷ 0x18 ∷ 0x18 ∷ 0 ∷ 0x18 ∷ 0x18 ∷ 0x30 ∷ 0 ∷ [])
    ∷ (39, 0x18 ∷ 0x18 ∷ 0x30 ∷ 0 ∷ 0 ∷ 0 ∷ 0 ∷ 0 ∷ [])
    ∷ (44, 0 ∷ 0 ∷ 0 ∷ 0 ∷ 0x18 ∷ 0x18 ∷ 0x30 ∷ 0 ∷ [])
    ∷ (46, 0 ∷ 0 ∷ 0 ∷ 0 ∷ 0 ∷ 0x18 ∷ 0x18 ∷ 0 ∷ [])
    ∷ (47, 0 ∷ 0x6 ∷ 0xc ∷ 0x18 ∷ 0x30 ∷ 0x60 ∷ 0 ∷ 0 ∷ [])
    ∷ (62, 0 ∷ 0x10 ∷ 0x8 ∷ 0x4 ∷ 0x2 ∷ 0x4 ∷ 0x8 ∷ 0x10 ∷ [])
    ∷ []

-- `font[c][row]`.
unfoldable pub font : ℕ → ℕ → ℕ
unfolding glyph_of font_table
font c row = get_or (glyph_of c font_table) row 0
