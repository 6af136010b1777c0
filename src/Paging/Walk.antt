-- ===== src/Paging/Walk.antt =====
-- The processor's walk of the tables: which physical address a virtual one reaches.
use tartarus_hobby_os.Base.{
  ℕ, ◌+◌, ◌-◌, ◌*◌, ◌/◌, ◌%◌, ◌^◌, ◌≤◌, ◌<◌, ◌≡◌, ◌⊎◌, ◌∙◌, ap, Bool, true, false, ◌&&◌, Option,
  none, some, arith, ltb, leb, ◌==◌, if◌then◌else◌, Bool-cases, inl, inr, bit_or, ltb→lt,
  ltb_false→le,
}
use tartarus_hobby_os.Base.Bits.{bit_or_field}
use tartarus_hobby_os.Paging.Tables.{IsSetUp, setup_paging-IsSetUp, page_entry}
use tartarus_hobby_os.Paging.{Entries, PageTables, Addresses, pd_address, setup_paging}

-- An entry is present if its lowest bit is set; it leads to the table or page at the address that
-- its bits from 12 to 51 give.
abbrev pub is_present : ℕ → Bool
is_present e = e % 2 == 1

abbrev pub frame_of : ℕ → ℕ
frame_of e = e % 2 ^ 52 / 4096 * 4096

-- The tables as the walk finds them, by their addresses.
pub table_at : Addresses → PageTables → ℕ → Option Entries
table_at a t base =
    if base == a.pdpt
    then some t.pdpt
    else if leb a.pd base && ltb base (a.pd + 8 * 4096) && ((base - a.pd) % 4096 == 0)
    then some (t.pd ((base - a.pd) / 4096))
    else none

-- The last level: an entry with bit 7 set maps a page of two megabytes.
pub walk_pd : ℕ → Entries → Option ℕ
walk_pd va pd =
    let e = pd (va / 2 ^ 21 % 512) in
    if is_present e && (e / 128 % 2 == 1)
    then some (e % 2 ^ 52 / 2 ^ 21 * 2 ^ 21 + va % 2 ^ 21)
    else none

pub walk_pdpt : Addresses → PageTables → ℕ → Entries → Option ℕ
walk_pdpt a t va pdpt =
    let e = pdpt (va / 2 ^ 30 % 512) in
    if is_present e
    then elim (table_at a t (frame_of e)) [ none ↦ none | some pd ↦ walk_pd va pd ]
    else none

-- The physical address of a virtual one; `none` is a page fault.
pub walk : Addresses → PageTables → ℕ → Option ℕ
walk a t va =
    let e = t.pml4 (va / 2 ^ 39 % 512) in
    if is_present e
    then elim (table_at a t (frame_of e)) [ none ↦ none | some pdpt ↦ walk_pdpt a t va pdpt ]
    else none

-- The linker has placed the tables on pages of their own, within 52-bit addresses.
pub record IsPlaced (a : Addresses) : Type 0 where
  pub pdpt_page : a.pdpt % 4096 ≡ 0
  pub pd_page : a.pd % 4096 ≡ 0
  pub pdpt_small : a.pdpt < 2 ^ 52
  pub pd_small : a.pd + 8 * 4096 < 2 ^ 52
  pub apart : (a.pdpt < a.pd) ⊎ (a.pd + 8 * 4096 ≤ a.pdpt)

or_low : (k q r : ℕ) → r < 2 ^ k → (b : ℕ) → b ≡ q * 2 ^ k → bit_or b r ≡ b + r
or_low k q r h b e = rw e (bit_or_field k q r h)

-- An entry that leads to a page at `base`.
link_entry :
    (base : ℕ)
    → base % 4096 ≡ 0
    → base < 2 ^ 52
    → (is_present (bit_or base 0x03) ≡ true) × (frame_of (bit_or base 0x03) ≡ base)
link_entry base page small =
    let sum = or_low 12 (base / 4096) 3 (omega arith) base (omega arith) in
    rw sum (ground arith, omega arith)

page_entry_fields :
    (n : ℕ)
    → n < 4096
    → (is_present (page_entry (n * 2 ^ 21)) ≡ true)
      × ((page_entry (n * 2 ^ 21) / 128 % 2 == 1) ≡ true)
      × (page_entry (n * 2 ^ 21) % 2 ^ 52 / 2 ^ 21 * 2 ^ 21 ≡ n * 2 ^ 21)
page_entry_fields n h =
    let sum = bit_or_field 21 n 0x83 (omega arith) in
    rw sum (ground arith, ground arith, omega arith)

module _ (a : Addresses) (t : PageTables) (placed : IsPlaced a) (is : IsSetUp a t) where
  table_at-pdpt : table_at a t a.pdpt ≡ some t.pdpt
  unfolding table_at
  table_at-pdpt = ground arith

  table_at-pd : (i : ℕ) → i < 8 → table_at a t (pd_address a i) ≡ some (t.pd i)
  unfolding table_at
  table_at-pd i h =
      let other : (a.pd + i * 4096 == a.pdpt) ≡ false = ground (arith, placed.apart) in
      let row : (a.pd + i * 4096 - a.pd) / 4096 ≡ i = omega arith in
      let found : (leb a.pd (a.pd + i * 4096)
            && ltb (a.pd + i * 4096) (a.pd + 8 * 4096)
            && ((a.pd + i * 4096 - a.pd) % 4096 == 0))
          ≡ true =
        ground arith in
      rw (other, found, row)

  walk_pd-page : (va i : ℕ) → i < 8 → va / 2 ^ 30 ≡ i → walk_pd va (t.pd i) ≡ some va
  unfolding walk_pd
  walk_pd-page va i h e =
      let j = va / 2 ^ 21 % 512 in
      let number : i * 2 ^ 30 + j * 2 ^ 21 ≡ (i * 512 + j) * 2 ^ 21 = omega arith in
      let entry : t.pd i j ≡ page_entry ((i * 512 + j) * 2 ^ 21) =
        is.pd i j h (omega arith) ∙ ap page_entry number in
      let fields = page_entry_fields (i * 512 + j) (omega arith) in
      let back : (i * 512 + j) * 2 ^ 21 + va % 2 ^ 21 ≡ va = omega arith in
      rw (entry, fields.0, fields.1, fields.2, back)

  walk_pdpt-low : (va : ℕ) → va < 2 ^ 33 → walk_pdpt a t va t.pdpt ≡ some va
  unfolding walk_pdpt
  walk_pdpt-low va h =
      let i = va / 2 ^ 30 % 512 in
      let in_first : ltb i 8 ≡ true = ground arith in
      let entry : t.pdpt i ≡ bit_or (pd_address a i) 0x03 = is.pdpt i (omega arith) ∙ rw in_first in
      let link =
        link_entry (pd_address a i) (omega (arith, placed.pd_page))
          (omega (arith, placed.pd_small)) in
      rw (entry, link.0, link.1, table_at-pd i (omega arith))
        (walk_pd-page va i (omega arith) (omega arith))

  walk_pdpt-high : (va : ℕ) → 2 ^ 33 ≤ va → va < 2 ^ 39 → walk_pdpt a t va t.pdpt ≡ none
  unfolding walk_pdpt
  walk_pdpt-high va lo hi =
      let i = va / 2 ^ 30 % 512 in
      let behind : ltb i 8 ≡ false = ground arith in
      let entry : t.pdpt i ≡ 0 = is.pdpt i (omega arith) ∙ rw behind in rw entry

  walk-low : (va : ℕ) → va < 2 ^ 39 → walk a t va ≡ walk_pdpt a t va t.pdpt
  unfolding walk
  walk-low va h =
      let first : va / 2 ^ 39 % 512 ≡ 0 = omega arith in
      let entry : t.pml4 0 ≡ bit_or a.pdpt 0x03 = is.pml4 0 (omega arith) in
      let link = link_entry a.pdpt placed.pdpt_page placed.pdpt_small in
      rw (first, entry, link.0, link.1, table_at-pdpt)

  walk-high : (va : ℕ) → 2 ^ 39 ≤ va → va < 2 ^ 48 → walk a t va ≡ none
  unfolding walk
  walk-high va lo hi =
      let i = va / 2 ^ 39 % 512 in
      let behind : (i == 0) ≡ false = ground arith in
      let entry : t.pml4 i ≡ 0 = is.pml4 i (omega arith) ∙ rw behind in rw entry

-- With the tables of `SetupPaging`, a virtual address of 48 bits reaches the same physical address
-- if it lies in the first eight gigabytes, and is a page fault if not.
pub setup_paging-identity :
    (a : Addresses) (t : PageTables) (va : ℕ)
    → IsPlaced a
    → va < 2 ^ 48
    → walk a (setup_paging a t) va ≡ (if ltb va (2 ^ 33) then some va else none)
setup_paging-identity a t va placed h =
    let t' = setup_paging a t in
    let is = setup_paging-IsSetUp a t in
    elim (Bool-cases (ltb va (2 ^ 39))) [
      | inr far ↦
          let out : ltb va (2 ^ 33) ≡ false = ground arith in
          rw out (walk-high a t' placed is va (ltb_false→le _ _ far) h)
      | inl near ↦ elim (Bool-cases (ltb va (2 ^ 33))) [
        | inl low ↦ rw low (
            walk-low a t' placed is va (ltb→lt _ _ near)
            ∙ walk_pdpt-low a t' placed is va (ltb→lt _ _ low))
        | inr high ↦ rw high (
            walk-low a t' placed is va (ltb→lt _ _ near)
            ∙ walk_pdpt-high a t' placed is va (ltb_false→le _ _ high) (ltb→lt _ _ near))
      ]
    ]
