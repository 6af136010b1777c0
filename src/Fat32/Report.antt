-- ===== src/Fat32/Report.antt =====
-- The two reports of src/fat32.c on the root directory: `ListRootDirectory`, and `AutopsyFirstFile`,
-- which shows the bytes of the first file. The entries lie in the memory, which the drawing does not
-- touch.
use tartarus_hobby_os.Base.{
  ℕ, zero, suc, ◌+◌, ◌*◌, ◌/◌, true, false, ◌&&◌, not, Option, none, some, [], ◌∷◌, ◌++◌, ltb, ◌==◌,
  if◌then◌else◌, bit_and, add32, replicate, is_neg32,
}
use tartarus_hobby_os.Text.{hex_to_string}
use tartarus_hobby_os.Display.{Screen, draw_char, update_cursor}
use tartarus_hobby_os.Display.Print.{say, label, down}
use tartarus_hobby_os.Ata.{Ports}
use tartarus_hobby_os.Ram.{Ram}
use tartarus_hobby_os.Machine.{
  M, pure, out_of_fuel, ◌>>=◌, gets, show, alloc, release, read_sectors,
}
use tartarus_hobby_os.Fat32.{
  DirEntry, dir_entry_at, first_byte, sector_of, first_cluster, first_file, get_next_cluster,
}

-- The line of an entry: `filename` is its name and a terminator.
unfoldable pub list_entry : DirEntry → Screen → Screen
list_entry e s =
    let named = say 0 (e.name ++ 0 ∷ []) 0xffffff s in
    let sized =
      if bit_and e.attr 0x10 == 0
      then say 100 (hex_to_string e.file_size (replicate 19 0)) 0xaaaaaa named
      else label 100 "<DIR>" 0xffff00 named in
    update_cursor (down 8 sized)

-- The entries that are left, from address `p` on.
unfoldable pub list_entries : Ram → ℕ → ℕ → Screen → Screen
list_entries ram zero p s = s
list_entries ram (suc n) p s =
    let e = dir_entry_at ram p in
    let skipped = list_entries ram n (p + 32) s in
    let listed = list_entries ram n (p + 32) (list_entry e s) in
    if first_byte e == 0x00
    then s
    else if first_byte e == 0xe5
    then skipped
    else if e.attr == 0x0f
    then skipped
    else listed

unfoldable pub show_byte : ℕ → Screen → Screen
show_byte c s =
    let drawn = record s { pixel = draw_char s.pitch s.cursor_x s.cursor_y c 0xffff00 s.pixel } in
    let moved = update_cursor (record drawn { cursor_x = add32 drawn.cursor_x 8 }) in
    if not (is_neg32 moved.cursor_x) && ltb 700 moved.cursor_x
    then record moved { cursor_x = 0; cursor_y = add32 moved.cursor_y 8 }
    else moved

-- The inner loop over the bytes of a cluster: those that are left, from address `q` on. The result
-- is `bytes_read`.
unfoldable pub show_bytes : Ram → (left q total_size bytes_read : ℕ) → Screen → ℕ × Screen
show_bytes ram zero q total_size bytes_read s = (bytes_read, s)
show_bytes ram (suc n) q total_size bytes_read s =
    let rest = show_bytes ram n (q + 1) total_size (add32 bytes_read 1) (show_byte (ram q) s) in
    if ltb bytes_read total_size then rest else (bytes_read, s)

abbrev next_line : Screen → Screen
next_line s = update_cursor (down 8 s)

module _ {ℓ} {D : Type ℓ} (ports : Ports D) (fuel : ℕ) where
  -- A round of the loop over the clusters. That `malloc` may give NULL is not asked.
  unfoldable pub show_cluster : (total_size current_cluster bytes_read : ℕ) → M D (ℕ × ℕ)
  show_cluster total_size current_cluster bytes_read = do
    v ← gets (λ m. m.volume)
    p ← alloc fuel (512 * v.sectors_per_cluster)
    is_read ← read_sectors ports (sector_of v current_cluster) v.sectors_per_cluster p
    shown ← gets (λ m.
        if is_read
        then show_bytes m.ram (512 * v.sectors_per_cluster) p total_size bytes_read m.console.screen
        else (bytes_read, m.console.screen))
    _ ← show (λ s. shown.1)
    _ ← release p
    next_cluster ← get_next_cluster ports fuel current_cluster
    pure (next_cluster, shown.0)

  -- `rounds` is fuel.
  unfoldable pub autopsy_loop : (rounds total_size current_cluster bytes_read : ℕ) → M D (Unit {0})
  autopsy_loop zero total_size current_cluster bytes_read = out_of_fuel
  autopsy_loop (suc rounds) total_size current_cluster bytes_read =
      elim (ltb current_cluster 0x0fff_fff8 && ltb bytes_read total_size) [
        | false ↦ pure tt
        | true ↦
            show_cluster total_size current_cluster bytes_read
            >>= (λ x. autopsy_loop rounds total_size x.0 x.1)
      ]

  -- What is done with the first file, or without one.
  unfoldable pub autopsy_file : ℕ → Option DirEntry → M D (Unit {0})
  autopsy_file rounds none = show (λ s. next_line (label 0 "No file found for autopsy." 0xff0000 s))
  autopsy_file rounds (some e) = do
    _ ← show (λ s. next_line (label 0 "[*] Executing Autopsy on file..." 0xff0000 s))
    _ ← autopsy_loop rounds e.file_size (first_cluster e) 0
    show (λ s. next_line (record s { cursor_x = 0 }))

  unfoldable pub autopsy_first_file : ℕ → M D (Unit {0})
  autopsy_first_file rounds = do
    v ← gets (λ m. m.volume)
    p ← alloc fuel (512 * v.sectors_per_cluster)
    if p == 0 then pure tt else (do
      is_read ← read_sectors ports (sector_of v v.root_cluster) v.sectors_per_cluster p
      found ←
          gets
            (λ m. if is_read then first_file m.ram (512 * v.sectors_per_cluster / 32) p else none)
      _ ← autopsy_file rounds found
      release p)

  unfoldable pub list_root_directory : M D (Unit {0})
  list_root_directory = do
    v ← gets (λ m. m.volume)
    p ← alloc fuel (512 * v.sectors_per_cluster)
    if p == 0 then pure tt else (do
      is_read ← read_sectors ports (sector_of v v.root_cluster) v.sectors_per_cluster p
      ram ← gets (λ m. m.ram)
      _ ← show (λ s.
          if is_read
          then list_entries ram (512 * v.sectors_per_cluster / 32) p
              (next_line (label 0 "--- ROOT DIRECTORY ---" 0xaaaaaa s))
          else s)
      release p)
