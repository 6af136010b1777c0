-- ===== src/Loader/Sections.antt =====
-- The loops of `ExecuteFirstFile` that copy the sections of a PE file to where they are run.
use tartarus_hobby_os.Base.{ℕ, zero, suc, true, false, ◌^◌, ◌+◌, ◌*◌, ltb, if◌then◌else◌, for_range}
use tartarus_hobby_os.Ram.{Ram, load32, store8}
use tartarus_hobby_os.Loader.Headers.{NtHeaders, section_header_at}

-- The loop from the byte `b` on, with the rounds that are left. The number of bytes stands at `size_at`
-- and is read again for every byte, since the copy may overwrite it; `b` counts to at most 2 ^ 32 - 1.
unfoldable pub copy_bytes : (size_at dest src left b : ℕ) → Ram → Ram
copy_bytes size_at dest src zero b ram = ram
copy_bytes size_at dest src (suc left) b ram = elim (ltb b (load32 ram size_at)) [
  | false ↦ ram
  | true ↦ copy_bytes size_at dest src left (b + 1) (store8 (dest + b) (ram (src + b)) ram)
]

-- The section whose header is at `p`: neither the place in the file nor the place in the sandbox is
-- checked. SizeOfRawData lies 16 bytes into the header.
unfoldable pub map_section : (virtual_ram buf p : ℕ) → Ram → Ram
map_section virtual_ram buf p ram =
    let h = section_header_at ram p in
    if ltb 0 h.size_of_raw_data
    then copy_bytes (p + 16) (virtual_ram + h.virtual_address) (buf + h.pointer_to_raw_data)
        (2 ^ 32) 0 ram
    else ram

-- The address of the first section's header, behind the optional header.
abbrev pub section_headers : (nt : ℕ) → NtHeaders → ℕ
section_headers nt headers = nt + 24 + headers.file_header.size_of_optional_header

unfoldable pub map_sections : (virtual_ram buf nt : ℕ) → NtHeaders → Ram → Ram
map_sections virtual_ram buf nt headers ram =
    for_range headers.file_header.number_of_sections 0
      (λ s r. map_section virtual_ram buf (section_headers nt headers + 40 * s) r) ram
