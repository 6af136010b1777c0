-- ===== src/Loader.antt =====
-- The loader of src/fat32.c, `ExecuteFirstFile`: the first file of the root directory is read into the
-- heap; a PE image is spread over a sandbox of 2 MB, linked against traps, and run.
pub mod Headers
pub mod EntryPoint
pub mod First
pub mod Code
pub mod Search
pub mod Sections
pub mod Imports
pub mod Peb
pub mod Modules
mod Examples
use Prim.Native.String.{String}
use Headers.{dos_header_at, nt_headers_at}
use EntryPoint.{find_original_entry_point}
use Sections.{map_sections}
use Imports.{patch_imports}
use Peb.{build_peb, plant_abyss}
use tartarus_hobby_os.Base.{
  ℕ, ◌+◌, ◌*◌, ◌/◌, Bool, true, false, ◌&&◌, Option, none, some, List, ◌==◌, if◌then◌else◌, add32,
  codes,
}
use tartarus_hobby_os.Display.{Screen, update_cursor}
use tartarus_hobby_os.Display.Print.{label, down}
use tartarus_hobby_os.Debugger.{number}
use tartarus_hobby_os.ApiManifold.{deploy_god_object}
use tartarus_hobby_os.ApiManifold.Exports.{build_universal_export_table}
use tartarus_hobby_os.Ata.{Ports}
use tartarus_hobby_os.Ram.{Ram, memset_ram}
use tartarus_hobby_os.Machine.{
  Machine, M, pure, ◌>>=◌, ◌>>◌, gets, modify, show, poke, alloc, release, read_sectors,
}
use tartarus_hobby_os.Fat32.{DirEntry, sector_of, first_cluster, first_file, load_loop}

-- What the loader uses of the assembly, the linker and the processor: the ports, the run of a
-- payload, the registers that `wrmsr` sets, and the addresses of three functions.
pub record Host {ℓ} (D : Type ℓ) : Type ℓ where
  pub ports : Ports D
  pub execute_with_trap_flag : ℕ → M D (Unit {0})
  pub wrmsr : ℕ → ℕ → D → D
  pub static_iat_trap : ℕ
  pub universal_api_trap : ℕ
  pub amnesia_stub : ℕ

-- A line of text and the step to the next.
abbrev pub print_line {ℓ} : {D : Type ℓ} → String → ℕ → M D (Unit {0})
print_line str color = show (λ s. update_cursor (down 8 (label 0 str color s)))

-- A line with a number in it.
abbrev pub print_number {ℓ} : {D : Type ℓ} → String → ℕ → ℕ → M D (Unit {0})
print_number str value color =
    show (λ s. update_cursor (down 8 (number 220 value color (label 0 str 0xaaaaaa s))))

module _ {ℓ} {D : Type ℓ} (host : Host D) (fuel : ℕ) where
  -- `rounds` is fuel.
  unfoldable pub resolve_imports : (rounds virtual_ram nt : ℕ) → M D (Unit {0})
  resolve_imports rounds virtual_ram nt m =
      let directory = (nt_headers_at m.ram nt).optional_header.data_directory 1 in
      elim (patch_imports host.static_iat_trap virtual_ram rounds directory.virtual_address m.ram) [
        | none ↦ none
        | some ram ↦ some (tt, record m { ram = ram })
      ]

  unfoldable pub report_entry_point : (raw_entry real_main_oep : ℕ) → M D (Unit {0})
  report_entry_point raw_entry real_main_oep =
      if real_main_oep == raw_entry
      then print_line "[!] Compiler pattern mismatch. Defaulting to raw EntryPoint." 0xffff00
      else (do
        _ ← print_line "[+] Automated OEP Found! Bypassed CRT Stub." 0x00ff00
        print_number "[-] Target main() Address: " real_main_oep 0xffff00)

  -- What the program finds in the memory, but for its image and the trap at address 0.
  unfoldable pub deploy_environment : M D (Unit {0})
  deploy_environment = do
    _ ← print_line "[*] Arming Trap Flag. Firing Execution..." 0xffff00
    _ ← print_line "[+] Deploying TARTARUS God Object at 0x02000000..." 0xff00ff
    _ ← poke (deploy_god_object host.amnesia_stub)
    _ ← print_line "[+] Constructing Multi-Module PEB/LDR Chain..." 0xff00ff
    _ ← poke build_peb
    _ ← print_line "[+] Deploying NTDLL and KERNEL32 Manifolds..." 0xff00ff
    _ ← poke (λ r.
        build_universal_export_table host.universal_api_trap 0x0200_0000 (codes "ntdll.dll")
          (memset_ram 0x0200_0000 0 0x5000 r))
    _ ← poke (λ r.
        build_universal_export_table host.universal_api_trap 0x0300_0000 (codes "KERNEL32.DLL")
          (memset_ram 0x0300_0000 0 0x5000 r))
    _ ← print_line "[!] Resetting CPU MSR Registers (FS/GS Base)..." 0x00ff00
    modify (λ m.
        let d1 = host.wrmsr 0xc000_0100 0 m.drive in
        let d2 = host.wrmsr 0xc000_0101 0 d1 in record m { drive = host.wrmsr 0xc000_0102 0 d2 })

  unfoldable pub map_image : (buf nt : ℕ) → M D ℕ
  map_image buf nt = do
    _ ← print_line "[*] Header parsed successfully. Section mapping required next." 0xffff00
    _ ← print_line "[!] Mapping Sections to Virtual RAM..." 0xff00ff
    virtual_ram ← alloc fuel (2 * 1024 * 1024)
    _ ← poke (λ r. map_sections virtual_ram buf nt (nt_headers_at r nt) r)
    _ ← print_line "[!] Patching Import Address Table (IAT)..." 0xff00ff
    _ ← print_line "[+] Sections Mapped. Executing Entry Point..." 0x00ff00
    _ ← print_line "[+] Sections Mapped. Analyzing Compiler Signatures..." 0x00ff00
    _ ← print_line "[+] Resolving Static IAT Imports..." 0xff00ff
    pure virtual_ram

  -- The image whose headers are at `nt`.
  unfoldable pub execute_image : (rounds buf nt : ℕ) → M D (Unit {0})
  execute_image rounds buf nt = do
    optional ← gets (λ m. (nt_headers_at m.ram nt).optional_header)
    _ ← print_number "[-] Preferred Image Base: " optional.image_base 0xffffff
    _ ← print_number "[-] Address Of Entry Point: " optional.address_of_entry_point 0x00ff00
    virtual_ram ← map_image buf nt
    _ ← resolve_imports rounds virtual_ram nt
    raw_entry ←
        gets (λ m. virtual_ram + (nt_headers_at m.ram nt).optional_header.address_of_entry_point)
    real_main_oep ← gets (λ m. find_original_entry_point m.ram raw_entry)
    _ ← report_entry_point raw_entry real_main_oep
    _ ← deploy_environment
    _ ← print_line "[!] Planting TARTARUS ABYSS TRAP at physical address 0x0..." 0x00ff00
    _ ← poke (plant_abyss host.universal_api_trap)
    _ ← host.execute_with_trap_flag real_main_oep
    show (λ s. label 0 "[+] PE Execution Completed." 0x00ff00 s)

  unfoldable pub execute_pe : (rounds buf : ℕ) → M D (Unit {0})
  execute_pe rounds buf = do
    _ ← print_line "[!] Windows PE (.exe) Detected! Parsing Headers..." 0xff00ff
    nt ← gets (λ m. buf + (dos_header_at m.ram buf).e_lfanew)
    signature ← gets (λ m. (nt_headers_at m.ram nt).signature)
    if signature == 0x0000_4550
        then execute_image rounds buf nt
        else show (λ s. label 0 "[X] Invalid PE Signature!" 0xff0000 s)

  unfoldable pub execute_raw : (exec_buffer : ℕ) → M D (Unit {0})
  execute_raw exec_buffer = do
    _ ← print_line "[+] Raw Binary Detected. Jumping to Ring 0 with TF..." 0x00ff00
    _ ← host.execute_with_trap_flag exec_buffer
    show (λ s. label 0 "[+] Payload Execution Completed." 0x00ff00 s)

  unfoldable pub refuse_elf : M D (Unit {0})
  refuse_elf = do
    _ ← print_line "[!] Linux ELF Binary Detected!" 0x00ffff
    show (λ s. label 0 "[-] Full ELF Segment Mapping required to execute." 0xff0000 s)

  -- By the first bytes of the file.
  unfoldable pub execute_buffer : (rounds buf : ℕ) → M D (Unit {0})
  execute_buffer rounds buf = do
    ram ← gets (λ m. m.ram)
    if (ram buf == 0x4d) && (ram (buf + 1) == 0x5a)
        then execute_pe rounds buf
        else (if (ram buf == 0x7f)
              && (ram (buf + 1) == b'E')
              && (ram (buf + 2) == b'L')
              && (ram (buf + 3) == b'F')
            then refuse_elf
            else execute_raw buf)

  -- What is done with the first file, or without one. That `malloc` may give NULL is not asked.
  unfoldable pub execute_file : ℕ → Option DirEntry → M D (Unit {0})
  execute_file rounds none = print_line "No executable found." 0xff0000
  execute_file rounds (some e) = do
    exec_buffer ← alloc fuel (add32 e.file_size 512)
    _ ← load_loop host.ports fuel rounds exec_buffer e.file_size (first_cluster e) 0
    _ ← print_line "[*] Analyzing File Signature..." 0xaaaaaa
    _ ← execute_buffer rounds exec_buffer
    _ ← show (λ s. update_cursor (down 8 (record s { cursor_x = 0 })))
    release exec_buffer

  unfoldable pub execute_first_file : ℕ → M D (Unit {0})
  execute_first_file rounds = do
    v ← gets (λ m. m.volume)
    p ← alloc fuel (512 * v.sectors_per_cluster)
    if p == 0 then pure tt else (do
      is_read ← read_sectors host.ports (sector_of v v.root_cluster) v.sectors_per_cluster p
      found ←
          gets
            (λ m. if is_read then first_file m.ram (512 * v.sectors_per_cluster / 32) p else none)
      _ ← execute_file rounds found
      release p)
