-- ===== src/Shell/Commands.antt =====
-- The commands of `ExecuteCommand`, each with the arguments it was given.
use tartarus_hobby_os.Base.{
  ℕ, ◌+◌, ◌*◌, Bool, true, false, Option, none, some, [], ◌∷◌, ◌==◌, if◌then◌else◌, bit_and, ◌>>>◌,
  add32, get_or, replicate, for_range,
}
use tartarus_hobby_os.Text.{hex_chars, hex_to_string, strcpy_custom}
use tartarus_hobby_os.Display.{Screen, update_cursor}
use tartarus_hobby_os.Display.Print.{say, label, down}
use tartarus_hobby_os.Debugger.{number}
use tartarus_hobby_os.Pci.{scan_pci_bus}
use tartarus_hobby_os.MemoryMap.{MemoryDescriptor, analyze_physical_memory}
use tartarus_hobby_os.Ram.{load32, load64, store64}
use tartarus_hobby_os.Machine.{
  M, pure, ◌>>=◌, ◌>>◌, gets, modify, show, poke, alloc, release, read_sectors,
}
use tartarus_hobby_os.Loader.{Host, print_line}

-- What the commands use of the processor, the buses and UEFI's map, besides what the loader uses.
pub record Platform {ℓ} (D : Type ℓ) : Type ℓ where
  pub host : Host D
  -- Which physical address the processor's walk of the page tables gives for an address; `none` is a
  -- page fault, and what the run does then.
  pub pages : ℕ → Option ℕ
  pub page_fault : ℕ → M D (Unit {0})
  pub cr3 : ℕ
  pub read_msr : ℕ → D → ℕ
  pub in_b : ℕ → D → ℕ × D
  pub config : ℕ → ℕ
  pub memory_map : ℕ → MemoryDescriptor
  pub map_size : ℕ
  pub descriptor_size : ℕ

-- The first four words of the sector at `p`.
unfoldable pub dump_sector : (ℕ → ℕ) → ℕ → Screen → Screen
dump_sector ram p s =
    let titled = update_cursor (down 8 (label 0 "First 16 bytes of raw data: " 0x00ff00 s)) in
    let dumped =
      for_range 4 0
        (λ d t.
          let shown = number 0 (load32 ram (p + 4 * d)) 0xffffff t in
          update_cursor (record shown { cursor_x = add32 shown.cursor_x 160 }))
        titled in
    update_cursor (down 8 (record dumped { cursor_x = 0 }))

unfoldable pub announce_read : ℕ → Screen → Screen
announce_read target_addr s =
    label 224 "] -> " 0xaaaaaa (number 72 target_addr 0x00aa00 (label 0 "Reading [" 0xaaaaaa s))

unfoldable pub show_value : ℕ → Screen → Screen
show_value value s = update_cursor (down 8 (number 264 value 0x00aa00 s))

unfoldable pub announce_write : (target_addr write_val : ℕ) → Screen → Screen
announce_write target_addr write_val s =
    let s1 = number 64 write_val 0x00aa00 (label 0 "Writing " 0xaaaaaa s) in
    let s2 = number 256 target_addr 0x00aa00 (label 216 " to [" 0xaaaaaa s1) in
    update_cursor (down 8 (label 408 "]" 0xaaaaaa s2))

module _ {ℓ} {D : Type ℓ} where
  -- `strcpy_custom(Clipboard, hexBuf)`, with the digits of a number.
  unfoldable pub copy_to_clipboard : ℕ → M D (Unit {0})
  copy_to_clipboard value m =
      elim (strcpy_custom m.console.clipboard (hex_to_string value (replicate 19 0))) [
        | none ↦ none
        | some clipboard ↦
            some (tt, record m { console = record m.console { clipboard = clipboard } })
      ]

  unfoldable pub free_address : ℕ → M D (Unit {0})
  free_address addr = do _ ← release addr; print_line "Memory freed successfully." 0x00aa00

  unfoldable pub report_alloc : ℕ → M D (Unit {0})
  report_alloc ptr =
      if ptr == 0 then print_line "Allocation FAILED! Out of Memory." 0xff0000 else (do
        _ ← show (λ s.
            label 264 "]" 0xaaaaaa (number 112 ptr 0x00ff00 (label 0 "Allocated at [" 0xaaaaaa s)))
        _ ← copy_to_clipboard ptr
        show (λ s. update_cursor (down 8 s)))

module _ {ℓ} {D : Type ℓ} (platform : Platform D) where
  -- An access to eight bytes: the physical address of the first. Without a page for the first or the
  -- last of them it is a page fault; if that comes back, the access is made again, at the address.
  unfoldable pub reach : ℕ → M D ℕ
  reach address = elim (platform.pages address) [
    | none ↦ platform.page_fault address >> pure address
    | some physical ↦ elim (platform.pages (address + 7)) [
      | none ↦ platform.page_fault (address + 7) >> pure address
      | some last ↦ pure physical
    ]
  ]

  unfoldable pub read_address : ℕ → M D (Unit {0})
  read_address target_addr = do
    _ ← show (announce_read target_addr)
    physical ← reach target_addr
    value ← gets (λ m. load64 m.ram physical)
    _ ← show (show_value value)
    copy_to_clipboard value

  unfoldable pub write_address : (target_addr write_val : ℕ) → M D (Unit {0})
  write_address target_addr write_val = do
    _ ← show (announce_write target_addr write_val)
    physical ← reach target_addr
    _ ← poke (store64 physical write_val)
    print_line "Write successful." 0x00aa00

  unfoldable pub crash : M D (Unit {0})
  crash = do
    _ ← print_line "[!] INITIATING BARE-METAL KERNEL SUICIDE..." 0xff0000
    physical ← reach 0x10_dead_c0de
    poke (store64 physical 0x1337)

  unfoldable pub sysinfo : M D (Unit {0})
  sysinfo = do
    _ ← show (λ s.
        update_cursor
          (down 8 (number 144 platform.cr3 0xaaaaaa (label 0 "CR3 Base:         " 0x00aa00 s))))
    frame_buffer ← gets (λ m. m.console.screen.frame_buffer)
    _ ← show (λ s.
        update_cursor
          (down 8 (number 144 frame_buffer 0xaaaaaa (label 0 "FrameBuffer Base: " 0x00aa00 s))))
    copy_to_clipboard frame_buffer

  unfoldable pub recon : M D (Unit {0})
  recon = do
    cpu_perf ← gets (λ m. platform.read_msr 0xc001_0071 m.drive)
    _ ← show (λ s.
        let s1 = down 8 (label 0 "[!] INITIATING BARE-METAL HARDWARE RECON..." 0xff0000 s) in
        down 8
          (number 250 cpu_perf 0xffffff (label 0 "[RECON] MSR 0x199 (PERF_CTL): " 0xffff00 s1)))
    port_status ← gets (λ m. (platform.in_b 0x64 m.drive).0)
    _ ← modify (λ m. record m { drive = (platform.in_b 0x64 m.drive).1 })
    show (λ s.
        let high = get_or hex_chars (bit_and (port_status >>> 4) 0x0f) 0 in
        let low = get_or hex_chars (bit_and port_status 0x0f) 0 in
        let s1 = label 0 "[RECON] Port 0x64 (STATUS)  : " 0xff00ff s in
        update_cursor (down 8 (say 250 (high ∷ low ∷ 0 ∷ []) 0xffffff s1)))

  unfoldable pub pci : M D (Unit {0})
  pci = show (λ s. scan_pci_bus platform.config (record s { cursor_x = 0 }))

  unfoldable pub mem : M D (Unit {0})
  mem = show (λ s.
      analyze_physical_memory platform.memory_map platform.map_size platform.descriptor_size
        (record s { cursor_x = 0 }))

module _ {ℓ} {D : Type ℓ} (platform : Platform D) (fuel : ℕ) where
  unfoldable pub alloc_size : ℕ → M D (Unit {0})
  alloc_size size = alloc fuel size >>= report_alloc

  unfoldable pub show_sector : (target_sector p : ℕ) → M D (Unit {0})
  show_sector target_sector p = do
    _ ← print_line "Requesting sector... " 0xaaaaaa
    is_read ← read_sectors platform.host.ports target_sector 1 p
    ram ← gets (λ m. m.ram)
    _ ←
        (if is_read
          then show (dump_sector ram p)
          else print_line "Disk read operation failed." 0xff0000)
    release p

  -- Whether the command goes on to the end of `ExecuteCommand`: without a buffer it returns at once.
  unfoldable pub diskread : ℕ → M D Bool
  diskread target_sector = do
    p ← alloc fuel 512
    if p == 0
        then print_line "Buffer allocation failed." 0xff0000 >> pure false
        else show_sector target_sector p >> pure true
