-- ===== src/Pci.antt =====
-- src/pci.c: reading the configuration space of PCI, and the scan of all buses. `config` is what the
-- hardware gives at port 0xCFC after an address is written to port 0xCF8.
pub mod Address
pub mod Scan
mod Examples
use tartarus_hobby_os.Base.{
  ℕ, ◌*◌, ◌^◌, ◌%◌, ◌==◌, if◌then◌else◌, bit_and, bit_or, u16, u32, add32, ◌<<<◌, ◌>>>◌, for_range,
}
use tartarus_hobby_os.Display.{Screen, draw_hex64, update_cursor}
use tartarus_hobby_os.Display.Print.{label, down}

unfoldable pub config_address : (bus slot func offset : ℕ) → ℕ
config_address bus slot func offset =
    let device = bit_or (u32 (bus <<< 16)) (u32 (slot <<< 11)) in
    let function = bit_or device (u32 (func <<< 8)) in
    bit_or (bit_or function (bit_and offset 0xfc)) 0x8000_0000

unfoldable pub config_read_word : (ℕ → ℕ) → (bus slot func offset : ℕ) → ℕ
config_read_word config bus slot func offset =
    u16 (bit_and (config (config_address bus slot func offset) >>> (bit_and offset 2 * 8)) 0xffff)

-- `DrawHex64` at a distance to the right of the cursor.
abbrev pub hex : ℕ → ℕ → ℕ → Screen → Screen
hex dx value color s = draw_hex64 (add32 s.cursor_x dx) s.cursor_y value color s

unfoldable pub report_device : (bus slot vendor device : ℕ) → Screen → Screen
report_device bus slot vendor device s =
    let s1 = hex 70 bus 0xffff00 (label 0 "[+] BUS: " 0xffffff s) in
    let s2 = down 8 (hex 310 slot 0xffff00 (label 250 "SLOT: " 0xffffff s1)) in
    let s3 = hex 120 vendor 0xffaa00 (label 30 "-> VENDOR: " 0xffaa00 s2) in
    let s4 = hex 370 device 0x00ffff (label 300 "DEVICE: " 0x00ffff s3) in
    update_cursor (down 16 s4)

unfoldable pub scan_slot : (ℕ → ℕ) → (bus slot : ℕ) → Screen → Screen
scan_slot config bus slot s =
    let vendor = config_read_word config bus slot 0 0 in
    if vendor == 0xffff
    then s
    else report_device bus slot vendor (config_read_word config bus slot 0 2) s

unfoldable pub scan_pci_bus : (ℕ → ℕ) → Screen → Screen
scan_pci_bus config s =
    let begun = update_cursor (down 8 (label 0 "[*] SCANNING PCIE HARDWARE BUS..." 0x00ff00 s)) in
    let scanned = for_range 256 0 (λ bus t. for_range 32 0 (scan_slot config bus) t) begun in
    update_cursor (down 8 (label 0 "[+] PCI SCAN COMPLETE RUNNING STABLE." 0x00ff00 scanned))
