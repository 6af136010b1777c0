-- ===== src/Pci/Scan.antt =====
-- What the scan reports.
use tartarus_hobby_os.Base.{ℕ, zero, suc, List, [], ◌∷◌, ◌++◌, ◌==◌, if◌then◌else◌}
use tartarus_hobby_os.Display.{Screen, update_cursor}
use tartarus_hobby_os.Display.Print.{label, down}
use tartarus_hobby_os.Pci.{config_read_word, hex}

-- A device that was found.
pub record Device : Type 0 where
  pub bus : ℕ
  pub slot : ℕ
  pub vendor : ℕ
  pub device : ℕ

abbrev pub probe : (ℕ → ℕ) → (bus slot : ℕ) → Device
probe config bus slot = record {
  bus = bus;
  slot = slot;
  vendor = config_read_word config bus slot 0 0;
  device = config_read_word config bus slot 0 2;
}

-- The devices on the slots from `i` on of a bus, and on the buses from `i` on, in order.
abbrev pub slots : (ℕ → ℕ) → (bus n i : ℕ) → List Device
slots config bus zero i = []
slots config bus (suc n) i =
    if (probe config bus i).vendor == 0xffff
    then slots config bus n (suc i)
    else probe config bus i ∷ slots config bus n (suc i)

abbrev pub buses : (ℕ → ℕ) → (n i : ℕ) → List Device
buses config zero i = []
buses config (suc n) i = slots config i 32 0 ++ buses config n (suc i)

-- Its report, in two lines: the bus and the slot, and the vendor and the device number.
abbrev pub described : Device → Screen → Screen
described d s =
    let place =
      hex 310 d.slot 0xffff00
        (label 250 "SLOT: " 0xffffff (hex 70 d.bus 0xffff00 (label 0 "[+] BUS: " 0xffffff s))) in
    update_cursor (
      down 16 (
        hex 370 d.device 0x00ffff (
          label 300 "DEVICE: " 0x00ffff
            (hex 120 d.vendor 0xffaa00 (label 30 "-> VENDOR: " 0xffaa00 (down 8 place))))))

pub report_all : List Device → Screen → Screen
report_all [] s = s
report_all (d ∷ ds) s = report_all ds (described d s)
