-- ===== src/Pci/Examples.antt =====
-- The theorems on PCI at a machine of two devices.
use tartarus_hobby_os.Base.{ℕ, ◌==◌, if◌then◌else◌}
use tartarus_hobby_os.Display.{Screen}

abbrev screen : Screen
screen = record {
  frame_buffer = 0x8000_0000;
  pixel = λ q. 0;
  pitch = 1024;
  width = 1024;
  height = 768;
  cursor_x = 0;
  cursor_y = 16;
}

-- A host bridge on slot 0 and a display on slot 2 of bus 0.
abbrev machine : ℕ → ℕ
machine address =
    if address == 0x8000_0000
    then 0x1237_8086
    else if address == 0x8000_1000
    then 0x1111_1234
    else 0xffff_ffff
