-- ===== src/Pci/Tests.antt =====
-- kernel/src/pci.c: buses with one device, which is mapped where it lies in physical memory.
use plusplus_os.Base.{ℕ, ◌+◌, ◌*◌, ◌/◌, ◌%◌, ◌^◌, ◌≡◌, refl, List, [], ◌==◌, if◌then◌else◌}
use plusplus_os.Machine.{Run, Cmd, ok}
use plusplus_os.Acpi.{read_le}
use plusplus_os.Pci.{
  PciDeviceEntry, device_type, Pci, get_pci_device, entry_of, exists, is_multi_func,
  config_phys_addr, push_device, examine, scan_functions, scan_devices,
}

-- Only the device 3 of bus 2 exists. It has one function, and the class 1, subclass 6.
abbrev configuration : ℕ → ℕ
configuration a =
    if a / 2 ^ 12 == 2 * 2 ^ 8 + 3 * 2 ^ 3
    then if a % 2 ^ 12 == 11 then 1 else if a % 2 ^ 12 == 10 then 6 else 0
    else 0xff

abbrev buses : Pci (Unit {0})
buses = record { device_list = []; bytes = configuration; rest = tt }

abbrev identity : ℕ → ℕ → ℕ → Cmd (Pci (Unit {0})) ℕ
identity phys pages flags s = ok phys s

abbrev unmapped : ℕ → ℕ → Cmd (Pci (Unit {0})) (Unit {0})
unmapped virt pages s = ok tt s

abbrev some_node : ℕ → Cmd (Pci (Unit {0})) ℕ
some_node size s = ok 64 s

abbrev devices : Run (Pci (Unit {0})) (Unit {0}) → List PciDeviceEntry
devices (ok u s) = s.device_list
devices _ = []

-- Four devices of bus 2.
scan_test :
    get_pci_device
      (devices (scan_devices identity unmapped some_node 0 2 0 4 buses))
      0x01060000
      0xffff0000
    ≡ 0x218000
unfolding get_pci_device device_type entry_of exists is_multi_func config_phys_addr push_device
    examine scan_functions scan_devices read_le
scan_test = refl
