-- ===== src/Pci.antt =====
-- kernel/src/pci.c: the scan of the PCI buses that the MCFG table names. A device's configuration
-- space is read at the address where it is mapped; the mapping and kalloc are arguments.
mod Tests
use plusplus_os.Base.{
  ℕ, zero, suc, ◌+◌, ◌-◌, ◌*◌, ◌/◌, ◌%◌, ◌^◌, Bool, true, false, not, ◌&&◌, Option, none, some,
  List, [], ◌∷◌, ltb, ◌==◌, if◌then◌else◌, add64, sub64, ◌<<<◌, bit_and, bit_or,
}
use plusplus_os.Machine.{
  Cmd, ok, stop, null_pointer, mcfg_not_found, pure, kernel_assert, ◌>>=◌, ◌>>◌,
}
use plusplus_os.Memory.Paging.{paging_writable, paging_cache_disable}
use plusplus_os.Acpi.{read_le, sdt_length}

-- sizeof(MCFG), sizeof(MCFGEntry)
abbrev pub mcfg_size : ℕ
mcfg_size = 44

abbrev pub mcfg_entry_size : ℕ
mcfg_entry_size = 16

-- PCIDeviceEntry; `type` is the union's other view of the four bytes.
pub record PciDeviceEntry : Type 0 where
  pub config_space : ℕ
  pub revision_id : ℕ
  pub prog_if : ℕ
  pub subclass : ℕ
  pub class_code : ℕ

unfoldable pub device_type : PciDeviceEntry → ℕ
device_type e = e.revision_id + 2 ^ 8 * e.prog_if + 2 ^ 16 * e.subclass + 2 ^ 24 * e.class_code

-- g_pci_device_list, memory, and the state of the other parts.
pub record Pci (X : Type 0) : Type 0 where
  pub device_list : List PciDeviceEntry
  pub bytes : ℕ → ℕ
  pub rest : X

-- The walk along the devices: 0 if none fits.
unfoldable pub get_pci_device : List PciDeviceEntry → ℕ → ℕ → ℕ
get_pci_device [] type mask = 0
get_pci_device (e ∷ next) type mask =
    if bit_and (device_type e) mask == type then e.config_space else get_pci_device next type mask

-- The entry of the device whose configuration space is at `config_space`.
unfoldable pub entry_of : (ℕ → ℕ) → ℕ → PciDeviceEntry
entry_of bytes config_space = record {
  config_space = config_space;
  revision_id = bytes (config_space + 8);
  prog_if = bytes (config_space + 9);
  subclass = bytes (config_space + 10);
  class_code = bytes (config_space + 11);
}

-- config_space->vendor_id != 0xffff
unfoldable pub exists : (ℕ → ℕ) → ℕ → Bool
exists bytes config_space = not (read_le bytes 2 config_space == 0xffff)

-- (config_space->header_type & 0x80) != 0
unfoldable pub is_multi_func : (ℕ → ℕ) → ℕ → Bool
is_multi_func bytes config_space = not (bit_and (bytes (config_space + 14)) 0x80 == 0)

unfoldable pub config_phys_addr : ℕ → ℕ → ℕ → ℕ → ℕ
config_phys_addr base_phys_addr bus device func =
    add64 base_phys_addr (bit_or (bit_or (bus <<< 20) (device <<< 15)) (func <<< 12))

module _ {X : Type 0} where
  -- A new entry at `node` becomes the first of the list; kalloc's result is not compared with 0.
  unfoldable pub push_device : ℕ → ℕ → Cmd (Pci X) (Unit {0})
  push_device config_space node s =
      if node == 0
      then stop null_pointer
      else ok tt (record s { device_list = entry_of s.bytes config_space ∷ s.device_list })

  module _ (kmap_phys_range : ℕ → ℕ → ℕ → Cmd (Pci X) ℕ)
      (kunmap_range : ℕ → ℕ → Cmd (Pci X) (Unit {0})) (kalloc : ℕ → Cmd (Pci X) ℕ) where
    -- What the loop over the functions does with a configuration space: whether it goes on.
    unfoldable pub examine : ℕ → ℕ → Cmd (Pci X) Bool
    examine func config_space s =
        if ltb 0 func && not (is_multi_func s.bytes config_space)
        then (kunmap_range config_space 1 >> pure false) s
        else if not (exists s.bytes config_space)
        then (kunmap_range config_space 1 >> pure true) s
        else (do node ← kalloc 20; push_device config_space node; pure true) s

    -- The functions of a device from `func` on, `left` of them.
    unfoldable pub scan_functions : ℕ → ℕ → ℕ → ℕ → ℕ → Cmd (Pci X) (Unit {0})
    scan_functions base_phys_addr bus device func zero = pure tt
    scan_functions base_phys_addr bus device func (suc left) = do
      config_space ←
          kmap_phys_range (config_phys_addr base_phys_addr bus device func) 1
            (paging_writable + paging_cache_disable)
      more ← examine func config_space
      if more then scan_functions base_phys_addr bus device (func + 1) left else pure tt

    unfoldable pub scan_devices : ℕ → ℕ → ℕ → ℕ → Cmd (Pci X) (Unit {0})
    scan_devices base_phys_addr bus device zero = pure tt
    scan_devices base_phys_addr bus device (suc left) = do
      scan_functions base_phys_addr bus device 0 8
      scan_devices base_phys_addr bus (device + 1) left

    unfoldable pub scan_buses : ℕ → ℕ → ℕ → Cmd (Pci X) (Unit {0})
    scan_buses base_phys_addr bus zero = pure tt
    scan_buses base_phys_addr bus (suc left) = do
      scan_devices base_phys_addr bus 0 32
      scan_buses base_phys_addr (bus + 1) left

    -- The buses of an MCFGEntry from start_bus up to, and without, end_bus.
    unfoldable pub scan_entry : ℕ → Cmd (Pci X) (Unit {0})
    scan_entry entry s =
        scan_buses (read_le s.bytes 8 entry) (s.bytes (entry + 10))
          (s.bytes (entry + 11) - s.bytes (entry + 10)) s

    unfoldable pub scan_entries : ℕ → ℕ → Cmd (Pci X) (Unit {0})
    scan_entries entry zero = pure tt
    scan_entries entry (suc left) = do scan_entry entry; scan_entries (entry + mcfg_entry_size) left

    unfoldable pub enumerate_pci_devices : Cmd (Pci X) ℕ → Cmd (Pci X) (Unit {0})
    enumerate_pci_devices find_mcfg = do
      mcfg ← find_mcfg
      kernel_assert (not (mcfg == 0)) mcfg_not_found
      (λ s.
          scan_entries (mcfg + mcfg_size)
            (sub64 (sdt_length s.bytes mcfg) mcfg_size / mcfg_entry_size) s)
