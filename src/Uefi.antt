-- ===== src/Uefi.antt =====
-- kernel/include/uefi.h: the memory map of the firmware.
use plusplus_os.Base.{ℕ}

-- The UEFIMemoryTypes that are used.
abbrev pub efi_loader_data : ℕ
efi_loader_data = 2

abbrev pub efi_boot_services_code : ℕ
efi_boot_services_code = 3

abbrev pub efi_boot_services_data : ℕ
efi_boot_services_data = 4

abbrev pub efi_runtime_services_code : ℕ
efi_runtime_services_code = 5

abbrev pub efi_runtime_services_data : ℕ
efi_runtime_services_data = 6

abbrev pub efi_conventional_memory : ℕ
efi_conventional_memory = 7

abbrev pub efi_acpi_reclaim_memory : ℕ
efi_acpi_reclaim_memory = 9

abbrev pub efi_acpi_memory_nvs : ℕ
efi_acpi_memory_nvs = 10

-- The fields of UEFIMemoryDescriptor that the kernel reads.
pub record MemoryDescriptor : Type 0 where
  pub desc_type : ℕ
  pub physical_start : ℕ
  pub num_pages : ℕ
