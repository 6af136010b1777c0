-- ===== src/Loader/Headers.antt =====
-- inc/tartarus_pe.h: the headers of a PE file, as they lie in the memory. The compiler adds
-- no padding to them: every field is at a multiple of its size.
use tartarus_hobby_os.Base.{ℕ, ◌+◌, ◌*◌, List}
use tartarus_hobby_os.Ram.{Ram, load16, load32, load64, load_bytes}

-- `TARTARUS_IMAGE_DOS_HEADER`.
pub record DosHeader : Type 0 where
  pub e_magic : ℕ
  pub e_cblp : ℕ
  pub e_cp : ℕ
  pub e_crlc : ℕ
  pub e_cparhdr : ℕ
  pub e_minalloc : ℕ
  pub e_maxalloc : ℕ
  pub e_ss : ℕ
  pub e_sp : ℕ
  pub e_csum : ℕ
  pub e_ip : ℕ
  pub e_cs : ℕ
  pub e_lfarlc : ℕ
  pub e_ovno : ℕ
  pub e_res : List ℕ
  pub e_oemid : ℕ
  pub e_oeminfo : ℕ
  pub e_res2 : List ℕ
  pub e_lfanew : ℕ

unfoldable pub dos_header_at : Ram → ℕ → DosHeader
dos_header_at ram p = record {
  e_magic = load16 ram p;
  e_cblp = load16 ram (p + 2);
  e_cp = load16 ram (p + 4);
  e_crlc = load16 ram (p + 6);
  e_cparhdr = load16 ram (p + 8);
  e_minalloc = load16 ram (p + 10);
  e_maxalloc = load16 ram (p + 12);
  e_ss = load16 ram (p + 14);
  e_sp = load16 ram (p + 16);
  e_csum = load16 ram (p + 18);
  e_ip = load16 ram (p + 20);
  e_cs = load16 ram (p + 22);
  e_lfarlc = load16 ram (p + 24);
  e_ovno = load16 ram (p + 26);
  e_res = load_bytes ram (p + 28) 8;
  e_oemid = load16 ram (p + 36);
  e_oeminfo = load16 ram (p + 38);
  e_res2 = load_bytes ram (p + 40) 20;
  e_lfanew = load32 ram (p + 60);
}

-- `TARTARUS_IMAGE_FILE_HEADER`.
pub record FileHeader : Type 0 where
  pub machine : ℕ
  pub number_of_sections : ℕ
  pub time_date_stamp : ℕ
  pub pointer_to_symbol_table : ℕ
  pub number_of_symbols : ℕ
  pub size_of_optional_header : ℕ
  pub characteristics : ℕ

unfoldable pub file_header_at : Ram → ℕ → FileHeader
file_header_at ram p = record {
  machine = load16 ram p;
  number_of_sections = load16 ram (p + 2);
  time_date_stamp = load32 ram (p + 4);
  pointer_to_symbol_table = load32 ram (p + 8);
  number_of_symbols = load32 ram (p + 12);
  size_of_optional_header = load16 ram (p + 16);
  characteristics = load16 ram (p + 18);
}

-- `TARTARUS_IMAGE_DATA_DIRECTORY`.
pub record DataDirectory : Type 0 where
  pub virtual_address : ℕ
  pub size : ℕ

unfoldable pub data_directory_at : Ram → ℕ → DataDirectory
data_directory_at ram p = record { virtual_address = load32 ram p; size = load32 ram (p + 4) }

-- `TARTARUS_IMAGE_OPTIONAL_HEADER64`.
pub record OptionalHeader : Type 0 where
  pub magic : ℕ
  pub major_linker_version : ℕ
  pub minor_linker_version : ℕ
  pub size_of_code : ℕ
  pub size_of_initialized_data : ℕ
  pub size_of_uninitialized_data : ℕ
  pub address_of_entry_point : ℕ
  pub base_of_code : ℕ
  pub image_base : ℕ
  pub section_alignment : ℕ
  pub file_alignment : ℕ
  pub major_operating_system_version : ℕ
  pub minor_operating_system_version : ℕ
  pub major_image_version : ℕ
  pub minor_image_version : ℕ
  pub major_subsystem_version : ℕ
  pub minor_subsystem_version : ℕ
  pub win32_version_value : ℕ
  pub size_of_image : ℕ
  pub size_of_headers : ℕ
  pub check_sum : ℕ
  pub subsystem : ℕ
  pub dll_characteristics : ℕ
  pub size_of_stack_reserve : ℕ
  pub size_of_stack_commit : ℕ
  pub size_of_heap_reserve : ℕ
  pub size_of_heap_commit : ℕ
  pub loader_flags : ℕ
  pub number_of_rva_and_sizes : ℕ
  pub data_directory : ℕ → DataDirectory

unfoldable pub optional_header_at : Ram → ℕ → OptionalHeader
optional_header_at ram p = record {
  magic = load16 ram p;
  major_linker_version = ram (p + 2);
  minor_linker_version = ram (p + 3);
  size_of_code = load32 ram (p + 4);
  size_of_initialized_data = load32 ram (p + 8);
  size_of_uninitialized_data = load32 ram (p + 12);
  address_of_entry_point = load32 ram (p + 16);
  base_of_code = load32 ram (p + 20);
  image_base = load64 ram (p + 24);
  section_alignment = load32 ram (p + 32);
  file_alignment = load32 ram (p + 36);
  major_operating_system_version = load16 ram (p + 40);
  minor_operating_system_version = load16 ram (p + 42);
  major_image_version = load16 ram (p + 44);
  minor_image_version = load16 ram (p + 46);
  major_subsystem_version = load16 ram (p + 48);
  minor_subsystem_version = load16 ram (p + 50);
  win32_version_value = load32 ram (p + 52);
  size_of_image = load32 ram (p + 56);
  size_of_headers = load32 ram (p + 60);
  check_sum = load32 ram (p + 64);
  subsystem = load16 ram (p + 68);
  dll_characteristics = load16 ram (p + 70);
  size_of_stack_reserve = load64 ram (p + 72);
  size_of_stack_commit = load64 ram (p + 80);
  size_of_heap_reserve = load64 ram (p + 88);
  size_of_heap_commit = load64 ram (p + 96);
  loader_flags = load32 ram (p + 104);
  number_of_rva_and_sizes = load32 ram (p + 108);
  data_directory = λ i. data_directory_at ram (p + 112 + 8 * i);
}

-- `TARTARUS_IMAGE_IMPORT_DESCRIPTOR`.
pub record ImportDescriptor : Type 0 where
  pub original_first_thunk : ℕ
  pub time_date_stamp : ℕ
  pub forwarder_chain : ℕ
  pub name : ℕ
  pub first_thunk : ℕ

unfoldable pub import_descriptor_at : Ram → ℕ → ImportDescriptor
import_descriptor_at ram p = record {
  original_first_thunk = load32 ram p;
  time_date_stamp = load32 ram (p + 4);
  forwarder_chain = load32 ram (p + 8);
  name = load32 ram (p + 12);
  first_thunk = load32 ram (p + 16);
}

-- `TARTARUS_IMAGE_SECTION_HEADER`.
pub record SectionHeader : Type 0 where
  pub name : List ℕ
  pub virtual_size : ℕ
  pub virtual_address : ℕ
  pub size_of_raw_data : ℕ
  pub pointer_to_raw_data : ℕ
  pub pointer_to_relocations : ℕ
  pub pointer_to_linenumbers : ℕ
  pub number_of_relocations : ℕ
  pub number_of_linenumbers : ℕ
  pub characteristics : ℕ

unfoldable pub section_header_at : Ram → ℕ → SectionHeader
section_header_at ram p = record {
  name = load_bytes ram p 8;
  virtual_size = load32 ram (p + 8);
  virtual_address = load32 ram (p + 12);
  size_of_raw_data = load32 ram (p + 16);
  pointer_to_raw_data = load32 ram (p + 20);
  pointer_to_relocations = load32 ram (p + 24);
  pointer_to_linenumbers = load32 ram (p + 28);
  number_of_relocations = load16 ram (p + 32);
  number_of_linenumbers = load16 ram (p + 34);
  characteristics = load32 ram (p + 36);
}

-- `TARTARUS_IMAGE_NT_HEADERS64`.
pub record NtHeaders : Type 0 where
  pub signature : ℕ
  pub file_header : FileHeader
  pub optional_header : OptionalHeader

unfoldable pub nt_headers_at : Ram → ℕ → NtHeaders
nt_headers_at ram p = record {
  signature = load32 ram p;
  file_header = file_header_at ram (p + 4);
  optional_header = optional_header_at ram (p + 24);
}
