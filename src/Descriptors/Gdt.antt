-- ===== src/Descriptors/Gdt.antt =====
-- arch/x86-32/GDT_Global_Descriptor_Table.c: reading the fields of a segment descriptor.
use almost_os.Prelude.{ℕ, ◌+◌, ◌*◌, ◌/◌, ◌%◌, ◌^◌, ◌<◌, ◌≡◌, Bytes, arith, u32}

-- `get_base_address`
unfoldable pub get_base_address : Bytes → ℕ
get_base_address entry = u32 (entry 2 + entry 3 * 256 + entry 4 * 65536 + entry 7 * 16777216)

-- `get_limit`
unfoldable pub get_limit : Bytes → ℕ
get_limit entry = u32 (entry 0 + entry 1 * 256 + entry 6 % 16 * 65536)

-- `get_access_byte`
unfoldable pub get_access_byte : Bytes → ℕ
get_access_byte entry = entry 5

-- `get_flags_nibble`
unfoldable pub get_flags_nibble : Bytes → ℕ
get_flags_nibble entry = entry 6 / 16

-- The bits of the flags.
unfoldable pub get_flag_granularity : ℕ → ℕ
get_flag_granularity flags = flags / 8 % 2

unfoldable pub get_flag_size : ℕ → ℕ
get_flag_size flags = flags / 4 % 2

unfoldable pub get_flag_long_mode_code : ℕ → ℕ
get_flag_long_mode_code flags = flags / 2 % 2

-- The bits of the access byte.
unfoldable pub get_descriptor_present_bit : ℕ → ℕ
get_descriptor_present_bit access_byte = access_byte / 128 % 2

unfoldable pub get_descriptor_privilege_level : ℕ → ℕ
get_descriptor_privilege_level access_byte = access_byte / 32 % 4

unfoldable pub get_descriptor_type : ℕ → ℕ
get_descriptor_type access_byte = access_byte / 16 % 2

unfoldable pub get_descriptor_executable : ℕ → ℕ
get_descriptor_executable access_byte = access_byte / 8 % 2

unfoldable pub get_descriptor_dc_bit : ℕ → ℕ
get_descriptor_dc_bit access_byte = access_byte / 4 % 2

unfoldable pub get_descriptor_rw_bit : ℕ → ℕ
get_descriptor_rw_bit access_byte = access_byte / 2 % 2

unfoldable pub get_descriptor_accessed_bit : ℕ → ℕ
get_descriptor_accessed_bit access_byte = access_byte / 1 % 2

-- The number of entries that `print_GDT_table` shows for the limit of the table, and where each is.
abbrev pub gdt_entries : ℕ → ℕ
gdt_entries limit = (limit + 1) / 8

-- The eight bytes of a descriptor as one little-endian number.
abbrev pub descriptor_word : Bytes → ℕ
descriptor_word entry =
    entry 0
    + entry 1 * 2 ^ 8
    + entry 2 * 2 ^ 16
    + entry 3 * 2 ^ 24
    + entry 4 * 2 ^ 32
    + entry 5 * 2 ^ 40
    + entry 6 * 2 ^ 48
    + entry 7 * 2 ^ 56

abbrev pub AreBytes : Bytes → Type 0
AreBytes entry = (i : ℕ) → i < 8 → entry i < 256

-- The readers take the fields of a descriptor where the processor has them in its 64 bits: the base
-- in bits 16 to 39 and 56 to 63, the limit in bits 0 to 15 and 48 to 51, the access byte in bits 40
-- to 47 and the flags in bits 52 to 55. Of the access byte and the flags, the present bit is bit 47,
-- the privilege level bits 45 and 46, the type bit 44, the executable, DC, RW and accessed bits are
-- bits 43 down to 40, and granularity, size and long mode are bits 55, 54 and 53.
pub descriptor_fields :
    (entry : Bytes)
    → AreBytes entry
    → let word = descriptor_word entry in
      (get_base_address entry ≡ word / 2 ^ 16 % 2 ^ 24 + word / 2 ^ 56 * 2 ^ 24)
      × (get_limit entry ≡ word % 2 ^ 16 + word / 2 ^ 48 % 2 ^ 4 * 2 ^ 16)
      × (get_access_byte entry ≡ word / 2 ^ 40 % 2 ^ 8)
      × (get_flags_nibble entry ≡ word / 2 ^ 52 % 2 ^ 4)
      × (get_descriptor_present_bit (get_access_byte entry) ≡ word / 2 ^ 47 % 2)
      × (get_descriptor_privilege_level (get_access_byte entry) ≡ word / 2 ^ 45 % 4)
      × (get_descriptor_type (get_access_byte entry) ≡ word / 2 ^ 44 % 2)
      × (get_descriptor_executable (get_access_byte entry) ≡ word / 2 ^ 43 % 2)
      × (get_descriptor_dc_bit (get_access_byte entry) ≡ word / 2 ^ 42 % 2)
      × (get_descriptor_rw_bit (get_access_byte entry) ≡ word / 2 ^ 41 % 2)
      × (get_descriptor_accessed_bit (get_access_byte entry) ≡ word / 2 ^ 40 % 2)
      × (get_flag_granularity (get_flags_nibble entry) ≡ word / 2 ^ 55 % 2)
      × (get_flag_size (get_flags_nibble entry) ≡ word / 2 ^ 54 % 2)
      × (get_flag_long_mode_code (get_flags_nibble entry) ≡ word / 2 ^ 53 % 2)
unfolding get_base_address get_limit get_access_byte get_flags_nibble get_descriptor_present_bit
    get_descriptor_privilege_level get_descriptor_type get_descriptor_executable
    get_descriptor_dc_bit get_descriptor_rw_bit get_descriptor_accessed_bit get_flag_granularity
    get_flag_size get_flag_long_mode_code
descriptor_fields entry bytes =
    let b0 : entry 0 < 256 = bytes 0 (omega arith) in
    let b1 : entry 1 < 256 = bytes 1 (omega arith) in
    let b2 : entry 2 < 256 = bytes 2 (omega arith) in
    let b3 : entry 3 < 256 = bytes 3 (omega arith) in
    let b4 : entry 4 < 256 = bytes 4 (omega arith) in
    let b5 : entry 5 < 256 = bytes 5 (omega arith) in
    let b6 : entry 6 < 256 = bytes 6 (omega arith) in
    let b7 : entry 7 < 256 = bytes 7 (omega arith) in
    (
      omega arith,
      omega arith,
      omega arith,
      omega arith,
      omega arith,
      omega arith,
      omega arith,
      omega arith,
      omega arith,
      omega arith,
      omega arith,
      omega arith,
      omega arith,
      omega arith,
    )
