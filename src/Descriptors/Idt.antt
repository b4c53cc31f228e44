-- ===== src/Descriptors/Idt.antt =====
-- arch/x86-32/IDT_Interrupt_Descriptor_Table.c: the table of interrupt gates in the address space.
pub mod Entries
pub mod Configured
use almost_os.Prelude.{
  ℕ, zero, suc, ◌+◌, ◌*◌, ◌/◌, ◌%◌, not, ◌&&◌, ◌||◌, List, [], ◌∷◌, Bytes, store, bit_or, ltb, ◌==◌,
  if◌then◌else◌, u8, u16, u32,
}

abbrev pub idt_entry_size : ℕ
idt_entry_size = 8

abbrev pub idt_max_num_of_entries : ℕ
idt_max_num_of_entries = 256

-- `GATE_TYPE__32_BIT_INTERRUPT` and `GATE_TYPE__32_BIT_TRAP`
abbrev pub gate_type_interrupt : ℕ
gate_type_interrupt = 14

abbrev pub gate_type_trap : ℕ
gate_type_trap = 15

-- The vectors that get a handler.
abbrev pub vec_divide_error : ℕ
vec_divide_error = 0

abbrev pub vec_invalid_opcode : ℕ
vec_invalid_opcode = 6

abbrev pub vec_segment_not_present : ℕ
vec_segment_not_present = 11

abbrev pub vec_general_protection : ℕ
vec_general_protection = 13

abbrev pub vec_linux_syscall_api : ℕ
vec_linux_syscall_api = 128

-- `idt_hdr_t`
pub record IdtHeader : Type 0 where
  pub limit : ℕ
  pub base : ℕ

-- `get_IDT_table_entry`, as an address
unfoldable pub get_idt_table_entry : IdtHeader → ℕ → ℕ
get_idt_table_entry idt_hdr index = idt_hdr.base + index * idt_entry_size

-- `get_descriptor_offset`
unfoldable pub get_descriptor_offset : Bytes → ℕ → ℕ
get_descriptor_offset m entry_addr = u32 (
    m (entry_addr + 0)
    + m (entry_addr + 1) * 256
    + m (entry_addr + 6) * 65536
    + m (entry_addr + 7) * 16777216)

-- `set_descriptor_offset`
unfoldable pub set_descriptor_offset : Bytes → ℕ → ℕ → Bytes
set_descriptor_offset m entry_addr offset_addr =
    store
      (store
        (store (store m (entry_addr + 0) (offset_addr % 256)) (entry_addr + 1)
          (offset_addr / 256 % 256))
        (entry_addr + 6) (offset_addr / 65536 % 256))
      (entry_addr + 7) (offset_addr / 16777216 % 256)

-- `get_descriptor_segment`
unfoldable pub get_descriptor_segment : Bytes → ℕ → ℕ
get_descriptor_segment m entry_addr = u16 (m (entry_addr + 2) + m (entry_addr + 3) * 256)

-- `set_descriptor_segment`
unfoldable pub set_descriptor_segment : Bytes → ℕ → ℕ → Bytes
set_descriptor_segment m entry_addr segment_selector =
    store (store m (entry_addr + 2) (segment_selector % 256)) (entry_addr + 3)
      (segment_selector / 256 % 256)

-- `get_descriptor_gate_type`
unfoldable pub get_descriptor_gate_type : Bytes → ℕ → ℕ
get_descriptor_gate_type m entry_addr = m (entry_addr + 5) % 16

-- `(gate_type < 0x5 || gate_type > 0x7) && (gate_type != 0xE && gate_type != 0xF)` gives 0.
unfoldable pub checked_gate_type : ℕ → ℕ
checked_gate_type gate_type =
    if (ltb gate_type 5 || ltb 7 gate_type) && (not (gate_type == 14) && not (gate_type == 15))
    then 0
    else gate_type

-- `set_descriptor_gate_type`: a wrong type is logged, and 0.
unfoldable pub set_descriptor_gate_type : Bytes → ℕ → ℕ → Bytes
set_descriptor_gate_type m entry_addr gate_type =
    store m (entry_addr + 5) (u8 (bit_or (m (entry_addr + 5)) (checked_gate_type gate_type % 16)))

-- `get_descriptor_privilege`
unfoldable pub get_descriptor_privilege : Bytes → ℕ → ℕ
get_descriptor_privilege m entry_addr = m (entry_addr + 5) / 32 % 4

-- A privilege above 3 is logged, and 3.
unfoldable pub checked_privilege : ℕ → ℕ
checked_privilege cpu_privilege = if ltb 3 cpu_privilege then 3 else cpu_privilege

-- `set_descriptor_privilege`
unfoldable pub set_descriptor_privilege : Bytes → ℕ → ℕ → Bytes
set_descriptor_privilege m entry_addr cpu_privilege =
    store m (entry_addr + 5)
      (u8 (bit_or (m (entry_addr + 5)) (checked_privilege cpu_privilege % 4 * 32)))

-- `get_descriptor_present_bit`
unfoldable pub get_descriptor_present_bit : Bytes → ℕ → ℕ
get_descriptor_present_bit m entry_addr = m (entry_addr + 5) / 128

-- `set_descriptor_present_bit`
unfoldable pub set_descriptor_present_bit : Bytes → ℕ → ℕ → Bytes
set_descriptor_present_bit m entry_addr value =
    store m (entry_addr + 5) (u8 (bit_or (m (entry_addr + 5)) (value * 128)))

-- `add_IDT_entry`, whose parameters are cut to their 8 and 16 bits
unfoldable pub add_idt_entry : IdtHeader → ℕ → ℕ → ℕ → ℕ → ℕ → Bytes → Bytes
add_idt_entry idt_hdr vector_id privilege gate_type segment func_handler m =
    let entry_addr = get_idt_table_entry idt_hdr (u8 vector_id) in
    let present = set_descriptor_present_bit m entry_addr 1 in
    let privileged = set_descriptor_privilege present entry_addr (u8 privilege) in
    let typed = set_descriptor_gate_type privileged entry_addr (u8 gate_type) in
    let in_segment = set_descriptor_segment typed entry_addr (u16 segment) in
    set_descriptor_offset in_segment entry_addr (u32 func_handler)

-- `*(uint64_t*) entry_addr = 0`
unfoldable pub clear_entry : Bytes → ℕ → Bytes
clear_entry m entry_addr p =
    if not (ltb p entry_addr) && ltb p (entry_addr + idt_entry_size) then 0 else m p

-- The loop that deletes the entries from `i` on, `n` of them.
unfoldable pub clear_entries : ℕ → ℕ → IdtHeader → Bytes → Bytes
clear_entries zero i idt_hdr m = m
clear_entries (suc n) i idt_hdr m =
    clear_entries n (i + 1) idt_hdr (clear_entry m (get_idt_table_entry idt_hdr (u8 i)))

-- The addresses of the handlers.
pub record Handlers : Type 0 where
  pub divide_error : ℕ
  pub invalid_opcode : ℕ
  pub segment_not_present : ℕ
  pub general_protection : ℕ
  pub syscall_entry_point : ℕ

-- The header that `configure_interrupt_descriptor_table` sets; `table` is the address of `IDT_table`.
abbrev pub new_header : ℕ → IdtHeader
new_header table = record { limit = idt_max_num_of_entries * idt_entry_size; base = u32 table }

-- `configure_interrupt_descriptor_table` up to the instruction that loads the table.
unfoldable pub configure_interrupt_descriptor_table : ℕ → Handlers → Bytes → Bytes
configure_interrupt_descriptor_table table handlers m =
    let idt_hdr = new_header table in
    let cleared = clear_entries (idt_hdr.limit / idt_entry_size) 0 idt_hdr m in
    let m0 =
      add_idt_entry idt_hdr vec_divide_error 0 gate_type_trap 8 handlers.divide_error cleared in
    let m1 =
      add_idt_entry idt_hdr vec_invalid_opcode 0 gate_type_trap 8 handlers.invalid_opcode m0 in
    let m2 =
      add_idt_entry idt_hdr vec_segment_not_present 0 gate_type_trap 8 handlers.segment_not_present
        m1 in
    let m3 =
      add_idt_entry idt_hdr vec_general_protection 0 gate_type_trap 8 handlers.general_protection
        m2 in
    add_idt_entry idt_hdr vec_linux_syscall_api 0 gate_type_interrupt 8 handlers.syscall_entry_point
      m3
