-- ===== src/Tests/Tables.antt =====
-- The descriptor tables at concrete inputs.
use almost_os.Prelude.{
  ℕ, zero, suc, ◌+◌, ◌*◌, ◌/◌, ◌%◌, ◌^◌, ◌<◌, ◌≤◌, ◌≡◌, ◌⊎◌, refl, inr, [], ◌∷◌, Bytes, of_list,
  arith,
}
use almost_os.Descriptors.Gdt.{
  get_base_address, get_limit, get_access_byte, get_flags_nibble, get_descriptor_present_bit,
  get_descriptor_privilege_level, get_descriptor_type, get_descriptor_executable,
  get_descriptor_dc_bit, get_descriptor_rw_bit, get_descriptor_accessed_bit, get_flag_granularity,
  get_flag_size, get_flag_long_mode_code, descriptor_word, AreBytes, descriptor_fields,
}
use almost_os.Descriptors.Idt.{
  IdtHeader, Handlers, add_idt_entry, get_descriptor_gate_type,
  configure_interrupt_descriptor_table,
}
use almost_os.Descriptors.Idt.Entries.{decode, decode-add_idt_entry}
use almost_os.Descriptors.Idt.Configured.{Entries, kernel_table, configure-Entries}

-- The code segment that the boot loader sets up.
abbrev code_segment : Bytes
code_segment = of_list (255 ∷ 255 ∷ 0 ∷ 0 ∷ 0 ∷ 154 ∷ 207 ∷ 0 ∷ [])

code_segment-AreBytes : AreBytes code_segment
code_segment-AreBytes zero h = omega arith
code_segment-AreBytes (suc zero) h = omega arith
code_segment-AreBytes (suc (suc zero)) h = omega arith
code_segment-AreBytes (suc (suc (suc zero))) h = omega arith
code_segment-AreBytes (suc (suc (suc (suc zero)))) h = omega arith
code_segment-AreBytes (suc (suc (suc (suc (suc zero))))) h = omega arith
code_segment-AreBytes (suc (suc (suc (suc (suc (suc zero)))))) h = omega arith
code_segment-AreBytes (suc (suc (suc (suc (suc (suc (suc zero))))))) h = omega arith
code_segment-AreBytes (suc (suc (suc (suc (suc (suc (suc (suc i)))))))) h = absurd (omega arith)

descriptor_fields_example :
    let word = descriptor_word code_segment in
    (get_base_address code_segment ≡ word / 2 ^ 16 % 2 ^ 24 + word / 2 ^ 56 * 2 ^ 24)
    × (get_limit code_segment ≡ word % 2 ^ 16 + word / 2 ^ 48 % 2 ^ 4 * 2 ^ 16)
    × (get_access_byte code_segment ≡ word / 2 ^ 40 % 2 ^ 8)
    × (get_flags_nibble code_segment ≡ word / 2 ^ 52 % 2 ^ 4)
    × (get_descriptor_present_bit (get_access_byte code_segment) ≡ word / 2 ^ 47 % 2)
    × (get_descriptor_privilege_level (get_access_byte code_segment) ≡ word / 2 ^ 45 % 4)
    × (get_descriptor_type (get_access_byte code_segment) ≡ word / 2 ^ 44 % 2)
    × (get_descriptor_executable (get_access_byte code_segment) ≡ word / 2 ^ 43 % 2)
    × (get_descriptor_dc_bit (get_access_byte code_segment) ≡ word / 2 ^ 42 % 2)
    × (get_descriptor_rw_bit (get_access_byte code_segment) ≡ word / 2 ^ 41 % 2)
    × (get_descriptor_accessed_bit (get_access_byte code_segment) ≡ word / 2 ^ 40 % 2)
    × (get_flag_granularity (get_flags_nibble code_segment) ≡ word / 2 ^ 55 % 2)
    × (get_flag_size (get_flags_nibble code_segment) ≡ word / 2 ^ 54 % 2)
    × (get_flag_long_mode_code (get_flags_nibble code_segment) ≡ word / 2 ^ 53 % 2)
descriptor_fields_example = descriptor_fields code_segment code_segment-AreBytes

abbrev zeros : Bytes
zeros = of_list []

abbrev header : IdtHeader
header = record { limit = 2048; base = 4096 }

decode-add_idt_entry_example :
    (decode (add_idt_entry header 6 0 15 8 1234 zeros) 4144
      ≡ record { present = 1; privilege = 0; gate_type = 15; segment = 8; offset = 1234 })
    × ((p : ℕ) → (p < 4144) ⊎ (4152 ≤ p) → add_idt_entry header 6 0 15 8 1234 zeros p ≡ zeros p)
decode-add_idt_entry_example =
    decode-add_idt_entry header 6 0 15 8 1234 zeros refl (omega arith) (inr (omega arith))
      (omega arith) (omega arith)

-- A trap gate at vector 0 of the table at address 0.
abbrev trap_gate : Bytes
trap_gate = of_list (0 ∷ 0 ∷ 8 ∷ 0 ∷ 0 ∷ 143 ∷ 0 ∷ 0 ∷ [])

trap_read : get_descriptor_gate_type trap_gate 0 ≡ 15
unfolding get_descriptor_gate_type
trap_read = refl

abbrev handlers : Handlers
handlers = record {
  divide_error = 1048576;
  invalid_opcode = 1048592;
  segment_not_present = 1048608;
  general_protection = 1048624;
  syscall_entry_point = 1048640;
}

configure-Entries_example :
    Entries 4096 (configure_interrupt_descriptor_table 4096 handlers zeros) (kernel_table handlers)
configure-Entries_example =
    configure-Entries 4096 handlers zeros
      (omega arith, omega arith, omega arith, omega arith, omega arith)
