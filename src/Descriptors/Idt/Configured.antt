-- ===== src/Descriptors/Idt/Configured.antt =====
-- IDT_Interrupt_Descriptor_Table.c: the table that `configure_interrupt_descriptor_table` makes.
use almost_os.Prelude.{
  ℕ, zero, suc, ◌+◌, ◌*◌, ◌<◌, ◌≤◌, ◌≡◌, ◌≢◌, ◌⊎◌, inl, inr, refl, ◌∙◌, true, false, Option, none,
  some, Bytes, arith, ◌==◌, if◌then◌else◌, u8, u32, ℕ_discrete, dec_lt,
}
use mathlib.Core.Path.{subst}
use almost_os.Descriptors.Idt.{
  IdtHeader, Handlers, get_idt_table_entry, get_descriptor_offset, get_descriptor_segment,
  get_descriptor_gate_type, get_descriptor_privilege, get_descriptor_present_bit, add_idt_entry,
  clear_entry, clear_entries, new_header, configure_interrupt_descriptor_table, gate_type_interrupt,
  gate_type_trap, vec_divide_error, vec_invalid_opcode, vec_segment_not_present,
  vec_general_protection, vec_linux_syscall_api,
}
use almost_os.Descriptors.Idt.Entries.{Gate, decode, IsGateType, decode-add_idt_entry}

-- An entry of the table: one that is all zeros, or a gate.
abbrev pub Entry : Bytes → ℕ → Option Gate → Type 0
Entry m e none = (k : ℕ) → k < 8 → m (e + k) ≡ 0
Entry m e (some g) = decode m e ≡ g

Entry-same :
    (m m' : Bytes) (e : ℕ) (entry : Option Gate)
    → ((k : ℕ) → k < 8 → m' (e + k) ≡ m (e + k))
    → Entry m e entry
    → Entry m' e entry
unfolding decode get_descriptor_present_bit get_descriptor_privilege get_descriptor_gate_type
    get_descriptor_segment get_descriptor_offset
Entry-same m m' e none same h = λ k p. same k p ∙ h k p
Entry-same m m' e (some g) same h =
    rw
      (
        same 0 (omega arith),
        same 1 (omega arith),
        same 2 (omega arith),
        same 3 (omega arith),
        same 5 (omega arith),
        same 6 (omega arith),
        same 7 (omega arith),
      )
      h

-- The entries of the whole table at address `base`.
abbrev pub Entries : ℕ → Bytes → (ℕ → Option Gate) → Type 0
Entries base m table = (v : ℕ) → v < 256 → Entry m (base + v * 8) (table v)

-- A kernel gate to a handler.
abbrev pub kernel_gate : ℕ → ℕ → Gate
kernel_gate gate_type handler = record {
  present = 1;
  privilege = 0;
  gate_type = gate_type;
  segment = 8;
  offset = handler;
}

abbrev pub register : ℕ → Gate → (ℕ → Option Gate) → ℕ → Option Gate
register w g table v = if v == w then some g else table v

apart :
    (base v w k : ℕ)
    → v ≢ w
    → k < 8
    → (base + v * 8 + k < base + w * 8) ⊎ (base + w * 8 + 8 ≤ base + v * 8 + k)
apart base v w k ne h = elim (dec_lt v w) [ yes p ↦ inl (omega arith) | no p ↦ inr (omega arith) ]

Entries-add :
    (idt_hdr : IdtHeader) (w gate_type handler : ℕ) (m : Bytes) (table : ℕ → Option Gate)
    → Entries idt_hdr.base m table
    → w < 256
    → table w ≡ none
    → IsGateType gate_type
    → handler < 4294967296
    → Entries idt_hdr.base
        (add_idt_entry idt_hdr w 0 gate_type 8 handler m)
        (register w (kernel_gate gate_type handler) table)
Entries-add idt_hdr w gate_type handler m table entries inside free g h v p =
    let fresh : Entry m (idt_hdr.base + w * 8) none = rw free at (entries w inside) in
    let byte : u8 w ≡ w = omega arith in
    let (decoded, others) = rw byte at (
      decode-add_idt_entry idt_hdr w 0 gate_type 8 handler m (rw byte (fresh 5 (omega arith)))
        (omega arith) g (omega arith) h) in
    elim (ℕ_discrete v w) [
      | yes e ↦ let same : (v == w) ≡ true = ground arith in rw same (rw e decoded)
      | no ne ↦
          let differ : (v == w) ≡ false = ground arith in
          rw differ (
            Entry-same m (add_idt_entry idt_hdr w 0 gate_type 8 handler m) (idt_hdr.base + v * 8)
              (table v) (λ k q. others (idt_hdr.base + v * 8 + k) (apart idt_hdr.base v w k ne q))
              (entries v p))
    ]

clear_entries_lem :
    (n i : ℕ) (idt_hdr : IdtHeader) (m : Bytes)
    → i + n ≡ 256
    → ((p : ℕ) → p < i * 8 → m (idt_hdr.base + p) ≡ 0)
    → (p : ℕ) → p < 2048
    → clear_entries n i idt_hdr m (idt_hdr.base + p) ≡ 0
unfolding clear_entries clear_entry get_idt_table_entry
clear_entries_lem zero i idt_hdr m e done p h = done p (omega arith)
clear_entries_lem (suc n) i idt_hdr m e done p h =
    clear_entries_lem n (i + 1) idt_hdr _ (omega arith) (λ q r. ground (arith, done q)) p h

abbrev pub FitHandlers : Handlers → Type 0
FitHandlers h =
    (h.divide_error < 4294967296)
    × (h.invalid_opcode < 4294967296)
    × (h.segment_not_present < 4294967296)
    × (h.general_protection < 4294967296)
    × (h.syscall_entry_point < 4294967296)

-- The gates of the kernel, by vector.
abbrev pub kernel_table : Handlers → ℕ → Option Gate
kernel_table h v =
    if v == vec_linux_syscall_api
    then some (kernel_gate gate_type_interrupt h.syscall_entry_point)
    else if v == vec_general_protection
    then some (kernel_gate gate_type_trap h.general_protection)
    else if v == vec_segment_not_present
    then some (kernel_gate gate_type_trap h.segment_not_present)
    else if v == vec_invalid_opcode
    then some (kernel_gate gate_type_trap h.invalid_opcode)
    else if v == vec_divide_error
    then some (kernel_gate gate_type_trap h.divide_error)
    else none

no_gates : ℕ → Option Gate
no_gates v = none

cleared_Entries :
    (idt_hdr : IdtHeader) (m : Bytes)
    → Entries idt_hdr.base (clear_entries 256 0 idt_hdr m) no_gates
unfolding no_gates
cleared_Entries idt_hdr m v p = λ k q.
    let shift : idt_hdr.base + (v * 8 + k) ≡ idt_hdr.base + v * 8 + k = omega arith in
    subst (λ (a : ℕ). clear_entries 256 0 idt_hdr m a ≡ 0) shift
      (clear_entries_lem 256 0 idt_hdr m refl (λ r h. absurd (omega arith)) (v * 8 + k)
        (omega arith))

trap_IsGateType : IsGateType 15
trap_IsGateType = inr (omega arith)

interrupt_IsGateType : IsGateType 14
interrupt_IsGateType = inr (omega arith)

-- Whatever the memory held, `configure_interrupt_descriptor_table` leaves a table of 256 entries in
-- which the vectors 0, 6, 11, 13 and 128 read as present gates of the kernel, segment 8 and
-- privilege 0, with the types and handlers of `kernel_table`, and every other entry is zero. The
-- handlers have addresses of 32 bits.
pub configure-Entries :
    (table : ℕ) (handlers : Handlers) (m : Bytes)
    → FitHandlers handlers
    → Entries
        (u32 table)
        (configure_interrupt_descriptor_table table handlers m)
        (kernel_table handlers)
unfolding configure_interrupt_descriptor_table no_gates
configure-Entries table handlers m (h0, h1, h2, h3, h4) =
    let hdr : IdtHeader = new_header table in
    let m0 : Bytes = clear_entries 256 0 hdr m in
    let m1 : Bytes = add_idt_entry hdr 0 0 15 8 handlers.divide_error m0 in
    let m2 : Bytes = add_idt_entry hdr 6 0 15 8 handlers.invalid_opcode m1 in
    let m3 : Bytes = add_idt_entry hdr 11 0 15 8 handlers.segment_not_present m2 in
    let m4 : Bytes = add_idt_entry hdr 13 0 15 8 handlers.general_protection m3 in
    let t1 = register 0 (kernel_gate 15 handlers.divide_error) no_gates in
    let t2 = register 6 (kernel_gate 15 handlers.invalid_opcode) t1 in
    let t3 = register 11 (kernel_gate 15 handlers.segment_not_present) t2 in
    let t4 = register 13 (kernel_gate 15 handlers.general_protection) t3 in
    let e1 =
      Entries-add hdr 0 15 handlers.divide_error m0 no_gates (cleared_Entries hdr m) (omega arith)
        refl trap_IsGateType h0 in
    let e2 =
      Entries-add hdr 6 15 handlers.invalid_opcode m1 t1 e1 (omega arith) refl trap_IsGateType h1 in
    let e3 =
      Entries-add hdr 11 15 handlers.segment_not_present m2 t2 e2 (omega arith) refl trap_IsGateType
        h2 in
    let e4 =
      Entries-add hdr 13 15 handlers.general_protection m3 t3 e3 (omega arith) refl trap_IsGateType
        h3 in
    Entries-add hdr 128 14 handlers.syscall_entry_point m4 t4 e4 (omega arith) refl
      interrupt_IsGateType h4
