-- ===== src/Descriptors/Idt/Entries.antt =====
-- IDT_Interrupt_Descriptor_Table.c: one entry of the table.
use almost_os.Prelude.{ℕ, ◌+◌, ◌*◌, ◌/◌, ◌%◌, ◌<◌, ◌≤◌, ◌≡◌, ◌⊎◌, Bytes, bit_or, arith, u8, u32}
use almost_os.Util.Bits.{or_present, or_privilege, or_fresh, or_ones}
use almost_os.Descriptors.Idt.{
  IdtHeader, get_idt_table_entry, get_descriptor_offset, set_descriptor_offset,
  get_descriptor_segment, set_descriptor_segment, get_descriptor_gate_type,
  set_descriptor_gate_type, get_descriptor_privilege, set_descriptor_privilege,
  get_descriptor_present_bit, set_descriptor_present_bit, checked_gate_type, checked_privilege,
  add_idt_entry,
}

-- What the readers find at an entry.
pub record Gate : Type 0 where
  pub present : ℕ
  pub privilege : ℕ
  pub gate_type : ℕ
  pub segment : ℕ
  pub offset : ℕ

unfoldable pub decode : Bytes → ℕ → Gate
decode m entry_addr = record {
  present = get_descriptor_present_bit m entry_addr;
  privilege = get_descriptor_privilege m entry_addr;
  gate_type = get_descriptor_gate_type m entry_addr;
  segment = get_descriptor_segment m entry_addr;
  offset = get_descriptor_offset m entry_addr;
}

-- `entry`'s bytes after `add_IDT_entry`, and all others.
abbrev pub flags_byte : ℕ → ℕ → ℕ → ℕ
flags_byte old privilege gate_type = u8 (
    bit_or (u8 (bit_or (u8 (bit_or old 128)) (checked_privilege privilege % 4 * 32)))
      (checked_gate_type gate_type % 16))

pub add_idt_entry_bytes :
    (idt_hdr : IdtHeader) (vector privilege gate_type segment handler : ℕ) (m : Bytes)
    → let e = idt_hdr.base + u8 vector * 8 in
      let m' = add_idt_entry idt_hdr vector privilege gate_type segment handler m in
      (m' (e + 0) ≡ u32 handler % 256)
      × (m' (e + 1) ≡ u32 handler / 256 % 256)
      × (m' (e + 2) ≡ segment % 256)
      × (m' (e + 3) ≡ segment / 256 % 256)
      × (m' (e + 5) ≡ flags_byte (m (e + 5)) (u8 privilege) (u8 gate_type))
      × (m' (e + 6) ≡ u32 handler / 65536 % 256)
      × (m' (e + 7) ≡ u32 handler / 16777216 % 256)
unfolding add_idt_entry get_idt_table_entry set_descriptor_offset set_descriptor_segment
    set_descriptor_gate_type set_descriptor_privilege set_descriptor_present_bit
add_idt_entry_bytes idt_hdr vector privilege gate_type segment handler m = (
  ground arith,
  ground arith,
  ground arith,
  ground arith,
  ground arith,
  ground arith,
  ground arith,
)

pub add_idt_entry_others :
    (idt_hdr : IdtHeader) (vector privilege gate_type segment handler : ℕ) (m : Bytes) (p : ℕ)
    → (p < idt_hdr.base + u8 vector * 8) ⊎ (idt_hdr.base + u8 vector * 8 + 8 ≤ p)
    → add_idt_entry idt_hdr vector privilege gate_type segment handler m p ≡ m p
unfolding add_idt_entry get_idt_table_entry set_descriptor_offset set_descriptor_segment
    set_descriptor_gate_type set_descriptor_privilege set_descriptor_present_bit
add_idt_entry_others idt_hdr vector privilege gate_type segment handler m p outside = ground arith

-- The five types that the code accepts.
abbrev pub IsGateType : ℕ → Type 0
IsGateType t = ((5 ≤ t) × (t ≤ 7)) ⊎ ((14 ≤ t) × (t ≤ 15))

-- Where the flags byte of the entry of a vector, cut to 8 bits, is 0, `add_IDT_entry` registers a
-- handler: with a privilege below 4, a gate type that the code accepts, a segment of 16 bits and an
-- address of 32 bits the entry then reads as a present gate with just these. All bytes outside the
-- entry stay.
pub decode-add_idt_entry :
    (idt_hdr : IdtHeader) (vector privilege gate_type segment handler : ℕ) (m : Bytes)
    → m (idt_hdr.base + u8 vector * 8 + 5) ≡ 0
    → privilege < 4
    → IsGateType gate_type
    → segment < 65536
    → handler < 4294967296
    → let e = idt_hdr.base + u8 vector * 8 in
      let m' = add_idt_entry idt_hdr vector privilege gate_type segment handler m in
      (decode m' e ≡ record {
        present = 1;
        privilege = privilege;
        gate_type = gate_type;
        segment = segment;
        offset = handler;
      })
      × ((p : ℕ) → (p < e) ⊎ (e + 8 ≤ p) → m' p ≡ m p)
unfolding decode get_descriptor_present_bit get_descriptor_privilege get_descriptor_gate_type
    get_descriptor_segment get_descriptor_offset checked_gate_type checked_privilege
decode-add_idt_entry idt_hdr vector privilege gate_type segment handler m fresh p g s h =
    let (b0, b1, b2, b3, b5, b6, b7) =
      add_idt_entry_bytes idt_hdr vector privilege gate_type segment handler m in
    let p_eq : checked_privilege (u8 privilege) % 4 ≡ privilege = ground arith in
    let g_eq : checked_gate_type (u8 gate_type) % 16 ≡ gate_type = ground arith in
    let flags : flags_byte (m (idt_hdr.base + u8 vector * 8 + 5)) (u8 privilege) (u8 gate_type)
        ≡ 128 + privilege * 32 + gate_type =
      rw (fresh, p_eq, g_eq) (or_fresh privilege gate_type p (ground arith)) in
    (
      ground (arith, b0, b1, b2, b3, b5, b6, b7, flags),
      add_idt_entry_others idt_hdr vector privilege gate_type segment handler m,
    )

-- Registering again: an entry whose gate type is 15, a 32-bit trap, keeps it whatever type is asked
-- for, since the new flags are only added to the old.
pub gate_type-add_idt_entry :
    (idt_hdr : IdtHeader) (vector privilege gate_type segment handler : ℕ) (m : Bytes)
    → m (idt_hdr.base + u8 vector * 8 + 5) < 256
    → get_descriptor_gate_type m (idt_hdr.base + u8 vector * 8) ≡ 15
    → get_descriptor_gate_type
        (add_idt_entry idt_hdr vector privilege gate_type segment handler m)
        (idt_hdr.base + u8 vector * 8)
      ≡ 15
unfolding get_descriptor_gate_type
gate_type-add_idt_entry idt_hdr vector privilege gate_type segment handler m byte trap =
    let old = m (idt_hdr.base + u8 vector * 8 + 5) in
    let (_, _, _, _, b5, _, _) =
      add_idt_entry_bytes idt_hdr vector privilege gate_type segment handler m in
    let first = u8 (bit_or old 128) in
    let second = u8 (bit_or first (checked_privilege (u8 privilege) % 4 * 32)) in
    let kept : second % 16 ≡ 15 = omega (
      arith,
      or_present old 0 byte (omega arith),
      or_privilege first (checked_privilege (u8 privilege) % 4) (omega arith) (omega arith),
    ) in
    let split : second ≡ second / 16 * 16 + 15 = omega arith in
    rw (b5, split)
      (or_ones (second / 16) (checked_gate_type (u8 gate_type) % 16) (omega arith) (omega arith))
