-- ===== src/Descriptors.antt =====
-- arch/x86-32: the descriptor tables of the processor, as bytes of the address space.
pub mod Gdt
pub mod Idt
