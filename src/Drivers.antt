-- ===== src/Drivers.antt =====
-- drivers/ and the ports of arch/x86-32. What a port answers is an argument, and what goes to the
-- ports is a list of pairs of port and byte.
pub mod Vga
pub mod Keyboard
pub mod Ports
