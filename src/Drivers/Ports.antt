-- ===== src/Drivers/Ports.antt =====
-- arch/x86-32/COM_port.c and tty.c, and read_16bit of BIOS_Data_Area.c.
use almost_os.Prelude.{
  ℕ, ◌+◌, ◌-◌, ◌*◌, List, [], ◌∷◌, Bytes, bit_and, ltb, ◌==◌, if◌then◌else◌, u16,
}
use almost_os.Prelude.Int.{ℤ, pos, negsuc}

-- A byte written to a port.
abbrev pub PortWrite : Type 0
PortWrite = ℕ × ℕ

abbrev pub com1_port : ℕ
com1_port = 1016

abbrev pub lsr_data_ready : ℕ
lsr_data_ready = 1

-- `COM_port_TX`
unfoldable pub com_port_tx : ℕ → List PortWrite
com_port_tx value = (com1_port, value) ∷ (if value == 13 then (com1_port, 10) ∷ [] else [])

-- `COM_port_RX`, with what the line status register and the data register answer.
unfoldable pub com_port_rx : ℕ → ℕ → ℕ
com_port_rx line_status value = if bit_and line_status lsr_data_ready == 0 then 255 else value

-- `tty_write` and `tty_read`
abbrev pub tty_write : ℕ → List PortWrite
tty_write value = com_port_tx value

abbrev pub tty_read : ℕ → ℕ → ℕ
tty_read line_status value = com_port_rx line_status value

-- `read_16bit`, whose result is a 16-bit signed integer.
unfoldable pub read_16bit : Bytes → ℕ → ℤ
read_16bit buffer offset =
    let word = u16 (buffer (offset + 1) * 256 + buffer offset) in
    if ltb word 32768 then pos word else negsuc (65535 - word)
