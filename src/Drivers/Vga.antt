-- ===== src/Drivers/Vga.antt =====
-- drivers/poors_man_VGA_driver.c: the text mode memory, two bytes for each character of the screen,
-- and the cursor's registers.
pub mod Screen
use almost_os.Prelude.{ℕ, zero, suc, ◌+◌, ◌*◌, ◌/◌, List, [], ◌∷◌, Bytes, store, u8, u16}
use almost_os.Terminal.{Draw}
use almost_os.Drivers.Ports.{PortWrite}

abbrev pub vga_textmode_width : ℕ
vga_textmode_width = 80

abbrev pub default_background_color : ℕ
default_background_color = 0

abbrev pub default_foreground_color : ℕ
default_foreground_color = 7

abbrev pub crtc_controller_address : ℕ
crtc_controller_address = 980

abbrev pub crtc_controller_data : ℕ
crtc_controller_data = 981

-- `set_cursor_position`, with the coordinates as 16-bit words
unfoldable pub set_cursor_position : ℕ → ℕ → List PortWrite
set_cursor_position x y =
    let offset = u16 y * vga_textmode_width + u16 x in
    (crtc_controller_address, 15)
    ∷ (crtc_controller_data, u8 offset)
    ∷ (crtc_controller_address, 14)
    ∷ (crtc_controller_data, u8 (offset / 256))
    ∷ []

-- `print_char_to_VGA_display_buffer`: the memory at 0xB8000 before and after it
unfoldable pub print_char_to_vga_display_buffer : Bytes → ℕ → ℕ → ℕ → ℕ → Bytes
print_char_to_vga_display_buffer vga_ram position chr background_color foreground_color =
    let address = u16 (u16 position * 2) in
    store (store vga_ram address chr) (address + 1) (u8 (background_color * 16 + foreground_color))

-- `print_char_to_VGA_display`, with the coordinates as bytes
unfoldable pub print_char_to_vga_display : Bytes → ℕ → ℕ → ℕ → ℕ → ℕ → Bytes
print_char_to_vga_display vga_ram x y chr background_color foreground_color =
    print_char_to_vga_display_buffer vga_ram (u8 y * vga_textmode_width + u8 x) chr background_color
      foreground_color

-- The loop of `print_string_to_VGA_display_buffer`: `n` rounds from character `i`.
unfoldable pub print_string_from : ℕ → ℕ → Bytes → ℕ → Bytes → Bytes
print_string_from zero i vga_ram position string = vga_ram
print_string_from (suc n) i vga_ram position string =
    print_string_from n (i + 1)
      (print_char_to_vga_display_buffer vga_ram (u16 (position + i)) (string i)
        default_background_color default_foreground_color)
      position string

-- `print_string_to_VGA_display_buffer`
abbrev pub print_string_to_vga_display_buffer : Bytes → ℕ → Bytes → ℕ → Bytes
print_string_to_vga_display_buffer vga_ram position string string_size =
    print_string_from string_size 0 vga_ram position string

-- The characters that a terminal draws, one after the other, in the colors that it takes.
unfoldable pub draw_all : Bytes → List Draw → Bytes
draw_all vga_ram [] = vga_ram
draw_all vga_ram ((x, y, chr) ∷ draws) =
    draw_all
      (print_char_to_vga_display vga_ram x y chr default_background_color default_foreground_color)
      draws
