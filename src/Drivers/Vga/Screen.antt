-- ===== src/Drivers/Vga/Screen.antt =====
-- drivers/poors_man_VGA_driver.c under shell/terminal.c: the screen as a grid of characters.
use almost_os.Prelude.{
  ℕ, ◌+◌, ◌*◌, ◌≤◌, ◌<◌, ◌≡◌, ◌∙◌, refl, ap, List, [], ◌∷◌, All, Bytes, arith, ◌==◌, ◌⊎◌, ◌&&◌,
  if◌then◌else◌, some, u8, u16, inl, inr,
}
use almost_os.Terminal.{Terminal, Draw, terminal_render_to_vga}
use almost_os.Terminal.Ring.{IsValid}
use almost_os.Terminal.Render.{Inside, terminal_render_to_vga-Inside}
use almost_os.Drivers.Vga.{draw_all, print_char_to_vga_display, print_char_to_vga_display_buffer}

-- The last character drawn at a place of the grid, or what was there.
abbrev pub shown : List Draw → ℕ → ℕ → ℕ → ℕ
shown [] x y old = old
shown ((x', y', chr) ∷ draws) x y old = shown draws x y (if x' == x && y' == y then chr else old)

-- The byte of a character of the grid.
abbrev pub cell : ℕ → ℕ → ℕ
cell x y = 2 * (80 * y + x)

-- A byte outside of the lines.
abbrev pub Outside : ℕ → ℕ → ℕ → Type 0
Outside top bottom k = (k < 160 * top) ⊎ (160 * bottom ≤ k)

-- A character on the screen goes to its cell.
print_char_lem :
    (vga_ram : Bytes) (x y chr k : ℕ)
    → x < 80
    → y < 25
    → print_char_to_vga_display vga_ram x y chr 0 7 k
      ≡ (if k == cell x y then chr else if k == cell x y + 1 then 7 else vga_ram k)
unfolding print_char_to_vga_display print_char_to_vga_display_buffer
print_char_lem vga_ram x y chr k h v =
    let place : u16 (u16 (u8 y * 80 + u8 x) * 2) ≡ cell x y = omega arith in rw place (ground arith)

print_char-cell :
    (vga_ram : Bytes) (x y chr x' y' : ℕ)
    → x < 80
    → y < 25
    → x' < 80
    → print_char_to_vga_display vga_ram x y chr 0 7 (cell x' y')
      ≡ (if x == x' && y == y' then chr else vga_ram (cell x' y'))
print_char-cell vga_ram x y chr x' y' h v h' =
    print_char_lem vga_ram x y chr (cell x' y') h v ∙ ground arith

draw_all-shown :
    (draws : List Draw) (vga_ram : Bytes) (top bottom x y : ℕ)
    → All (Inside top bottom) draws
    → bottom ≤ 25
    → x < 80
    → draw_all vga_ram draws (cell x y) ≡ shown draws x y (vga_ram (cell x y))
unfolding draw_all
draw_all-shown [] vga_ram top bottom x y p b h = refl
draw_all-shown ((x', y', chr) ∷ draws) vga_ram top bottom x y p b h =
    draw_all-shown draws (print_char_to_vga_display vga_ram x' y' chr 0 7) top bottom x y p.1 b h
    ∙ ap (shown draws x y) (print_char-cell vga_ram x' y' chr x y p.0.0 (omega (arith, p.0.2)) h)

Outside-cell :
    (x y top bottom k chr old : ℕ)
    → x < 80
    → top ≤ y
    → y < bottom
    → Outside top bottom k
    → (if k == cell x y then chr else if k == cell x y + 1 then 7 else old) ≡ old
Outside-cell x y top bottom k chr old h low high (inl above) = ground arith
Outside-cell x y top bottom k chr old h low high (inr below) = ground arith

pub draw_all-Outside :
    (draws : List Draw) (vga_ram : Bytes) (top bottom k : ℕ)
    → All (Inside top bottom) draws
    → bottom ≤ 25
    → Outside top bottom k
    → draw_all vga_ram draws k ≡ vga_ram k
unfolding draw_all
draw_all-Outside [] vga_ram top bottom k p b out = refl
draw_all-Outside ((x, y, chr) ∷ draws) vga_ram top bottom k p b out =
    draw_all-Outside draws (print_char_to_vga_display vga_ram x y chr 0 7) top bottom k p.1 b out
    ∙ print_char_lem vga_ram x y chr k p.0.0 (omega (arith, p.0.2))
    ∙ Outside-cell x y top bottom k chr (vga_ram k) p.0.0 p.0.1 p.0.2 out

-- Drawing a terminal whose bounds hold and whose window ends on the screen comes to an end. Each
-- cell of the screen has the last character that was drawn there, or its old one, and no byte
-- outside of the window's lines is written, with the input line's below it.
pub terminal_render_to_vga-draw_all :
    (t : Terminal) (vga_ram : Bytes)
    → IsValid t
    → t.window_position_y + t.window_size_y + (if t.is_input_enabled then 1 else 0) ≤ 25
    → let bottom = t.window_position_y + t.window_size_y + (if t.is_input_enabled then 1 else 0) in
      (draws : List Draw) × (terminal_render_to_vga t ≡ some draws)
      × ((x y : ℕ)
          → x < 80
          → draw_all vga_ram draws (cell x y) ≡ shown draws x y (vga_ram (cell x y)))
      × ((k : ℕ) → Outside t.window_position_y bottom k → draw_all vga_ram draws k ≡ vga_ram k)
terminal_render_to_vga-draw_all t vga_ram v fits =
    let bottom = t.window_position_y + t.window_size_y + (if t.is_input_enabled then 1 else 0) in
    let (draws, run, inside) = terminal_render_to_vga-Inside t v in
    (
      draws,
      run,
      λ x y h. draw_all-shown draws vga_ram t.window_position_y bottom x y inside fits h,
      λ k out. draw_all-Outside draws vga_ram t.window_position_y bottom k inside fits out,
    )
