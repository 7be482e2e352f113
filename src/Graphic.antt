-- ===== src/Graphic.antt =====
-- The console of kernel/driver/graphic.c. `fb` is the frame buffer by pixel; the font is an
-- argument, the bytes of each row of each character, with what lies behind its table.
pub mod Pixels
pub mod Screen
mod Tests
use omocha_os.Base.{
  ℕ, zero, suc, ◌+◌, ◌-◌, ◌*◌, ◌/◌, ◌%◌, ◌^◌, Bool, true, false, not, ◌==◌, ◌&&◌, ltb, leb, List,
  [], ◌∷◌, if◌then◌else◌,
}
use omocha_os.Core.Process.{update}

-- The size of the screen in pixels, bytes and characters, and its first row of text.
pub record Display : Type 0 where
  pub disp_width : ℕ
  pub disp_height : ℕ
  pub disp_pitch : ℕ
  pub char_width : ℕ
  pub char_height : ℕ
  pub char_y_start : ℕ
  pub font : ℕ → ℕ → ℕ
  pub font_block : ℕ → ℕ

-- The bytes sent to the serial port have the last one first.
pub record Console : Type 0 where
  pub fb : ℕ → ℕ
  pub char_x : ℕ
  pub char_y : ℕ
  pub serial : List ℕ

-- `n` pixels of a byte of the bitmap, from bit `x` on.
unfoldable pub put_bits : (n : ℕ) → (ℕ → ℕ) → (addr c x fg bg : ℕ) → ℕ → ℕ
put_bits zero fb addr c x fg bg = fb
put_bits (suc n) fb addr c x fg bg =
    put_bits n (update fb (addr + x) (if c / 2 ^ x % 2 == 0 then bg else fg)) addr c (x + 1) fg bg

-- The rows of a bitmap that is 8 pixels wide, from row `y` on.
unfoldable pub put_bitmap :
    (rows : ℕ) → (ℕ → ℕ) → (addr width_pitch : ℕ) → (bitmap : ℕ → ℕ) → (y fg bg : ℕ) → ℕ → ℕ
unfolding put_bits
put_bitmap zero fb addr width_pitch bitmap y fg bg = fb
put_bitmap (suc n) fb addr width_pitch bitmap y fg bg =
    put_bitmap n (put_bits 8 fb addr (bitmap y) 0 fg bg) (addr + width_pitch / 4) width_pitch bitmap
      (y + 1) fg bg

-- `c - FONT_OFFSET`, for a signed `char`, as an unsigned number.
abbrev pub glyph_of : ℕ → ℕ
glyph_of c = ((if ltb c 128 then c else c + (2 ^ 32 - 256)) + 2 ^ 32 - 32) % 2 ^ 32

-- The first pixel of the place of a character.
abbrev pub cell : Display → (x y : ℕ) → ℕ
cell d x y = x * 9 + y * 13 * d.disp_width

unfoldable pub draw : Display → (ℕ → ℕ) → (x y : ℕ) → (bitmap : ℕ → ℕ) → (fg bg : ℕ) → ℕ → ℕ
unfolding put_bitmap
draw d fb x y bitmap fg bg = put_bitmap 13 fb (cell d x y) d.disp_pitch bitmap 0 fg bg

unfoldable pub kputc_color_xy : Display → (ℕ → ℕ) → (x y c fg bg : ℕ) → ℕ → ℕ
unfolding draw
kputc_color_xy d fb x y c fg bg =
    draw d fb x y (if ltb 95 (glyph_of c) then d.font_block else d.font (glyph_of c)) fg bg

-- The pixel right of each row of a character, from row `i` on.
unfoldable pub fill_gap : (n : ℕ) → Display → (ℕ → ℕ) → (x y i bg : ℕ) → ℕ → ℕ
fill_gap zero d fb x y i bg = fb
fill_gap (suc n) d fb x y i bg =
    fill_gap n d (update fb (cell d x y + d.disp_width * i + 8) bg) x y (i + 1) bg

-- The next row, or the first one behind the last.
abbrev pub next_row : Display → (y : ℕ) → ℕ
next_row d y = if leb d.char_height (y + 1) then d.char_y_start else y + 1

-- `'\n'` is 10 and `'\b'` is 8.
unfoldable pub kputc_color : Display → Console → (c fg bg : ℕ) → Console
unfolding draw kputc_color_xy fill_gap
kputc_color d s c fg bg =
    let sent = c ∷ s.serial in
    let x = if s.char_x == 0 then d.char_width - 1 else s.char_x - 1 in
    let y = if (s.char_x == 0) && not (s.char_y == 0) then s.char_y - 1 else s.char_y in
    let drawn = kputc_color_xy d s.fb s.char_x s.char_y c fg bg in
    let ends = leb d.char_width (s.char_x + 1) in
    if c == 10
    then record s { serial = sent; char_x = 0; char_y = next_row d s.char_y }
    else if c == 8
    then record { serial = sent; char_x = x; char_y = y; fb = draw d s.fb x y (d.font 0) fg bg }
    else record {
      serial = sent;
      fb = if bg == 0 then drawn else fill_gap 13 d drawn s.char_x s.char_y 0 bg;
      char_x = if ends then 0 else s.char_x + 1;
      char_y = if ends then next_row d s.char_y else s.char_y;
    }

-- The loop of `kprintfc` over its text.
unfoldable pub print : Display → Console → List ℕ → (fg bg : ℕ) → Console
print d s [] fg bg = s
print d s (c ∷ cs) fg bg = print d (kputc_color d s c fg bg) cs fg bg
