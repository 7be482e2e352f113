-- ===== src/Graphic/Pixels.antt =====
-- Where kernel/driver/graphic.c draws.
use omocha_os.Base.{
  ℕ, zero, suc, ◌+◌, ◌*◌, ◌/◌, ◌%◌, ◌^◌, ◌<◌, ◌≤◌, ◌≡◌, ◌≢◌, refl, ◌∙◌, arith, if◌then◌else◌, ◌==◌,
}
use native.Mathlib.Nat.{mul-le-mul_right}
use omocha_os.Core.Process.{update}
use omocha_os.Graphic.{Display, put_bits, put_bitmap, cell, draw, fill_gap}

put_bits-behind :
    (n : ℕ) (fb : ℕ → ℕ) (addr c x fg bg a end : ℕ)
    → addr + x + n ≤ end
    → end ≤ a
    → put_bits n fb addr c x fg bg a ≡ fb a
unfolding put_bits
put_bits-behind zero fb addr c x fg bg a end h k = refl
put_bits-behind (suc n) fb addr c x fg bg a end h k =
    let p = if c / 2 ^ x % 2 == 0 then bg else fg in
    put_bits-behind n (update fb (addr + x) p) addr c (x + 1) fg bg a end (omega arith) k
    ∙ ground arith

-- `rows` rows of 8 pixels that end before `end`.
put_bitmap-behind :
    (rows : ℕ) (fb : ℕ → ℕ) (addr width_pitch : ℕ) (bitmap : ℕ → ℕ) (y fg bg a end : ℕ)
    → addr + rows * (width_pitch / 4) + 8 ≤ end + width_pitch / 4
    → end ≤ a
    → put_bitmap rows fb addr width_pitch bitmap y fg bg a ≡ fb a
unfolding put_bitmap
put_bitmap-behind zero fb addr width_pitch bitmap y fg bg a end h k = refl
put_bitmap-behind (suc n) fb addr width_pitch bitmap y fg bg a end h k =
    put_bitmap-behind n (put_bits 8 fb addr (bitmap y) 0 fg bg) (addr + width_pitch / 4) width_pitch
      bitmap (y + 1) fg bg a end (grind arith) k
    ∙ put_bits-behind 8 fb addr (bitmap y) 0 fg bg a end (grind arith) k

-- The text lies in the frame buffer, whose rows follow one another without a gap.
pub record IsFitting (d : Display) : Type 0 where
  pub pitch : d.disp_pitch / 4 ≡ d.disp_width
  pub across : d.char_width * 9 ≤ d.disp_width
  pub down : d.char_height * 13 ≤ d.disp_height
  pub start : d.char_y_start < d.char_height
  pub some_column : 0 < d.char_width

module _ {d : Display} (fits : IsFitting d) (x y : ℕ) (hx : x < d.char_width)
    (hy : y < d.char_height) where
  row_end : y * 13 * d.disp_width + 13 * d.disp_width ≤ d.disp_height * d.disp_width
  row_end =
      let rows : y * 13 + 13 ≤ d.disp_height = omega (arith, fits.down, hy) in
      let all = mul-le-mul_right d.disp_width rows in grind arith

  pub draw-behind :
      (fb : ℕ → ℕ) (bitmap : ℕ → ℕ) (fg bg a : ℕ)
      → d.disp_height * d.disp_width ≤ a
      → draw d fb x y bitmap fg bg a ≡ fb a
  unfolding draw
  draw-behind fb bitmap fg bg a h =
      put_bitmap-behind 13 fb (cell d x y) d.disp_pitch bitmap 0 fg bg a
        (d.disp_height * d.disp_width) (omega (arith, row_end, fits.pitch, fits.across, hx)) h

  pub fill_gap-behind :
      (n i : ℕ) (fb : ℕ → ℕ) (bg a : ℕ)
      → i + n ≤ 13
      → d.disp_height * d.disp_width ≤ a
      → fill_gap n d fb x y i bg a ≡ fb a
  unfolding fill_gap
  fill_gap-behind zero i fb bg a k h = refl
  fill_gap-behind (suc n) i fb bg a k h =
      let row : d.disp_width * i + d.disp_width ≤ 13 * d.disp_width =
        let last : i + 1 ≤ 13 = omega arith in
        let all = mul-le-mul_right d.disp_width last in grind arith in
      let other : a ≢ cell d x y + d.disp_width * i + 8 =
        λ e. omega (arith, row, row_end, fits.across, hx, e) in
      fill_gap-behind n (i + 1) (update fb (cell d x y + d.disp_width * i + 8) bg) bg a
        (omega arith) h
      ∙ ground (arith, other)
