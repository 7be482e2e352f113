-- ===== src/Graphic/Tests.antt =====
-- A display of 40 by 30 pixels, with four columns and two rows of text.
use omocha_os.Base.{◌+◌, ◌*◌, ◌≡◌, refl, [], ◌∷◌, ◌++◌, arith}
use mathlib.Core.List.{reverse}
use omocha_os.Graphic.{
  Display, Console, print, kputc_color, kputc_color_xy, draw, put_bitmap, put_bits, fill_gap,
}
use omocha_os.Graphic.Screen.{IsInside, SameBehind, print-IsInside}

abbrev small : Display
small = record {
  disp_width = 40;
  disp_height = 30;
  disp_pitch = 160;
  char_width = 4;
  char_height = 2;
  char_y_start = 1;
  font = λ c y. c + y;
  font_block = λ y. 255;
}

abbrev blank : Console
blank = record { fb = λ a. 0; char_x = 3; char_y = 1; serial = [] }

-- At the end of the last row the text goes on in the first one.
wrapped : (kputc_color small blank b'a' 7 1).char_y ≡ 1
unfolding kputc_color
wrapped = refl

-- `b` is character 66; its second row has the bits of 67.
lit : (kputc_color small blank b'b' 7 1).fb (27 + 13 * 40 + 40 + 6) ≡ 7
unfolding kputc_color kputc_color_xy draw put_bitmap put_bits fill_gap
lit = refl

print-IsInside_example :
    IsInside small (print small blank (b'a' ∷ 10 ∷ 8 ∷ []) 7 1)
    × SameBehind small blank.fb (print small blank (b'a' ∷ 10 ∷ 8 ∷ []) 7 1).fb
    × ((print small blank (b'a' ∷ 10 ∷ 8 ∷ []) 7 1).serial ≡ reverse (b'a' ∷ 10 ∷ 8 ∷ []) ++ [])
print-IsInside_example =
    print-IsInside
      (record {
        pitch = refl;
        across = omega arith;
        down = omega arith;
        start = omega arith;
        some_column = omega arith;
      })
      blank (b'a' ∷ 10 ∷ 8 ∷ []) 7 1 (record { column = omega arith; row = omega arith })
