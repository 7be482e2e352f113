-- ===== src/Graphic/Screen.antt =====
-- The cursor and the frame buffer of kernel/driver/graphic.c while text is printed.
use omocha_os.Base.{
  ℕ, ◌-◌, ◌*◌, ◌<◌, ◌≤◌, ◌≡◌, ◌≢◌, refl, ap, sym, append_assoc, ◌∙◌, false, not, ◌==◌, ◌&&◌, ltb,
  List, [], ◌∷◌, Bool-cases, inl, inr, if◌then◌else◌, arith, ℕ_discrete, ◌++◌,
}
use mathlib.Core.List.{reverse, reverse-cons}
use omocha_os.Graphic.{Display, Console, glyph_of, draw, kputc_color_xy, kputc_color, print}
use omocha_os.Graphic.Pixels.{IsFitting, draw-behind, fill_gap-behind}

-- The cursor is in the text.
pub record IsInside (d : Display) (s : Console) : Type 0 where
  pub column : s.char_x < d.char_width
  pub row : s.char_y < d.char_height

-- Nothing behind the frame buffer is changed.
abbrev pub SameBehind : Display → (fb fb' : ℕ → ℕ) → Type 0
SameBehind d fb fb' = (a : ℕ) → d.disp_height * d.disp_width ≤ a → fb' a ≡ fb a

kputc_color-IsInside :
    {d : Display} (fits : IsFitting d) (s : Console) (c fg bg : ℕ)
    → IsInside d s
    → IsInside d (kputc_color d s c fg bg)
unfolding kputc_color
kputc_color-IsInside fits s c fg bg w = record {
  column = ground (arith, fits.some_column, w.column);
  row = ground (arith, fits.start, w.row);
}

differ : (a b : ℕ) → a ≢ b → (a == b) ≡ false
differ a b h = ground (arith, h)

kputc_color-SameBehind :
    {d : Display} (fits : IsFitting d) (s : Console) (c fg bg : ℕ)
    → IsInside d s
    → SameBehind d s.fb (kputc_color d s c fg bg).fb
unfolding kputc_color kputc_color_xy
kputc_color-SameBehind {d} fits s c fg bg w a h = elim (ℕ_discrete c 10) [
  | yes line ↦ ground (arith, line)
  | no other ↦ elim (ℕ_discrete c 8) [
    | yes back ↦
        let x = if s.char_x == 0 then d.char_width - 1 else s.char_x - 1 in
        let y = if (s.char_x == 0) && not (s.char_y == 0) then s.char_y - 1 else s.char_y in
        let same =
          draw-behind fits x y (ground (arith, w.column)) (ground (arith, w.row)) s.fb (d.font 0) fg
            bg a h in
        ground (arith, other, back, same)
    | no plain ↦
        let bitmap = if ltb 95 (glyph_of c) then d.font_block else d.font (glyph_of c) in
        let drawn = draw d s.fb s.char_x s.char_y bitmap fg bg in
        let same = draw-behind fits s.char_x s.char_y w.column w.row s.fb bitmap fg bg a h in
        let gap =
          fill_gap-behind fits s.char_x s.char_y w.column w.row 13 0 drawn bg a (omega arith) h in
        let line : (c == 10) ≡ false = differ c 10 other in
        let back : (c == 8) ≡ false = differ c 8 plain in
        elim (Bool-cases (bg == 0)) [
          | inl none ↦ rw line (rw back (rw none same))
          | inr filled ↦ rw line (rw back (rw filled (gap ∙ same)))
        ]
  ]
]

kputc_color-serial :
    (d : Display) (s : Console) (c fg bg : ℕ) → (kputc_color d s c fg bg).serial ≡ c ∷ s.serial
unfolding kputc_color
kputc_color-serial d s c fg bg = ground arith

-- On a display whose columns and rows of characters fit its pixels, rows without a gap, whose first
-- row of text is one of its rows and which has a column, any text leaves the cursor inside, changes
-- nothing behind the frame buffer, and is sent to the serial port, byte by byte.
pub print-IsInside :
    {d : Display} (fits : IsFitting d) (s : Console) (cs : List ℕ) (fg bg : ℕ)
    → IsInside d s
    → IsInside d (print d s cs fg bg)
      × SameBehind d s.fb (print d s cs fg bg).fb
      × ((print d s cs fg bg).serial ≡ reverse cs ++ s.serial)
unfolding print
print-IsInside fits s [] fg bg w = (w, (λ a h. refl), refl)
print-IsInside {d} fits s (c ∷ cs) fg bg w =
    let next = kputc_color d s c fg bg in
    let (inside, same, sent) =
      print-IsInside fits next cs fg bg (kputc_color-IsInside fits s c fg bg w) in
    (
      inside,
      (λ a h. same a h ∙ kputc_color-SameBehind fits s c fg bg w a h),
      sent
          ∙ ap (λ (l : List ℕ). reverse cs ++ l) (kputc_color-serial d s c fg bg)
          ∙ sym (append_assoc (reverse cs) (c ∷ []) s.serial)
          ∙ ap (λ (l : List ℕ). l ++ s.serial) (sym (reverse-cons c cs)),
    )
