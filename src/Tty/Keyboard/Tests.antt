-- ===== src/Tty/Keyboard/Tests.antt =====
-- Bytes in the keyboard's buffer at its first place.
use omocha_os.Base.{ℕ, ◌∷◌, ◌%◌, ◌≡◌, refl, true, false, some, arith, replicate}
use omocha_os.Tty.Buffer.{Buffer, take_byte}
use omocha_os.Tty.Keymap.{keymap}
use omocha_os.Tty.Keyboard.{Switches, Keyboard, kbd_read}
use omocha_os.Tty.Keyboard.Modifiers.{Flagged}
use omocha_os.Tty.Keyboard.Letters.{kbd_read-letter}

abbrev left_shift : Switches
left_shift = record {
  shift_l = true;
  shift_r = false;
  alt_l = false;
  alt_r = false;
  ctrl_l = false;
  ctrl_r = false;
  caps_lock = false;
  num_lock = true;
  scr_lock = false;
}

abbrev key_a : Buffer
key_a = record { head = 1; tail = 0; count = 1; buf = 0x1E ∷ replicate 255 0 }

abbrev typing : Keyboard
typing = record { buffer = key_a; switches = left_shift; leds = 2 }

kbd_read-letter_example :
    (r : ℕ) × (kbd_read false typing
      ≡ some (r, record typing { buffer = record key_a { tail = 1; count = 0 } }))
    × (r % 512 ≡ 65)
    × Flagged left_shift r
unfolding take_byte keymap
kbd_read-letter_example =
    kbd_read-letter false typing 97 (omega arith) (omega arith) refl (omega arith) (omega arith)

abbrev key_pause : Buffer
key_pause = record {
  head = 6;
  tail = 0;
  count = 6;
  buf = 0xE1 ∷ 0x1D ∷ 0x45 ∷ 0xE1 ∷ 0x9D ∷ 0xC5 ∷ replicate 250 0;
}

abbrev pausing : Keyboard
pausing = record { buffer = key_pause; switches = left_shift; leds = 2 }
