-- ===== src/Tty/Keyboard.antt =====
-- Scan codes to keys: `kbd_read`, `set_leds` and `kbd_code_end` of kernel/modules/tty/kbd.c. The
-- switches, which the code keeps as 0 or 1, are Booleans. `none` stands for a task that waits for a
-- byte of the keyboard.
pub mod Modifiers
pub mod Letters
pub mod Pause
mod Tests
use omocha_os.Base.{
  ℕ, zero, suc, ◌+◌, ◌-◌, ◌*◌, ◌/◌, ◌%◌, ◌^◌, Bool, true, false, not, ◌&&◌, ◌||◌, Option, none,
  some, List, [], ◌∷◌, ltb, leb, ◌==◌, if◌then◌else◌, bit_and,
}
use omocha_os.Base.Flags.{has, raise}
use omocha_os.Tty.Buffer.{Buffer, empty_buffer, read_circular_buffer, peek_circular_buffer}
use omocha_os.Tty.Keymap.{keymap}

infixl 5 ◌>>=◌
abbrev pub ◌>>=◌ {ℓ κ} : {A : Type ℓ} {B : Type κ} → Option A → (A → Option B) → Option B
none >>= f = none
some a >>= f = f a

pub record Switches : Type 0 where
  pub shift_l : Bool
  pub shift_r : Bool
  pub alt_l : Bool
  pub alt_r : Bool
  pub ctrl_l : Bool
  pub ctrl_r : Bool
  pub caps_lock : Bool
  pub num_lock : Bool
  pub scr_lock : Bool

-- `leds` is the byte last sent to the lights.
pub record Keyboard : Type 0 where
  pub buffer : Buffer
  pub switches : Switches
  pub leds : ℕ

abbrev bit_of : Bool → ℕ
bit_of b = if b then 1 else 0

-- The keyboard's answers, which `kbd_wait` and `kbd_ack` wait for, are taken for granted.
unfoldable pub set_leds : Keyboard → Keyboard
set_leds k = record k {
  leds =
      bit_of k.switches.caps_lock * 4 + bit_of k.switches.num_lock * 2 + bit_of k.switches.scr_lock;
}

unfoldable pub init_kbd : Keyboard
unfolding set_leds
init_kbd = set_leds (record {
  buffer = empty_buffer;
  switches = record {
    shift_l = false;
    shift_r = false;
    alt_l = false;
    alt_r = false;
    ctrl_l = false;
    ctrl_r = false;
    caps_lock = false;
    num_lock = true;
    scr_lock = false;
  };
  leds = 0;
})

abbrev pub pausebreak : ℕ
pausebreak = 0x11E

abbrev pub printscreen : ℕ
printscreen = 0x11D

-- What stands behind the first bytes: `key` is 0 for a code that the table translates.
pub record Scan : Type 0 where
  pub code : ℕ
  pub key : ℕ
  pub make : Bool
  pub e0 : Bool

-- Bytes are read up to the first that differs from the list.
unfoldable pub match_bytes : List ℕ → Buffer → Option (Bool × Buffer)
match_bytes [] b = some (true, b)
match_bytes (c ∷ cs) b = do
  (x, b1) ← read_circular_buffer b
  let rest = match_bytes cs b1
  if x == c then rest else some (false, b1)

abbrev pub pausebrk_scode : List ℕ
pausebrk_scode = 0xE1 ∷ 0x1D ∷ 0x45 ∷ 0xE1 ∷ 0x9D ∷ 0xC5 ∷ []

-- Behind 0xE1. `make` is not set here: it is what the stack holds.
unfoldable pub scan_pause : (make : Bool) → Buffer → Option (Scan × Buffer)
unfolding match_bytes
scan_pause make b = do
  (is_pausebreak, b1) ← match_bytes pausebrk_scode b
  some (
    record { code = 0xE1; key = if is_pausebreak then pausebreak else 0; make = make; e0 = false },
    b1,
  )

-- Behind 0xE0: the codes of Print Screen go on for two more bytes.
unfoldable pub scan_extended : (make : Bool) → Buffer → Option (Scan × Buffer)
unfolding match_bytes
scan_extended make b = do
  (code, b1) ← read_circular_buffer b
  let last = if code == 0x2A then 0x37 else 0xAA
  let longer = (do
    (is_print, b2) ← match_bytes (0xE0 ∷ last ∷ []) b1
    some (
      record {
        code = code;
        key = if is_print then printscreen else 0;
        make = if is_print then code == 0x2A else make;
        e0 = not is_print;
      },
      b2,
    ))
  if (code == 0x2A) || (code == 0xB7)
      then longer
      else some (record { code = code; key = 0; make = make; e0 = true }, b1)

unfoldable pub scan : (make : Bool) → Buffer → Option (Scan × Buffer)
unfolding scan_pause scan_extended
scan make b = do
  (code, b1) ← read_circular_buffer b
  if code == 0xE1
      then scan_pause make b1
      else if code == 0xE0
      then scan_extended make b1
      else some (record { code = code; key = 0; make = make; e0 = false }, b1)

-- `keyrow[col]`
unfoldable pub key_of : Switches → (code : ℕ) → (e0 : Bool) → ℕ
key_of sw code e0 =
    let row = code % 128 * 3 in
    let plain = keymap row in
    let shift = sw.shift_l || sw.shift_r in
    let letter = leb 97 plain && leb plain 122 in
    let caps = if sw.caps_lock && letter then not shift else shift in
    if e0 then keymap (row + 2) else if caps then keymap (row + 1) else plain

-- The switch of a modifier or lock key.
unfoldable pub switch_key : Keyboard → (key : ℕ) → (make : Bool) → Keyboard
unfolding set_leds
switch_key k key make =
    let sw = k.switches in
    let locked = λ (new : Switches). if make then set_leds (record k { switches = new }) else k in
    if key == 0x108
    then record k { switches = record sw { shift_l = make } }
    else if key == 0x109
    then record k { switches = record sw { shift_r = make } }
    else if key == 0x10C
    then record k { switches = record sw { alt_l = make } }
    else if key == 0x10D
    then record k { switches = record sw { alt_r = make } }
    else if key == 0x10A
    then record k { switches = record sw { ctrl_l = make } }
    else if key == 0x10B
    then record k { switches = record sw { ctrl_r = make } }
    else if key == 0x10E
    then locked (record sw { caps_lock = not sw.caps_lock })
    else if key == 0x10F
    then locked (record sw { num_lock = not sw.caps_lock })
    else if key == 0x110
    then locked (record sw { scr_lock = not sw.scr_lock })
    else k

abbrev flag : Bool → (f key : ℕ) → ℕ
flag on f key = raise key (if on then f else 0)

-- The key with a flag for each modifier that is held.
unfoldable pub with_flags : Switches → ℕ → ℕ
with_flags sw key = flag sw.ctrl_r 0x1000 (
    flag sw.ctrl_l 0x800 (
      flag sw.alt_r 0x4000
        (flag sw.alt_l 0x2000 (flag sw.shift_r 0x400 (flag sw.shift_l 0x200 key)))))

-- What follows the reading of a code.
unfoldable pub translate : Keyboard → Scan → ℕ × Keyboard
unfolding key_of switch_key with_flags
translate k s =
    let named = (s.key == pausebreak) || (s.key == printscreen) in
    let make = if named then s.make else not (has s.code 0x80) in
    let key = if named then s.key else key_of k.switches s.code s.e0 in
    let k1 = if named then k else switch_key k key make in
    (if make then with_flags k1.switches key else 0, k1)

-- 0 where there is no key: no byte, or the release of a key.
unfoldable pub kbd_read : (make : Bool) → Keyboard → Option (ℕ × Keyboard)
unfolding scan translate
kbd_read make k =
    let read = (do (s, b) ← scan make k.buffer; some (translate (record k { buffer = b }) s)) in
    if k.buffer.count == 0 then some (0, k) else read

-- 1 where the buffer holds a whole code. `outside` is the memory round the buffer's array.
unfoldable pub kbd_code_end : (outside : ℕ → ℕ) → Buffer → Option Bool
kbd_code_end outside b =
    let longer = (do
      first ← peek_circular_buffer outside b 0
      second ← peek_circular_buffer outside b 1
      let extended = ((second == 0x2A) && leb 4 b.count) || leb 2 b.count
      let pause = (first == 0xE1) && ((second == 0x1D) && leb 6 b.count)
      some (
          if not (first == 0xE0) && not (first == 0xE1)
          then true
          else ((first == 0xE0) && extended) || pause)) in
    if b.count == 0 then some false else longer
