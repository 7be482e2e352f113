-- ===== src/Tty/Buffer/Valid.antt =====
-- The invariant of the circular buffer of kernel/modules/tty/kbd.c.
use omocha_os.Base.{ℕ, ◌+◌, ◌%◌, ◌≤◌, ◌<◌, ◌≡◌, some, length, length-set, arith}
use omocha_os.Tty.Buffer.{
  Buffer, size, empty_buffer, take_byte, read_circular_buffer, write_circular_buffer,
}

pub record IsValid (b : Buffer) : Type 0 where
  pub storage : length b.buf ≡ size
  pub head_in : b.head < size
  pub tail_in : b.tail < size
  pub count_in : b.count ≤ size
  pub gap : b.head ≡ (b.tail + b.count) % size

pub empty-IsValid : IsValid empty_buffer
empty-IsValid = omega arith

-- A write keeps a valid buffer valid: both offsets stay inside the array, and the count within it.
pub write-IsValid : {b : Buffer} (c : ℕ) → IsValid b → IsValid (write_circular_buffer b c)
unfolding write_circular_buffer
write-IsValid {b} c v = ground (arith, length-set b.buf b.head c)

-- So does a read.
pub read-IsValid :
    {b b' : Buffer} {c : ℕ} → IsValid b → read_circular_buffer b ≡ some (c, b') → IsValid b'
unfolding read_circular_buffer take_byte
read-IsValid v e = ground arith
