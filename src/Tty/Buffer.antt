-- ===== src/Tty/Buffer.antt =====
-- The circular buffer of kernel/modules/tty/kbd.c. `head` and `tail` are offsets from `buf`.
pub mod Queue
pub mod Valid
pub mod Refine
pub mod Peek
mod Tests
use omocha_os.Base.{
  ℕ, zero, suc, ◌+◌, ◌-◌, ◌%◌, ◌^◌, Bool, Option, none, some, List, get_or, set, replicate, ltb,
  leb, ◌==◌, if◌then◌else◌, [], ◌∷◌,
}
use Queue.{Event, key, fetch}

-- `CIRCULAR_BUFFER_SIZE`
abbrev pub size : ℕ
size = 256

-- `Circular_Buffer`
pub record Buffer : Type 0 where
  pub head : ℕ
  pub tail : ℕ
  pub count : ℕ
  pub buf : List ℕ

-- The buffer as `init_kbd` sets it up.
abbrev pub empty_buffer : Buffer
empty_buffer = record { head = 0; tail = 0; count = 0; buf = replicate 256 0 }

-- `p++; if (p == buf + CIRCULAR_BUFFER_SIZE) p = buf;`
abbrev pub advance : ℕ → ℕ
advance p = if p + 1 == size then 0 else p + 1

-- What follows the wait in `read_circular_buffer`.
unfoldable pub take_byte : Buffer → ℕ × Buffer
take_byte b = (get_or b.buf b.tail 0, record b { tail = advance b.tail; count = b.count - 1 })

-- `none`: the loop waits until the interrupt handler has written a byte.
unfoldable pub read_circular_buffer : Buffer → Option (ℕ × Buffer)
unfolding take_byte
read_circular_buffer b = if b.count == 0 then none else some (take_byte b)

-- What `write_circular_buffer` does once there is room.
abbrev pub put_byte : Buffer → ℕ → Buffer
put_byte b c = record b { buf = set b.buf b.head c; head = advance b.head; count = b.count + 1 }

-- A full buffer loses its oldest byte first.
unfoldable pub write_circular_buffer : Buffer → ℕ → Buffer
unfolding take_byte
write_circular_buffer b c = if leb size b.count then put_byte (take_byte b).1 c else put_byte b c

-- The offset from `buf` that `peek_circular_buffer` reads, in 32-bit arithmetic: `b->buf - b->tail`
-- is minus the tail.
unfoldable pub peek_offset : Buffer → ℕ → ℕ
peek_offset b offset =
    if leb size (b.tail + offset)
    then (offset + 2 ^ 32 - (size + b.tail)) % 2 ^ 32
    else b.tail + offset

-- `outside` is the memory round the array, by the offset from `buf`.
unfoldable pub peek_circular_buffer : (outside : ℕ → ℕ) → Buffer → ℕ → Option ℕ
unfolding peek_offset
peek_circular_buffer outside b offset =
    if b.count == 0
    then none
    else some (let p = peek_offset b offset in if ltb p size then get_or b.buf p 0 else outside p)

-- The handler's writes and the task's reads in the order in which they happen, with what each
-- read gives.
unfoldable pub run : List Event → Buffer → List (Option ℕ)
run [] b = []
run (key c ∷ es) b = run es (write_circular_buffer b c)
run (fetch ∷ es) b = elim (read_circular_buffer b) [
  | none ↦ none ∷ run es b
  | some (c, b') ↦ some c ∷ run es b'
]
