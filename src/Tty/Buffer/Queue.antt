-- ===== src/Tty/Buffer/Queue.antt =====
-- The abstract view of the keyboard's buffer: a queue of at most 256 bytes, oldest first, that
-- drops its oldest byte when one more comes.
use omocha_os.Base.{ℕ, Option, none, some, List, [], ◌∷◌, ◌++◌, length, leb, if◌then◌else◌}
use mathlib.Core.List.{tail}

unfoldable pub enqueue : ℕ → List ℕ → ℕ → List ℕ
enqueue cap q c = (if leb cap (length q) then tail q else q) ++ (c ∷ [])

unfoldable pub dequeue : List ℕ → Option (ℕ × List ℕ)
dequeue [] = none
dequeue (c ∷ q) = some (c, q)

-- A byte from the interrupt handler, or a read by the task.
pub data Event : Type 0 where
  key : ℕ → Event
  fetch : Event

-- What a reader sees of each event: `none` where it has to wait.
unfoldable pub run : ℕ → List Event → List ℕ → List (Option ℕ)
run cap [] q = []
run cap (key c ∷ es) q = run cap es (enqueue cap q c)
run cap (fetch ∷ es) q = elim (dequeue q) [
  | none ↦ none ∷ run cap es q
  | some (c, q') ↦ some c ∷ run cap es q'
]
