-- ===== src/Tty/Buffer/Tests.antt =====
-- Runs of the circular buffer of kernel/modules/tty/kbd.c, and the theorems at them.
use omocha_os.Base.{◌≡◌, refl, none, some, List, [], ◌∷◌, replicate, arith}
use omocha_os.Tty.Buffer.{Buffer, empty_buffer, read_circular_buffer, write_circular_buffer, run}
use omocha_os.Tty.Buffer.Queue
use omocha_os.Tty.Buffer.Queue.{Event, key, fetch}
use omocha_os.Tty.Buffer.Valid.{IsValid, empty-IsValid}
use omocha_os.Tty.Buffer.Refine.{contents, run_refines}

abbrev script : List Event
script = key 0xe0 ∷ key 0x48 ∷ fetch ∷ fetch ∷ fetch ∷ []

script_runs : run script empty_buffer ≡ some 0xe0 ∷ some 0x48 ∷ none ∷ []
unfolding run read_circular_buffer write_circular_buffer
script_runs = refl

-- Two bytes, the second behind the end of the array.
abbrev wrapped : Buffer
wrapped = record { head = 1; tail = 255; count = 2; buf = replicate 256 7 }

wrapped-IsValid : IsValid wrapped
wrapped-IsValid = omega arith

abbrev one_key : Buffer
one_key = record { head = 1; tail = 0; count = 1; buf = replicate 256 7 }

one_key-IsValid : IsValid one_key
one_key-IsValid = omega arith

run_refines_example : run script empty_buffer ≡ Queue.run 256 script (contents empty_buffer)
run_refines_example = run_refines script empty-IsValid
