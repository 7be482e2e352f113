-- ===== src/Core/Scheduler/Ring.antt =====
-- `scheduler` of kernel/core/process.c goes round the process list.
use omocha_os.Base.{
  ℕ, zero, suc, ◌*◌, ◌/◌, ◌%◌, bit_and, bit_or, subst, ◌<◌, ◌≡◌, ◌≢◌, true, false, Option, none,
  some, List, [], ◌∷◌, ◌++◌, append_assoc, length, arith,
}
use omocha_os.Base.Bits.{and_odd, or_even, and-zero}
use omocha_os.Base.Flags.{raise}
use omocha_os.Core.Process.{Process, wating, hanging}
use omocha_os.Core.Run.{Kernel, ok}
use omocha_os.Core.Scheduler.{is_unrunable, next_of, run_on, schedule_from, scheduler}

low_byte : (a : ℕ) → bit_and a 0xff ≡ a % 256
low_byte a = omega (
  arith,
  and_odd a 127,
  and_odd (a / 2) 63,
  and_odd (a / 2 / 2) 31,
  and_odd (a / 2 / 2 / 2) 15,
  and_odd (a / 2 / 2 / 2 / 2) 7,
  and_odd (a / 2 / 2 / 2 / 2 / 2) 3,
  and_odd (a / 2 / 2 / 2 / 2 / 2 / 2) 1,
  and_odd (a / 2 / 2 / 2 / 2 / 2 / 2 / 2) 0,
  and-zero (a / 2 / 2 / 2 / 2 / 2 / 2 / 2 / 2),
)

or_high : (a n : ℕ) → bit_or a (2 * (2 * (2 * (2 * (2 * (2 * (2 * (2 * n)))))))) % 256 ≡ a % 256
or_high a n = omega (
  arith,
  or_even a (2 * (2 * (2 * (2 * (2 * (2 * (2 * n))))))),
  or_even (a / 2) (2 * (2 * (2 * (2 * (2 * (2 * n)))))),
  or_even (a / 2 / 2) (2 * (2 * (2 * (2 * (2 * n))))),
  or_even (a / 2 / 2 / 2) (2 * (2 * (2 * (2 * n)))),
  or_even (a / 2 / 2 / 2 / 2) (2 * (2 * (2 * n))),
  or_even (a / 2 / 2 / 2 / 2 / 2) (2 * (2 * n)),
  or_even (a / 2 / 2 / 2 / 2 / 2 / 2) (2 * n),
  or_even (a / 2 / 2 / 2 / 2 / 2 / 2 / 2) n,
)

-- From `head` the `next` pointers lead through `xs` to NULL.
abbrev pub Links : (ℕ → Process) → Option ℕ → List ℕ → Type 0
Links procs head [] = head ≡ none
Links procs head (x ∷ xs) = (head ≡ some x) × Links procs (procs x).next xs

-- `xs` are the processes that follow `p` in the round.
abbrev Follows : Kernel → ℕ → List ℕ → Type 0
Follows k p [] = Unit {0}
Follows k p (x ∷ xs) = (next_of k p ≡ some x) × Follows k x xs

-- Processes other than `cur` that cannot run.
abbrev pub Skipped : Kernel → ℕ → List ℕ → Type 0
Skipped k cur [] = Unit {0}
Skipped k cur (x ∷ xs) = (x ≢ cur) × (is_unrunable (k.procs x).status ≡ true) × Skipped k cur xs

module _ (k : Kernel) where
  Links-Follows : (p : ℕ) (ys : List ℕ) → Links k.procs (k.procs p).next ys → Follows k p ys
  unfolding next_of
  Links-Follows p [] l = tt
  Links-Follows p (y ∷ ys) l = (ground arith, Links-Follows y ys l.1)

  -- Behind `p` come the rest of the list and then the list from its head.
  Follows-wrap :
      (p : ℕ) (ys zs : List ℕ)
      → Links k.procs (k.procs p).next ys
      → Links k.procs k.proc_list zs
      → Follows k p (ys ++ zs)
  unfolding next_of
  Follows-wrap p [] [] l m = tt
  Follows-wrap p [] (z ∷ zs) l m = (ground arith, Links-Follows z zs m.1)
  Follows-wrap p (y ∷ ys) zs l m = (ground arith, Follows-wrap y ys zs l.1 m)

  Links-drop :
      (xs : List ℕ) (head : Option ℕ) (p : ℕ) (ys : List ℕ)
      → Links k.procs head (xs ++ (p ∷ ys))
      → Links k.procs (k.procs p).next ys
  Links-drop [] head p ys l = l.1
  Links-drop (x ∷ xs) head p ys l = Links-drop xs (k.procs x).next p ys l.1

  Follows-append : (xs : List ℕ) (p : ℕ) (ys : List ℕ) → Follows k p (xs ++ ys) → Follows k p xs
  Follows-append [] p ys f = tt
  Follows-append (x ∷ xs) p ys f = (f.0, Follows-append xs x ys f.1)

module _ (idle : Kernel → Kernel) (k : Kernel) (cur : ℕ) where
  schedule_from-skips :
      (fuel p : ℕ) (ss : List ℕ) (q : ℕ)
      → Follows k p (ss ++ (q ∷ []))
      → Skipped k cur ss
      → q ≢ cur
      → is_unrunable (k.procs q).status ≡ false
      → length ss < fuel
      → schedule_from idle fuel (run_on k p) cur ≡ ok (run_on k q)
  unfolding schedule_from next_of
  schedule_from-skips zero p ss q f s ne r h = absurd (omega arith)
  schedule_from-skips (suc fuel) p [] q f s ne r h = ground arith
  schedule_from-skips (suc fuel) p (x ∷ ss) q f s ne r h =
      ground (arith, schedule_from-skips fuel x ss q f.1 s.2 ne r)

  -- The list holds `xs`, `cur` and `ys`, and `cur` runs. Of the processes behind it in the round,
  -- `ys` and then `xs`, the first that can run is `q`, behind the `ss`. The scheduler then takes
  -- `q`, and changes nothing else.
  pub scheduler_round :
      (fuel : ℕ) (xs ys ss rest : List ℕ) (q : ℕ)
      → Links k.procs k.proc_list (xs ++ (cur ∷ ys))
      → k.proc_running ≡ some cur
      → ys ++ xs ≡ ss ++ (q ∷ rest)
      → Skipped k cur ss
      → q ≢ cur
      → is_unrunable (k.procs q).status ≡ false
      → length ss < fuel
      → scheduler idle fuel k ≡ ok (run_on k q)
  unfolding scheduler
  scheduler_round fuel xs ys ss rest q l on round s ne r h =
      let all : Follows k cur (ys ++ (xs ++ (cur ∷ ys))) =
        Follows-wrap k cur ys (xs ++ (cur ∷ ys)) (Links-drop k xs k.proc_list cur ys l) l in
      let split : ys ++ (xs ++ (cur ∷ ys)) ≡ (ss ++ (q ∷ [])) ++ (rest ++ (cur ∷ ys)) =
        simp (← append_assoc) (rw round (simp append_assoc)) in
      let picks =
        schedule_from-skips fuel cur ss q
          (Follows-append k (ss ++ (q ∷ [])) cur (rest ++ (cur ∷ ys))
            (subst (Follows k cur) split all))
          s ne r h in
      ground (arith, on, picks)

-- The test looks at the low byte of the status: `PROC_STATUS_WATING` and `PROC_STATUS_HANGING`,
-- which `UNRUNABLE` names, do not keep a process from being taken.
is_unrunable-low :
    (status : ℕ)
    → (is_unrunable (raise status wating) ≡ is_unrunable status)
      × (is_unrunable (raise status hanging) ≡ is_unrunable status)
unfolding is_unrunable raise
is_unrunable-low status = (
  rw (low_byte (bit_or status wating), low_byte status, or_high status 1),
  rw (low_byte (bit_or status hanging), low_byte status, or_high status 2),
)
