-- ===== src/Memory/Exit/Wait.antt =====
-- `wait_proc` of kernel/modules/memory/exit.c, against the children in the process list.
use omocha_os.Base.{ℕ, ◌<◌, ◌≤◌, ◌≡◌, ◌≢◌, refl, ◌⊎◌, true, Option, none, some, List, [], ◌∷◌, ◌++◌}
use omocha_os.Base.Flags.{has}
use omocha_os.Core.Process.{Process, wating, hanging}
use omocha_os.Core.Run.{Run, ok}
use omocha_os.Core.Ipc.Queue.{mem}
use omocha_os.Memory.Exit.{Task, proc_of, message_to, serve, serve_all, send_exit_to_parent}

module _ (procs : ℕ → Process) (parent : ℕ) where
  abbrev pub IsZombie : ℕ → Type 0
  IsZombie q = ((procs q).parent_pid ≡ parent) × (has (procs q).status hanging ≡ true)

  abbrev IsChild : ℕ → Type 0
  IsChild q = (procs q).parent_pid ≡ parent

  -- No zombie child among `xs`, and the children counted to `c` from `n` on.
  record Counted (n c : ℕ) (xs : List ℕ) : Type 0 where
    alive : (q : ℕ) → mem q xs ≡ true → ¬ IsZombie q
    more : n ≤ c
    children :
        ((c ≡ n) × ((q : ℕ) → mem q xs ≡ true → ¬ IsChild q))
        ⊎ ((n < c) × ((q : ℕ) × (mem q xs ≡ true) × IsChild q))

  -- What the search gives for the processes `xs`, with `n` children counted before.
  abbrev Searched : (n : ℕ) → List ℕ → Run (Option ℕ × ℕ) → Type 0
  Searched n xs run =
      ((q : ℕ) × (c : ℕ) × (run ≡ ok (some q, c)) × (mem q xs ≡ true) × IsZombie q)
      ⊎ ((c : ℕ) × (run ≡ ok (none, c)) × Counted n c xs)

pub serve-idle : (fuel : ℕ) (t : Task) → t.requests ≡ [] → serve fuel t ≡ ok t
unfolding serve serve_all
serve-idle fuel t idle = rw idle refl

-- What `wait_proc` comes to, for the processes `xs` of the list.
abbrev pub Waited : (t t' : Task) → (parent : ℕ) → List ℕ → Type 0
Waited t t' parent xs =
    ((q : ℕ) × (mem q xs ≡ true) × IsZombie (proc_of t) parent q × (t' ≡ send_exit_to_parent t q))
    ⊎ ((((q : ℕ) → mem q xs ≡ true → ¬ IsZombie (proc_of t) parent q)
          × ((q : ℕ) × (mem q xs ≡ true) × ((proc_of t q).parent_pid ≡ parent))
          × (has (proc_of t' parent).status wating ≡ true)
          × (t'.sent ≡ t.sent)
          × (t'.requests ≡ []))
        ⊎ (((q : ℕ) → mem q xs ≡ true → (proc_of t q).parent_pid ≢ parent)
            × (t' ≡ record t { sent = t.sent ++ (message_to parent 0x4321_1234 1 0 ∷ []) })))
