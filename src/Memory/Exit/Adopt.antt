-- ===== src/Memory/Exit/Adopt.antt =====
-- The children of a process that ends: the last loop of `mem_exit_proc` of
-- kernel/modules/memory/exit.c.
use omocha_os.Base.{
  ℕ, zero, suc, ◌<◌, ◌≡◌, refl, sym, ap, ◌∙◌, inl, inr, Bool, true, false, Option, some, List, [],
  ◌∷◌, length, ◌==◌, ◌&&◌, if◌then◌else◌, Bool-cases, ℕ_discrete, arith, subst,
}
use omocha_os.Base.Flags.{has, lower}
use omocha_os.Core.Process.{wating, hanging}
use omocha_os.Core.Run.{Run, ok}
use omocha_os.Core.Ipc.Queue.{mem}
use omocha_os.Systask.ProcList.{Listed, Listed-frame}
use omocha_os.Memory.Exit.{
  Task, proc_of, set_task_proc, send_exit_to_parent, adopt_one, adopt_children,
}

abbrev is_child : Task → (proc q : ℕ) → Bool
is_child t proc q = (proc_of t q).parent_pid == (proc_of t proc).pid

-- Process 1 is woken, if it waits and `p` is a zombie.
abbrev told : Task → (p : ℕ) → Task
told t p =
    let init = proc_of t 1 in
    if has (proc_of t p).status hanging && has init.status wating
    then send_exit_to_parent (set_task_proc t 1 (record init { status = lower init.status wating }))
        p
    else t

-- What the adoption of `p` leaves alone.
record Kept (t t' : Task) : Type 0 where
  pid : (q : ℕ) → (proc_of t' q).pid ≡ (proc_of t q).pid
  next : (q : ℕ) → (proc_of t' q).next ≡ (proc_of t q).next

told-parent : (t : Task) (p q : ℕ) → (proc_of (told t p) q).parent_pid ≡ (proc_of t q).parent_pid
unfolding send_exit_to_parent
told-parent t p q = ground arith

told-Kept : (t : Task) (p : ℕ) → Kept t (told t p)
unfolding send_exit_to_parent
told-Kept t p = record { pid = λ q. ground arith; next = λ q. ground arith }

abbrev adopted : Task → ℕ → Task
adopted t p = set_task_proc t p (record (proc_of t p) { parent_pid = 1 })

adopt_one-child :
    (t : Task) (proc p : ℕ) → is_child t proc p ≡ true → adopt_one t proc p ≡ told (adopted t p) p
unfolding adopt_one
adopt_one-child t proc p child = rw child refl

adopt_one-other : (t : Task) (proc p : ℕ) → is_child t proc p ≡ false → adopt_one t proc p ≡ t
unfolding adopt_one
adopt_one-other t proc p other = rw other refl

adopted-parent :
    (t : Task) (p q : ℕ)
    → (proc_of (adopted t p) q).parent_pid ≡ (if q == p then 1 else (proc_of t q).parent_pid)
adopted-parent t p q = ground arith

adopted-Kept : (t : Task) (p : ℕ) → Kept t (adopted t p)
adopted-Kept t p = record { pid = λ q. ground arith; next = λ q. ground arith }

adopt_one-Kept : (t : Task) (proc p : ℕ) → Kept t (adopt_one t proc p)
adopt_one-Kept t proc p = elim (Bool-cases (is_child t proc p)) [
  | inl child ↦
      let a = adopted-Kept t p in
      let b = told-Kept (adopted t p) p in
      subst (Kept t) (sym (adopt_one-child t proc p child))
        (record { pid = λ q. b.pid q ∙ a.pid q; next = λ q. b.next q ∙ a.next q })
  | inr other ↦
      subst (Kept t) (sym (adopt_one-other t proc p other))
        (record { pid = λ q. refl; next = λ q. refl })
]

-- The parent of `q` when the processes `xs` have been looked at.
abbrev new_parent : Task → (proc : ℕ) → List ℕ → ℕ → ℕ
new_parent t proc xs q = if mem q xs && is_child t proc q then 1 else (proc_of t q).parent_pid

adopt_one-parent :
    (t : Task) (proc p q : ℕ)
    → (proc_of (adopt_one t proc p) q).parent_pid
      ≡ (if (q == p) && is_child t proc p then 1 else (proc_of t q).parent_pid)
adopt_one-parent t proc p q = elim (Bool-cases (is_child t proc p)) [
  | inl child ↦
      ap (λ (u : Task). (proc_of u q).parent_pid) (adopt_one-child t proc p child)
      ∙ told-parent (adopted t p) p q
      ∙ adopted-parent t p q
      ∙ rw child (ground arith)
  | inr other ↦
      ap (λ (u : Task). (proc_of u q).parent_pid) (adopt_one-other t proc p other)
      ∙ rw other (ground arith)
]

adopt_children-step :
    (fuel : ℕ) (t : Task) (proc x : ℕ)
    → adopt_children (suc fuel) t proc (some x)
      ≡ adopt_children fuel (adopt_one t proc x) proc (proc_of t x).next
unfolding adopt_children
adopt_children-step fuel t proc x =
    ap (adopt_children fuel (adopt_one t proc x) proc) ((adopt_one-Kept t proc x).next x)

-- What a run of the loop over `xs` comes to.
abbrev Adopted : Task → (proc : ℕ) → List ℕ → Run Task → Type 0
Adopted t proc xs run =
    (t' : Task) × (run ≡ ok t')
    × ((q : ℕ) → (proc_of t' q).parent_pid ≡ new_parent t proc xs q)
    × ((q : ℕ) → (proc_of t' q).next ≡ (proc_of t q).next)

new_parent-cons :
    (t : Task) (proc x q : ℕ) (xs : List ℕ)
    → mem x xs ≡ false
    → new_parent (adopt_one t proc x) proc xs q ≡ new_parent t proc (x ∷ xs) q
new_parent-cons t proc x q xs distinct =
    let step = adopt_one-parent t proc x q in
    let same = (adopt_one-Kept t proc x).pid proc in
    rw step (
      rw same (elim (ℕ_discrete q x) [
        | yes here ↦
            let absent : mem q xs ≡ false = ap (λ (y : ℕ). mem y xs) here ∙ distinct in
            let child : is_child t proc q ≡ is_child t proc x = ap (is_child t proc) here in
            ground (arith, here, absent, child)
        | no there ↦ ground (arith, there)
      ]))

Adopted-step :
    (t : Task) (proc x : ℕ) (xs : List ℕ) (run : Run Task)
    → mem x xs ≡ false
    → Adopted (adopt_one t proc x) proc xs run
    → Adopted t proc (x ∷ xs) run
Adopted-step t proc x xs run distinct (t', done, parents, nexts) = (
  t',
  done,
  (λ q. parents q ∙ new_parent-cons t proc x q xs distinct),
  (λ q. nexts q ∙ (adopt_one-Kept t proc x).next q),
)

-- The last loop of `mem_exit_proc`, where the processes `xs` are the process list from `head` on,
-- which is shorter than the fuel, ends; then each process of the list whose parent is the pid that
-- the slot of `proc` holds has process 1 as its parent, every other process has the parent it had,
-- and the list is the same.
pub adopt_children-Adopted :
    (xs : List ℕ) (fuel : ℕ) (t : Task) (proc : ℕ) (head : Option ℕ)
    → length xs < fuel
    → Listed t.env.kernel.procs head xs
    → (t' : Task) × (adopt_children fuel t proc head ≡ ok t')
      × ((q : ℕ)
          → (proc_of t' q).parent_pid ≡ (
              if mem q xs && ((proc_of t q).parent_pid == (proc_of t proc).pid)
              then 1
              else (proc_of t q).parent_pid))
      × ((q : ℕ) → (proc_of t' q).next ≡ (proc_of t q).next)
unfolding adopt_children
adopt_children-Adopted [] zero t proc head h w = absurd (omega arith)
adopt_children-Adopted [] (suc fuel) t proc head h w = (t, rw w refl, (λ q. refl), (λ q. refl))
adopt_children-Adopted (x ∷ xs) zero t proc head h w = absurd (omega arith)
adopt_children-Adopted (x ∷ xs) (suc fuel) t proc head h w =
    subst (λ (o : Option ℕ). Adopted t proc (x ∷ xs) (adopt_children (suc fuel) t proc o)) (sym w.0)
      (subst (Adopted t proc (x ∷ xs)) (sym (adopt_children-step fuel t proc x)) (
        Adopted-step t proc x xs _ w.1 (
          adopt_children-Adopted xs fuel (adopt_one t proc x) proc (proc_of t x).next (omega arith)
            (Listed-frame xs t.env.kernel.procs (adopt_one t proc x).env.kernel.procs
              (proc_of t x).next w.2 (λ y i. (adopt_one-Kept t proc x).next y)))))
