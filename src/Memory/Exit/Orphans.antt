-- ===== src/Memory/Exit/Orphans.antt =====
-- `mem_exit_proc` of kernel/modules/memory/exit.c, with the system task of
-- kernel/modules/systask/systask.c, where the parent of the process waits for it.
use omocha_os.Base.{
  ℕ, ◌<◌, ◌≡◌, ◌≢◌, refl, sym, ap, ◌∙◌, true, List, [], ◌∷◌, ◌++◌, length, length-append, arith,
  subst,
}
use omocha_os.Base.Flags.{has, lower}
use omocha_os.Core.Process.{Process, Message, wating}
use omocha_os.Core.Run.{ok}
use omocha_os.Systask.Env.{Env}
use omocha_os.Systask.Processes.{exit_proc}
use omocha_os.Systask.ProcList.{Listed, Listed-frame}
use omocha_os.Systask.Lifecycle.{exit_proc-parents}
use omocha_os.Memory.Exit.{
  Task, proc_of, set_task_proc, exit_request, serve, serve_all, send_exit_to_parent, tell_parent,
  adopt_children, mem_exit_proc,
}
use omocha_os.Memory.Exit.Wait.{serve-idle}
use omocha_os.Memory.Exit.Adopt.{adopt_children-Adopted}

-- The parent is told and no longer waits.
abbrev told_parent : Task → (proc : ℕ) → Task
told_parent t proc =
    let parent = (proc_of t proc).parent_pid in
    let p = proc_of t parent in set_task_proc t parent (record p { status = lower p.status wating })

tell_parent-waiting :
    (t : Task) (proc : ℕ)
    → has (proc_of t (proc_of t proc).parent_pid).status wating ≡ true
    → tell_parent t proc (proc_of t proc).parent_pid ≡ send_exit_to_parent (told_parent t proc) proc
unfolding tell_parent
tell_parent-waiting t proc waits = rw waits refl

told_parent-pid : (t : Task) (proc q : ℕ) → (proc_of (told_parent t proc) q).pid ≡ (proc_of t q).pid
told_parent-pid t proc q = ground arith

told_parent-next :
    (t : Task) (proc q : ℕ) → (proc_of (told_parent t proc) q).next ≡ (proc_of t q).next
told_parent-next t proc q = ground arith

told_parent-parent :
    (t : Task) (proc q : ℕ) → (proc_of (told_parent t proc) q).parent_pid ≡ (proc_of t q).parent_pid
told_parent-parent t proc q = ground arith

serve-one :
    (fuel : ℕ) (t : Task) (m : Message) (e : Env)
    → t.requests ≡ m ∷ []
    → exit_proc fuel t.env m ≡ ok (e, [])
    → serve fuel t ≡ ok (record { env = e; sent = t.sent; requests = [] })
unfolding serve serve_all
serve-one fuel t m e only done = rw only (rw done refl)

mem_exit_proc_lem :
    (fuel : ℕ) (t t2 t' : Task) (proc : ℕ)
    → t.requests ≡ []
    → serve fuel (tell_parent t proc (proc_of t proc).parent_pid) ≡ ok t2
    → adopt_children fuel t2 proc t2.env.kernel.proc_list ≡ ok t'
    → mem_exit_proc fuel t proc ≡ ok t'
unfolding mem_exit_proc
mem_exit_proc_lem fuel t t2 t' proc idle told adopt = rw (serve-idle fuel t idle) (rw told adopt)

requests-one :
    (t : Task) (proc : ℕ)
    → t.requests ≡ []
    → (send_exit_to_parent t proc).requests ≡ exit_request (proc_of t proc).pid ∷ []
unfolding send_exit_to_parent
requests-one t proc e = ap (λ (ms : List Message). ms ++ (exit_request (proc_of t proc).pid ∷ [])) e

-- `mem_exit_proc` of a process other than 0 whose parent waits, where the process stands in the
-- process list behind its head, its slot holds its number as the pid, the fuel exceeds the number
-- of the other processes and the system task has no request to take: it ends, but a child `q` of
-- the process keeps it as its parent. The system task clears the slot of the process before it
-- answers the request for the list, so that the loop looks for children of pid 0.
mem_exit_proc-orphan :
    (fuel : ℕ) (t : Task) (proc x q : ℕ) (xs ys : List ℕ)
    → t.requests ≡ []
    → Listed t.env.kernel.procs t.env.kernel.proc_list (x ∷ (xs ++ (proc ∷ ys)))
    → length (x ∷ (xs ++ ys)) < fuel
    → (proc_of t proc).pid ≡ proc
    → proc ≢ 0
    → has (proc_of t (proc_of t proc).parent_pid).status wating ≡ true
    → q ≢ proc
    → (proc_of t q).parent_pid ≡ proc
    → (t' : Task) × (mem_exit_proc fuel t proc ≡ ok t') × ((proc_of t' q).parent_pid ≡ proc)
unfolding send_exit_to_parent
mem_exit_proc-orphan fuel t proc x q xs ys idle w h own nz waits other child =
    let told = told_parent t proc in
    let t1 = send_exit_to_parent told proc in
    let request = exit_request (proc_of told proc).pid in
    let number : (proc_of told proc).pid ≡ proc = told_parent-pid t proc proc ∙ own in
    let list =
      Listed-frame (x ∷ (xs ++ (proc ∷ ys))) t.env.kernel.procs told.env.kernel.procs
        t.env.kernel.proc_list w (λ y i. told_parent-next t proc y) in
    let listed : Listed told.env.kernel.procs told.env.kernel.proc_list
        (x ∷ (xs ++ ((proc_of told proc).pid ∷ ys))) =
      subst
        (λ (n : ℕ). Listed told.env.kernel.procs told.env.kernel.proc_list (x ∷ (xs ++ (n ∷ ys))))
        (sym number) list in
    let (e, done, shorter, cleared, parents) =
      exit_proc-parents fuel told.env request x xs ys listed (omega (arith, length-append xs ys)) in
    let t2 : Task = record { env = e; sent = t1.sent; requests = [] } in
    let served : serve fuel t1 ≡ ok t2 =
      serve-one fuel t1 request e (requests-one told proc idle) done in
    let (t', adopt, after, nexts) =
      adopt_children-Adopted (x ∷ (xs ++ ys)) fuel t2 proc e.kernel.proc_list h shorter in
    let pid_0 : (proc_of t2 proc).pid ≡ 0 =
      ap (λ (n : ℕ). (e.kernel.procs n).pid) (sym number) ∙ ap (λ (p : Process). p.pid) cleared in
    let kept : (proc_of t2 q).parent_pid ≡ proc =
      parents q (λ s. other (s ∙ number)) ∙ told_parent-parent t proc q ∙ child in
    (
      t',
      mem_exit_proc_lem fuel t t2 t' proc idle
          (ap (serve fuel) (tell_parent-waiting t proc waits) ∙ served) adopt,
      after q ∙ ground (arith, pid_0, kept, nz),
    )
