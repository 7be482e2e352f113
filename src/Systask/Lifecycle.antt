-- ===== src/Systask/Lifecycle.antt =====
-- A slot of the process table from ALLOC_PROC to EXIT_PROC of kernel/modules/systask/systask.c.
use omocha_os.Base.{
  ℕ, zero, suc, ◌+◌, ◌<◌, ◌≡◌, ◌≢◌, refl, ap, subst, ◌/◌, Bool-cases, inl, inr, true, false, List,
  [], ◌∷◌, ◌++◌, length, get_or, ◌==◌, arith, ◌%◌, ◌^◌, ◌-◌, ◌&&◌, not, ltb, if◌then◌else◌, sym,
  ◌∙◌,
}
use omocha_os.Bitset.{set_bit, clear_bit, check_bit, find_first_unset_bit}
use omocha_os.Bitset.Search.{find_first-least}
use omocha_os.Bitset.Laws.{check-set}
use omocha_os.Core.Process.{Message, Process, stop}
use omocha_os.Core.Run.{Kernel, ok}
use omocha_os.Core.Ipc.{set_proc}
use omocha_os.Core.Ipc.Queue.{mem}
use omocha_os.Systask.Env.{Env, Method, send_back}
use omocha_os.Systask.Interrupts.{no_method}
use omocha_os.Systask.Processes.{
  no_proc, set_name, alloc_proc, drop_suscriber, drop_method, unlink_proc, exit_proc,
}
use omocha_os.Systask.ProcList.{Listed, Listed-frame, link_proc-Listed, unlink_proc-Listed}

-- ALLOC_PROC for the slot that the bitmap shows, if it is not in the process list.
alloc_proc_lem :
    (address : ℕ → ℕ) (fuel : ℕ) (e : Env) (m : Message) (xs : List ℕ) (pid : ℕ)
    → find_first_unset_bit e.proc_bitmap ≡ pid
    → pid ≢ 0xffff_ffff
    → Listed e.kernel.procs e.kernel.proc_list xs
    → mem pid xs ≡ false
    → length xs < fuel
    → (e' : Env) × (alloc_proc address fuel e m ≡ ok (e', send_back m (address pid)))
      × Listed e'.kernel.procs e'.kernel.proc_list (xs ++ (pid ∷ []))
      × ((e'.kernel.procs pid).status ≡ stop)
      × ((e'.kernel.procs pid).pid ≡ pid)
      × ((e'.kernel.procs pid).parent_pid ≡ 1)
      × (e'.proc_bitmap ≡ set_bit e.proc_bitmap pid)
unfolding alloc_proc
alloc_proc_lem address fuel e m xs pid free room w new h =
    let k = set_proc e.kernel pid (record no_proc { status = stop }) in
    let before : Listed k.procs k.proc_list xs =
      Listed-frame xs e.kernel.procs k.procs e.kernel.proc_list w (λ x i. ground arith) in
    let (linked, done, list, same) = link_proc-Listed xs fuel k pid before new h in
    let made : Process = record (linked.procs pid) { parent_pid = 1; pid = pid; eflags = 0x1202 } in
    let k' = set_proc linked pid made in
    let stopped : (linked.procs pid).status ≡ stop =
      ap (λ (q : Process). q.status) (same pid) ∙ ground arith in
    (
      record e {
        kernel = k';
        proc_bitmap = set_bit e.proc_bitmap pid;
        proc_count = e.proc_count + 1;
      },
      ground (arith, free, done),
      Listed-frame _ linked.procs k'.procs linked.proc_list list (λ x i. ground arith),
      ground (arith, stopped),
      ground arith,
      ground arith,
      refl,
    )

-- Where the first word of the bitmap has a clear bit, and the bits of all listed processes are set,
-- ALLOC_PROC gives the slot of the lowest clear bit, whoever asks: it then stands at the end of the
-- process list, stopped, with process 1 as its parent, its number as its pid, and its bit set, the
-- other bits being as they were. The entries of the list are distinct, and fewer than the fuel.
pub alloc_proc-Listed :
    (address : ℕ → ℕ) (fuel : ℕ) (e : Env) (m : Message) (xs : List ℕ) (w : ℕ) (ws : List ℕ)
    → e.proc_bitmap ≡ w ∷ ws
    → w < 0xffff_ffff
    → ((x : ℕ) → mem x xs ≡ true → check_bit e.proc_bitmap x ≡ 1)
    → Listed e.kernel.procs e.kernel.proc_list xs
    → length xs < fuel
    → (pid : ℕ) × (e' : Env) × (check_bit e.proc_bitmap pid ≡ 0)
      × ((j : ℕ) → j < pid → check_bit e.proc_bitmap j ≡ 1)
      × (alloc_proc address fuel e m ≡ ok (e', send_back m (address pid)))
      × Listed e'.kernel.procs e'.kernel.proc_list (xs ++ (pid ∷ []))
      × ((e'.kernel.procs pid).status ≡ stop)
      × ((e'.kernel.procs pid).pid ≡ pid)
      × ((e'.kernel.procs pid).parent_pid ≡ 1)
      × ((j : ℕ) → check_bit e'.proc_bitmap j ≡ (if pid == j then 1 else check_bit e.proc_bitmap j))
alloc_proc-Listed address fuel e m xs w ws bitmap free used list h =
    let (low, clear, below) = find_first-least w (omega arith) ws (λ full. omega (arith, full)) in
    let pid = find_first_unset_bit (w ∷ ws) in
    let here : check_bit e.proc_bitmap pid ≡ 0 =
      ap (λ (b : List ℕ). check_bit b pid) bitmap ∙ clear in
    let found : find_first_unset_bit e.proc_bitmap ≡ pid = ap find_first_unset_bit bitmap in
    let new : mem pid xs ≡ false = elim (Bool-cases (mem pid xs)) [
      | inl i ↦ absurd (omega (arith, used pid i, here))
      | inr n ↦ n
    ] in
    let (e', done, listed, status, own, parent, bits) =
      alloc_proc_lem address fuel e m xs pid found (λ none. omega (arith, low, none)) list new h in
    let inside : pid / 32 < length e.proc_bitmap =
      subst (λ (b : List ℕ). pid / 32 < length b) (sym bitmap) (omega (arith, low)) in
    (
      pid,
      e',
      here,
      (λ j l. ap (λ (b : List ℕ). check_bit b j) bitmap ∙ below j l),
      done,
      listed,
      status,
      own,
      parent,
      λ j. ap (λ (b : List ℕ). check_bit b j) bits ∙ check-set e.proc_bitmap pid j inside,
    )

drop_suscriber_ne :
    (pid : ℕ) (xs : List ℕ) (i : ℕ) → pid ≢ 0 → get_or (drop_suscriber pid xs) i 0 ≢ pid
drop_suscriber_ne pid [] i nz = λ e. nz (sym e)
drop_suscriber_ne pid (x ∷ xs) zero nz = ground arith
drop_suscriber_ne pid (x ∷ xs) (suc i) nz = drop_suscriber_ne pid xs i nz

drop_method_ne :
    (pid : ℕ) (xs : List Method) (i : ℕ)
    → pid ≢ 0
    → (get_or (drop_method pid xs) i no_method).pid ≢ pid
drop_method_ne pid [] i nz = λ e. nz (sym e)
drop_method_ne pid (x ∷ xs) zero nz = ground arith
drop_method_ne pid (x ∷ xs) (suc i) nz = drop_method_ne pid xs i nz

-- The state that EXIT_PROC leaves, where `k` is the kernel without the process in its list.
abbrev exited : Env → ℕ → Kernel → Env
exited e pid k =
    let stack = (e.kernel.procs pid).pstack in
    record e {
      kernel = set_proc k pid no_proc;
      interrupt_suscribed = drop_suscriber pid e.interrupt_suscribed;
      interrupt_methods = drop_method pid e.interrupt_methods;
      proc_bitmap = clear_bit e.proc_bitmap pid;
      proc_count = (e.proc_count + 2 ^ 32 - 1) % 2 ^ 32;
      freed =
          if not (stack == 0) && ltb stack e.core_space_free_end then stack ∷ e.freed else e.freed;
    }

exit_proc-unlinked :
    (fuel : ℕ) (e : Env) (m : Message) (k : Kernel)
    → unlink_proc fuel (set_name e m.major []).kernel m.major ≡ ok k
    → exit_proc fuel e m ≡ ok (exited e m.major k, [])
unfolding exit_proc
exit_proc-unlinked fuel e m k done = ground (arith, done)

-- The list and the parents behind EXIT_PROC.
pub exit_proc-parents :
    (fuel : ℕ) (e : Env) (m : Message) (x : ℕ) (xs ys : List ℕ)
    → Listed e.kernel.procs e.kernel.proc_list (x ∷ (xs ++ (m.major ∷ ys)))
    → length xs < fuel
    → (e' : Env) × (exit_proc fuel e m ≡ ok (e', []))
      × Listed e'.kernel.procs e'.kernel.proc_list (x ∷ (xs ++ ys))
      × (e'.kernel.procs m.major ≡ no_proc)
      × ((q : ℕ) → q ≢ m.major → (e'.kernel.procs q).parent_pid ≡ (e.kernel.procs q).parent_pid)
exit_proc-parents fuel e m x xs ys w h =
    let pid = m.major in
    let k = (set_name e pid []).kernel in
    let before : Listed k.procs k.proc_list (x ∷ (xs ++ (pid ∷ ys))) =
      Listed-frame (x ∷ (xs ++ (pid ∷ ys))) e.kernel.procs k.procs e.kernel.proc_list w
        (λ y i. ground arith) in
    let (k', done, list, parents) = unlink_proc-Listed xs ys x fuel k pid no_proc before h in
    (
      exited e pid k',
      exit_proc-unlinked fuel e m k' done,
      list,
      ground arith,
      λ q n. ground (arith, n) ∙ parents q ∙ ground (arith, n),
    )

-- A process other than 0 that exits behind the head of the process list leaves the list, in which
-- the others keep their order, and the tables of interrupts, and its slot is cleared; no message
-- is sent. The entries of the list are distinct, and the fuel exceeds the number between the head
-- and this one.
pub exit_proc-Listed :
    (fuel : ℕ) (e : Env) (m : Message) (x : ℕ) (xs ys : List ℕ)
    → m.major ≢ 0
    → Listed e.kernel.procs e.kernel.proc_list (x ∷ (xs ++ (m.major ∷ ys)))
    → length xs < fuel
    → (e' : Env) × (exit_proc fuel e m ≡ ok (e', []))
      × Listed e'.kernel.procs e'.kernel.proc_list (x ∷ (xs ++ ys))
      × (e'.kernel.procs m.major ≡ no_proc)
      × ((i : ℕ) → get_or e'.interrupt_suscribed i 0 ≢ m.major)
      × ((i : ℕ) → (get_or e'.interrupt_methods i no_method).pid ≢ m.major)
unfolding exit_proc
exit_proc-Listed fuel e m x xs ys nz w h =
    let pid = m.major in
    let k = (set_name e pid []).kernel in
    let before : Listed k.procs k.proc_list (x ∷ (xs ++ (pid ∷ ys))) =
      Listed-frame (x ∷ (xs ++ (pid ∷ ys))) e.kernel.procs k.procs e.kernel.proc_list w
        (λ y i. ground arith) in
    let (k', done, list, parents) = unlink_proc-Listed xs ys x fuel k pid no_proc before h in
    (
      exited e pid k',
      ground (arith, done),
      list,
      ground arith,
      λ i. drop_suscriber_ne pid e.interrupt_suscribed i nz,
      λ i. drop_method_ne pid e.interrupt_methods i nz,
    )

-- Where the head of a process list of distinct entries exits, the list afterwards is its cleared
-- slot alone.
exit_proc_head :
    (fuel : ℕ) (e : Env) (m : Message) (ys : List ℕ)
    → Listed e.kernel.procs e.kernel.proc_list (m.major ∷ ys)
    → (e' : Env) × (exit_proc fuel e m ≡ ok (e', []))
      × Listed e'.kernel.procs e'.kernel.proc_list (m.major ∷ [])
      × (e'.kernel.procs m.major ≡ no_proc)
unfolding exit_proc unlink_proc
exit_proc_head fuel e m ys w = (
  exited e m.major (set_name e m.major []).kernel,
  ground (arith, w.0),
  (w.0, refl, ground arith),
  ground arith,
)
