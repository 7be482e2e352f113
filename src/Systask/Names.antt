-- ===== src/Systask/Names.antt =====
-- The names of processes: REG_PROC and QUERY_PROC of kernel/modules/systask/systask.c.
use omocha_os.Base.{
  ℕ, zero, suc, ◌<◌, ◌≡◌, ◌≢◌, refl, ap, ◌∙◌, true, false, Option, List, [], ◌∷◌, length, arith,
  ℕ_discrete,
}
use omocha_os.Core.Process.{Message, Process}
use omocha_os.Core.Paging.{vir2phy}
use omocha_os.Core.Run.{ok}
use omocha_os.Core.Ipc.Queue.{mem}
use omocha_os.Systask.Env.{Env, send_back}
use omocha_os.Systask.Processes.{
  same_name, name_of, name_taken, set_name, reg_proc, find_name, query_proc,
}
use omocha_os.Systask.ProcList.{Listed, Listed-frame}

-- A name does not change where the memory of a process is.
name_of-set_name :
    (text_at : ℕ → List ℕ) (b16 : ℕ) (e : Env) (m : Message) (pid : ℕ) (name : List ℕ)
    → name_of text_at b16 (set_name e pid name) m ≡ name_of text_at b16 e m
unfolding name_of
name_of-set_name text_at b16 e m pid name =
    let same : ((set_name e pid name).kernel.procs m.sender).page_dir
        ≡ (e.kernel.procs m.sender).page_dir =
      ground arith in
    ap (λ (dir : ℕ). text_at (vir2phy e.kernel.words dir b16)) same

same_name_refl : (xs : List ℕ) → same_name xs xs ≡ true
unfolding same_name
same_name_refl [] = refl
same_name_refl (x ∷ xs) = ground (arith, same_name_refl xs)

name_taken-false :
    (procs : ℕ → Process) (name : List ℕ) (pid n x : ℕ)
    → name_taken procs name pid n ≡ false
    → x < n
    → x ≢ pid
    → same_name name (procs x).name ≡ false
unfolding name_taken
name_taken-false procs name pid zero x free h ne = absurd (omega arith)
name_taken-false procs name pid (suc n) x free h ne = elim (ℕ_discrete x n) [
  | yes e ↦ ground (arith, e)
  | no o ↦ name_taken-false procs name pid n x (ground arith) (omega arith) ne
]

find_name-Listed :
    (xs : List ℕ) (fuel : ℕ) (procs : ℕ → Process) (head : Option ℕ) (name : List ℕ) (s : ℕ)
    → Listed procs head xs
    → mem s xs ≡ true
    → same_name name (procs s).name ≡ true
    → ((x : ℕ) → mem x xs ≡ true → x ≢ s → same_name name (procs x).name ≡ false)
    → length xs < fuel
    → find_name fuel procs name head ≡ ok (procs s).pid
unfolding find_name
find_name-Listed xs zero procs head name s w i named others h = absurd (omega arith)
find_name-Listed [] (suc fuel) procs head name s w i named others h = cc
find_name-Listed (x ∷ xs) (suc fuel) procs head name s w i named others h = elim (ℕ_discrete x s) [
  | yes e ↦ ground (arith, w.0, e)
  | no o ↦ ground (
    arith,
    w.0,
    others x (ground arith) o,
    find_name-Listed xs fuel procs (procs x).next name s w.2 (ground arith) named
        (λ y j. others y (ground arith)) (omega arith),
  )
]

-- A process that registers a name of fewer than 16 bytes which no other slot below `proc_count` holds
-- is answered 0, and a request whose text is the same is then answered its number, whatever the
-- memory holds elsewhere by then. The process stands in the process list, whose entries are distinct,
-- below `proc_count` and fewer than the fuel, and has its index as its pid.
pub query_proc-reg_proc :
    (text_at text_at' : ℕ → List ℕ) (b16 fuel : ℕ) (e : Env) (m m' : Message) (xs : List ℕ)
    → name_taken e.kernel.procs (name_of text_at b16 e m) m.sender e.proc_count ≡ false
    → length (name_of text_at b16 e m) < 16
    → name_of text_at' b16 e m' ≡ name_of text_at b16 e m
    → Listed e.kernel.procs e.kernel.proc_list xs
    → mem m.sender xs ≡ true
    → ((x : ℕ) → mem x xs ≡ true → x < e.proc_count)
    → (e.kernel.procs m.sender).pid ≡ m.sender
    → length xs < fuel
    → (e' : Env) × (reg_proc text_at b16 e m ≡ ok (e', send_back m 0))
      × (query_proc text_at' b16 fuel e' m' ≡ ok (e', send_back m' m.sender))
unfolding reg_proc query_proc
query_proc-reg_proc text_at text_at' b16 fuel e m m' xs free short same w listed used own h =
    let name = name_of text_at b16 e m in
    let e' = set_name e m.sender name in
    let procs = e'.kernel.procs in
    let list : Listed procs e.kernel.proc_list xs =
      Listed-frame xs e.kernel.procs procs e.kernel.proc_list w (λ x i. ground arith) in
    let found : find_name fuel procs name e.kernel.proc_list ≡ ok (procs m.sender).pid =
      find_name-Listed xs fuel procs e.kernel.proc_list name m.sender list listed
        (ground (arith, same_name_refl name))
        (λ x i ne.
          ground (
            arith,
            name_taken-false e.kernel.procs name m.sender e.proc_count x free (used x i) ne,
          ))
        h in
    let asked : name_of text_at' b16 e' m' ≡ name =
      name_of-set_name text_at' b16 e m' m.sender name ∙ same in
    (e', ground (arith, free, short), rw asked (ground (arith, found, own)))
