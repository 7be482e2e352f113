-- ===== src/Systask/Handle.antt =====
-- The loop body of `SysTask` of kernel/modules/systask/systask.c: the request is answered by the
-- messages of the result, in the order in which they are sent. A sender without permission is only
-- reported, and gets the same answer.
use omocha_os.Base.{ℕ, ◌*◌, ◌==◌, none, some, List, [], ◌∷◌, length, ltb, if◌then◌else◌}
use omocha_os.Core.Process.{Message, Process}
use omocha_os.Core.Paging.{vir2phy}
use omocha_os.Core.Run.{Run, ok}
use omocha_os.Core.Ipc.{is_some, set_proc}
use omocha_os.Systask.Env.{Env, send_back}
use omocha_os.Systask.Interrupts.{
  of_sender, reg_int_func, unreg_int_func, reg_int_msg, unreg_int_msg, reg_exc_msg, unreg_exc_msg,
}
use omocha_os.Systask.Processes.{reg_proc, unreg_proc, query_proc, alloc_proc, exit_proc}

-- Words copied to a buffer of the sender, where it is large enough; a buffer in the kernel is only
-- reported.
unfoldable pub copy_out :
    (e : Env) (m : Message) (words : List ℕ) (result : ℕ) → Run (Env × List Message)
copy_out e m words result =
    let buf = of_sender e m m.d1 in
    if ltb m.d2 (4 * length words)
    then ok (e, send_back m 0xffff_ffff)
    else ok (record e { copies = (buf, words) ∷ e.copies }, send_back m result)

abbrev usage : Env → List ℕ
usage e =
    e.core_space_start ∷ e.core_space_free_start ∷ e.core_space_free_end ∷ e.core_space_end
    ∷ e.memory_end ∷ []

-- `QUERY_ENV`
unfoldable pub query_env : Env → Message → Run (Env × List Message)
unfolding copy_out
query_env e m =
    if m.major == 1
    then ok (e, send_back m e.mem_lower)
    else if m.major == 2
    then ok (e, send_back m e.mem_upper)
    else if m.major == 4
    then copy_out e m e.memory_zone e.memory_zone_count
    else if m.major == 3
    then copy_out e m e.boot_info 0
    else if m.major == 5
    then if ltb m.d2 20 then ok (e, send_back m 0xffff_ffff) else copy_out e m (usage e) 0
    else ok (e, [])

-- The selectors of a privilege level: `SEL_CODE_DPL1`, `SEL_DATA_DPL1`, `SEL_CODE_DPL3` and
-- `SEL_DATA_DPL3`.
abbrev pub set_selectors : (code info : ℕ) → Process → Process
set_selectors code info p = record p {
  cs = code;
  es = info;
  fs = info;
  ds = info;
  ss = info;
  gs = info;
}

unfoldable pub switch_priv : Env → Message → (code info : ℕ) → Run (Env × List Message)
switch_priv e m code info =
    let p = set_selectors code info (e.kernel.procs m.sender) in
    ok (record e { kernel = set_proc e.kernel m.sender p }, send_back m m.major)

module _ (address : ℕ → ℕ) (text_at : ℕ → List ℕ) (b16 fuel : ℕ) where
  unfoldable pub get_proc : Env → Message → Run (Env × List Message)
  get_proc e m = ok (e, send_back m (address m.major))

  -- `&proc_list[0]` is the head itself; 0 where there is none.
  unfoldable pub get_proc_list_head : Env → Message → Run (Env × List Message)
  get_proc_list_head e m =
      ok (e, send_back m (elim (e.kernel.proc_list) [ none ↦ 0 | some h ↦ address h ]))

  unfoldable pub handle : Env → Message → Run (Env × List Message)
  handle e m =
      if m.type == 1
      then ok (e, send_back m e.beats)
      else if m.type == 2
      then reg_proc text_at b16 e m
      else if m.type == 3
      then unreg_proc text_at b16 fuel e m
      else if m.type == 4
      then query_proc text_at b16 fuel e m
      else if m.type == 5
      then reg_int_func e m
      else if m.type == 6
      then unreg_int_func e m
      else if m.type == 7
      then reg_int_msg e m
      else if m.type == 8
      then unreg_int_msg e m
      else if m.type == 16
      then reg_exc_msg e m
      else if m.type == 17
      then unreg_exc_msg e m
      else if m.type == 9
      then ok (e, send_back m (if is_some (e.kernel.procs m.sender).quene_head then 1 else 0))
      else if m.type == 10
      then query_env e m
      else if m.type == 11
      then exit_proc fuel e m
      else if m.type == 13
      then alloc_proc address fuel e m
      else if m.type == 14
      then get_proc e m
      else if m.type == 15
      then ok (e, send_back m (vir2phy e.kernel.words (e.kernel.procs m.major).page_dir m.d1))
      else if m.type == 12
      then get_proc_list_head e m
      else if m.type == 19
      then switch_priv e m 0x33 0x3b
      else if m.type == 18
      then switch_priv e m 0x21 0x29
      else ok (e, [])
