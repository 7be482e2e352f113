-- ===== src/Device.antt =====
-- The device task: kernel/modules/device/dev.c. A pointer into `impl_list` is the index of the entry,
-- and `none` is NULL. The wait list of a device, which the task alone links, is a list with the
-- newest request first.
pub mod Update
mod Tests
use omocha_os.Base.{
  ℕ, zero, suc, ◌+◌, Bool, true, false, not, ◌==◌, ◌&&◌, ◌||◌, Option, none, some, List, [], ◌∷◌,
  if◌then◌else◌,
}
use omocha_os.Core.Process.{Message, update}
use omocha_os.Core.Run.{Run, ok, fault, out_of_fuel, ◌>>=◌}
use omocha_os.Core.Ipc.{same_proc}
use omocha_os.Systask.Env.{send_back}

-- `struct DeviceRequest`
pub record DeviceRequest : Type 0 where
  pub app_pid : ℕ
  pub impl_pid : ℕ
  pub type : ℕ

-- `struct DeviceImpl_Register_Struct`
pub record Registration : Type 0 where
  pub device_name : List ℕ
  pub task_name : List ℕ
  pub id_read_func : ℕ
  pub id_write_func : ℕ
  pub id_open_func : ℕ
  pub id_close_func : ℕ
  pub id_info_func : ℕ
  pub has_permission : Bool

-- `struct DeviceImpl`
pub record DeviceImpl : Type 0 where
  pub registration : Registration
  pub pid : ℕ
  pub device_id : ℕ
  pub in_use : Bool
  pub wait_list : List DeviceRequest
  pub next : Option ℕ

pub record Devices : Type 0 where
  pub impls : ℕ → DeviceImpl
  pub free_list : Option ℕ
  pub use_list : Option ℕ

abbrev pub cleared_impl : DeviceImpl
cleared_impl = record {
  registration = record {
    device_name = [];
    task_name = [];
    id_read_func = 0;
    id_write_func = 0;
    id_open_func = 0;
    id_close_func = 0;
    id_info_func = 0;
    has_permission = false;
  };
  pid = 0;
  device_id = 0;
  in_use = false;
  wait_list = [];
  next = none;
}

abbrev pub set_impl : Devices → ℕ → DeviceImpl → Devices
set_impl d i v = record d { impls = update d.impls i v }

-- The loop of `init_impl_list` from entry `i` down to entry 0.
unfoldable pub init_from : ℕ → Devices → Devices
init_from zero d =
    record (set_impl d 0 (record cleared_impl { next = d.free_list; device_id = 0 })) {
      free_list = some 0;
    }
init_from (suc i) d =
    init_from i
      (record (set_impl d (suc i) (record cleared_impl { next = d.free_list; device_id = suc i })) {
        free_list = some (suc i);
      })

unfoldable pub init_impl_list : (max_device_count : ℕ) → Devices
unfolding init_from
init_impl_list n =
    init_from n (record { impls = λ i. cleared_impl; free_list = none; use_list = none })

-- Without a free entry the code follows NULL.
unfoldable pub register_device_impl : Devices → Registration → (pid : ℕ) → Run (Devices × ℕ)
register_device_impl d reg pid = elim (d.free_list) [
  | none ↦ fault
  | some i ↦
      let impl = d.impls i in
      let made : DeviceImpl = record impl {
        registration = reg;
        next = none;
        in_use = true;
        pid = pid;
      } in
      ok (
        record { impls = update d.impls i made; free_list = impl.next; use_list = some i },
        impl.device_id,
      )
]

-- The list of used entries without `impl`; `pp` is the entry before `p`.
unfoldable pub unlink_impl : ℕ → Devices → (impl pp : ℕ) → (p : Option ℕ) → Run Devices
unlink_impl zero d impl pp p = out_of_fuel
unlink_impl (suc fuel) d impl pp p = elim p [
  | none ↦ ok d
  | some q ↦
      let rest = unlink_impl fuel d impl q (d.impls q).next in
      if not (q == impl)
      then rest
      else if same_proc d.use_list q
      then ok (record d { use_list = (d.impls q).next })
      else ok (set_impl d pp (record (d.impls pp) { next = (d.impls q).next }))
]

unfoldable pub unregister_device_impl : ℕ → Devices → ℕ → Run (Devices × ℕ)
unregister_device_impl fuel d id = do
  let first : ℕ = elim (d.use_list) [ none ↦ 0 | some p ↦ p ]
  d1 ← unlink_impl fuel d id first d.use_list
  let free = set_impl d1 id (record cleared_impl { device_id = id; next = d1.free_list })
  ok (record free { free_list = some id }, 0)

-- The message type that the implementation wants for a request.
unfoldable pub func_of : Registration → (type : ℕ) → ℕ
func_of r type =
    if type == 1
    then r.id_read_func
    else if type == 2
    then r.id_write_func
    else if type == 3
    then r.id_open_func
    else r.id_close_func

-- DEV_READ, DEV_WRITE, DEV_OPEN and DEV_CLOSE. `answer` is what the implementation answers. The
-- messages sent are in the order of sending.
unfoldable pub request : (answer : Message → Message) → Devices → Message → Devices × List Message
unfolding func_of
request answer d m =
    let impl = d.impls m.major in
    let asked : Message = record m {
      type = func_of impl.registration m.type;
      receiver = impl.pid;
      d4 = m.sender;
    } in
    let reply = answer asked in
    let waiting : DeviceRequest = record {
      app_pid = m.sender;
      impl_pid = impl.pid;
      type = m.type;
    } in
    let queued = set_impl d m.major (record impl { wait_list = waiting ∷ impl.wait_list }) in
    if not impl.in_use || (impl.pid == 0)
    then (d, send_back m 2)
    else if not impl.registration.has_permission
    then (d, [])
    else if reply.major == 1
    then (queued, asked ∷ [])
    else (d, asked ∷ record reply { receiver = m.sender } ∷ [])

-- The first request of the application, and the list without it.
unfoldable pub take_request : List DeviceRequest → (app_pid : ℕ) → Option (ℕ × List DeviceRequest)
take_request [] app_pid = none
take_request (r ∷ rs) app_pid =
    let rest = take_request rs app_pid in
    if r.app_pid == app_pid
    then some (r.type, rs)
    else elim rest [ none ↦ none | some (type, rs') ↦ some (type, r ∷ rs') ]

-- The loop over the used entries: the type of the request and the permission of its device.
unfoldable pub find_request :
    ℕ → Devices → (impl_pid app_pid : ℕ) → (p : Option ℕ) → Run (Option (Devices × ℕ × Bool))
unfolding take_request
find_request zero d impl_pid app_pid p = out_of_fuel
find_request (suc fuel) d impl_pid app_pid p = elim p [
  | none ↦ ok none
  | some q ↦
      let impl = d.impls q in
      let rest = find_request fuel d impl_pid app_pid impl.next in
      if impl.pid == impl_pid
      then elim (take_request impl.wait_list app_pid) [
        | none ↦ rest
        | some (type, others) ↦ ok (
            some (
              set_impl d q (record impl { wait_list = others }),
              type,
              impl.registration.has_permission,
            ))
      ]
      else rest
]

-- DEV_UPD: the application that waits gets the message, as an answer to its request.
unfoldable pub update_request : ℕ → Devices → Message → Run (Devices × List Message)
unfolding find_request
update_request fuel d m =
    let search = (do
      found ← find_request fuel d m.sender m.d4 d.use_list
      ok (elim found [
        | none ↦ (d, [])
        | some (d1, type, permitted) ↦
            (d1, if permitted then record m { receiver = m.d4; type = type } ∷ [] else [])
      ])) in
    if m.major == 1 then ok (d, []) else search

-- `regs` is the caller's memory that DEV_REG points to.
unfoldable pub dispatch :
    (answer : Message → Message)
    → (regs : Message → Registration) → ℕ
    → Devices
    → Message
    → Run (Devices × List Message)
unfolding request update_request register_device_impl unregister_device_impl
dispatch answer regs fuel d m =
    let registered = (do
      (d1, id) ← register_device_impl d (regs m) m.sender
      ok (d1, send_back m id)) in
    let dropped = (do (d1, r) ← unregister_device_impl fuel d m.major; ok (d1, send_back m r)) in
    if m.type == 10
    then registered
    else if m.type == 11
    then dropped
    else if (m.type == 1) || ((m.type == 2) || ((m.type == 3) || (m.type == 4)))
    then ok (request answer d m)
    else if m.type == 12
    then update_request fuel d m
    else ok (d, [])
