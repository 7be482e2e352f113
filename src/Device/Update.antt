-- ===== src/Device/Update.antt =====
-- A request that waits and its answer, in kernel/modules/device/dev.c.
use omocha_os.Base.{
  ℕ, suc, ◌≡◌, ◌≢◌, sym, ap, ◌∙◌, ◌⊎◌, inl, inr, Bool, true, some, List, [], ◌∷◌, ℕ_discrete, arith,
}
use omocha_os.Core.Process.{Message}
use omocha_os.Core.Run.{ok}
use omocha_os.Device.{
  DeviceImpl, DeviceRequest, Registration, Devices, set_impl, func_of, request, take_request,
  find_request, update_request,
}

-- Of the requests that devices get, DEV_READ is 1, DEV_WRITE is 2, DEV_OPEN is 3 and DEV_CLOSE is 4;
-- `func` is the number under which the implementation has registered its function for the request.
abbrev pub IsFunction : Registration → (type func : ℕ) → Type 0
IsFunction r type func =
    ((type ≡ 1) × (func ≡ r.id_read_func))
    ⊎ (((type ≡ 2) × (func ≡ r.id_write_func))
        ⊎ (((type ≡ 3) × (func ≡ r.id_open_func)) ⊎ ((type ≡ 4) × (func ≡ r.id_close_func))))

func_of-IsFunction :
    (r : Registration) (type func : ℕ) → IsFunction r type func → func_of r type ≡ func
unfolding func_of
func_of-IsFunction r type func (inl (t, f)) = ground (arith, t, f)
func_of-IsFunction r type func (inr (inl (t, f))) = ground (arith, t, f)
func_of-IsFunction r type func (inr (inr (inl (t, f)))) = ground (arith, t, f)
func_of-IsFunction r type func (inr (inr (inr (t, f)))) = ground (arith, t, f)

-- The request with this number, for the implementation of the device.
abbrev pub passed_on : Devices → Message → (func : ℕ) → Message
passed_on d m func = record m { type = func; receiver = (d.impls m.major).pid; d4 = m.sender }

-- The device of the request is in use and can be written to directly, and its implementation lets
-- the application wait.
pub record LetsWait (answer : Message → Message) (d : Devices) (m : Message) (func : ℕ)
    : Type 0 where
  pub in_use : (d.impls m.major).in_use ≡ true
  pub owned : (d.impls m.major).pid ≢ 0
  pub permitted : (d.impls m.major).registration.has_permission ≡ true
  pub function : IsFunction (d.impls m.major).registration m.type func
  pub waits : (answer (passed_on d m func)).major ≡ 1

abbrev waiting : Devices → Message → DeviceRequest
waiting d m = record { app_pid = m.sender; impl_pid = (d.impls m.major).pid; type = m.type }

abbrev queued : Devices → Message → Devices
queued d m =
    let impl = d.impls m.major in
    set_impl d m.major (record impl { wait_list = waiting d m ∷ impl.wait_list })

request_waiting :
    (answer : Message → Message) (d : Devices) (m : Message) (func : ℕ)
    → LetsWait answer d m func
    → request answer d m ≡ (queued d m, passed_on d m func ∷ [])
unfolding request
request_waiting answer d m func w =
    rw (func_of-IsFunction (d.impls m.major).registration m.type func w.function)
      (rw w.in_use (rw w.permitted (rw w.waits (ground (arith, w.owned)))))

abbrev answered : Devices → ℕ → Devices
answered d i = set_impl d i (record (d.impls i) { wait_list = (d.impls i).wait_list })

find_request-first :
    (fuel : ℕ) (d : Devices) (q app_pid : ℕ) (r : DeviceRequest) (rs : List DeviceRequest)
    → (d.impls q).wait_list ≡ r ∷ rs
    → r.app_pid ≡ app_pid
    → find_request (suc fuel) d (d.impls q).pid app_pid (some q)
      ≡ ok (
          some (
            set_impl d q (record (d.impls q) { wait_list = rs }),
            r.type,
            (d.impls q).registration.has_permission,
          ))
unfolding find_request take_request
find_request-first fuel d q app_pid r rs e a = rw e (ground (arith, a))

queued-impl :
    (d : Devices) (m : Message)
    → (queued d m).impls m.major
      ≡ record (d.impls m.major) { wait_list = waiting d m ∷ (d.impls m.major).wait_list }
queued-impl d m = ground arith

abbrev restored : Devices → Message → Devices
restored d m =
    let q = queued d m in
    set_impl q m.major (record (q.impls m.major) { wait_list = (d.impls m.major).wait_list })

restored-same : (d : Devices) (m : Message) (i : ℕ) → (restored d m).impls i ≡ d.impls i
restored-same d m i = elim (ℕ_discrete i m.major) [
  | yes here ↦ ground (arith, here)
  | no other ↦ ground (arith, other)
]

find_request-queued :
    (fuel : ℕ) (d : Devices) (m u : Message)
    → (d.impls m.major).registration.has_permission ≡ true
    → u.sender ≡ (d.impls m.major).pid
    → u.d4 ≡ m.sender
    → find_request (suc fuel) (queued d m) u.sender u.d4 (some m.major)
      ≡ ok (some (restored d m, m.type, true))
find_request-queued fuel d m u permitted from app =
    let q = queued d m in
    let at = queued-impl d m in
    let pid : (q.impls m.major).pid ≡ u.sender = ap (λ (i : DeviceImpl). i.pid) at ∙ sym from in
    let allowed : (q.impls m.major).registration.has_permission ≡ true =
      ap (λ (i : DeviceImpl). i.registration.has_permission) at ∙ permitted in
    ap (λ (n : ℕ). find_request (suc fuel) q n u.d4 (some m.major)) (sym pid)
    ∙ find_request-first fuel q m.major u.d4 (waiting d m) (d.impls m.major).wait_list
        (ap (λ (i : DeviceImpl). i.wait_list) at) (sym app)
    ∙ ap (λ (b : Bool). ok (some (restored d m, m.type, b))) allowed

-- An application asks to read, write, open or close a device that is the first of the used ones, in use, open to
-- direct writes and held by a process other than 0, and the implementation answers that it has to
-- wait: then the request is passed on under the number of the function that the implementation has
-- registered for it, and the application gets nothing yet; and when the
-- implementation later reports any other status for this application, with fuel for one device,
-- the application gets that message as the answer to its request, and every device is as it was
-- before the request.
pub update_request-request :
    (answer : Message → Message) (fuel : ℕ) (d : Devices) (m u : Message) (func : ℕ)
    → LetsWait answer d m func
    → d.use_list ≡ some m.major
    → u.sender ≡ (d.impls m.major).pid
    → u.d4 ≡ m.sender
    → u.major ≢ 1
    → (d' : Devices) × ((request answer d m).1 ≡ passed_on d m func ∷ [])
      × (update_request (suc fuel) (request answer d m).0 u
          ≡ ok (d', record u { receiver = m.sender; type = m.type } ∷ []))
      × ((i : ℕ) → d'.impls i ≡ d.impls i)
unfolding update_request
update_request-request answer fuel d m u func w first from app done =
    let made = request_waiting answer d m func w in
    let found =
      ap (find_request (suc fuel) (queued d m) u.sender u.d4) first
      ∙ find_request-queued fuel d m u w.permitted from app in
    (
      restored d m,
      ap (λ (r : Devices × List Message). r.1) made,
      ap (λ (r : Devices × List Message). update_request (suc fuel) r.0 u) made
          ∙ rw found (ground (arith, done, app)),
      restored-same d m,
    )
