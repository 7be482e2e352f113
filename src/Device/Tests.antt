-- ===== src/Device/Tests.antt =====
-- One device, which process 7 implements, and process 9, which reads from it.
use omocha_os.Base.{ℕ, ◌≡◌, refl, inl, true, none, some, [], ◌∷◌, arith, ◌==◌, if◌then◌else◌}
use omocha_os.Core.Process.{Message}
use omocha_os.Core.Run.{ok}
use omocha_os.Device.{DeviceImpl, Devices, cleared_impl, request, update_request}
use omocha_os.Device.Update.{passed_on, update_request-request}

abbrev disk_impl : DeviceImpl
disk_impl = record {
  registration = record {
    device_name = 72 ∷ [];
    task_name = 72 ∷ [];
    id_read_func = 21;
    id_write_func = 22;
    id_open_func = 23;
    id_close_func = 24;
    id_info_func = 25;
    has_permission = true;
  };
  pid = 7;
  device_id = 4;
  in_use = true;
  wait_list = [];
  next = none;
}

abbrev one_device : Devices
one_device = record {
  impls = λ i. if i == 4 then disk_impl else cleared_impl;
  free_list = some 5;
  use_list = some 4;
}

abbrev device_message : (sender type major d4 : ℕ) → Message
device_message sender type major d4 = record {
  sender = sender;
  receiver = 6;
  ready = 0;
  type = type;
  major = major;
  d1 = 0x1000;
  d2 = 0;
  d3 = 512;
  d4 = d4;
}

abbrev read_later : Message → Message
read_later m = record m { major = 1 }

update_request-request_example :
    (d' : Devices) × ((request read_later one_device (device_message 9 1 4 0)).1
      ≡ passed_on one_device (device_message 9 1 4 0) 21 ∷ [])
    × (update_request 1
          (request read_later one_device (device_message 9 1 4 0)).0
          (device_message 7 12 0 9)
        ≡ ok (d', record (device_message 7 12 0 9) { receiver = 9; type = 1 } ∷ []))
    × ((i : ℕ) → d'.impls i ≡ one_device.impls i)
update_request-request_example =
    update_request-request read_later 0 one_device (device_message 9 1 4 0)
      (device_message 7 12 0 9) 21
      (record {
        in_use = refl;
        owned = λ e. omega arith;
        permitted = refl;
        function = inl (refl, refl);
        waits = refl;
      })
      refl refl refl (λ e. omega arith)
