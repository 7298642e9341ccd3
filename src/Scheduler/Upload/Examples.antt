-- ===== src/Scheduler/Upload/Examples.antt =====
-- The theorems about the upload worker at concrete inputs, and tests of its functions.
use aviationwx_bridge.Queue.Names.Table.{find}
use aviationwx_bridge.Prelude.{[], false, length, none, refl, some, true, ◌+◌, ◌<◌, ◌∷◌, ◌≡◌}
use aviationwx_bridge.Queue.Names.{
  Name, cut_suffix, decimal, decimal_fuel, digits_value, file_name, has_suffix, parse_int,
  trim_suffix,
}
use aviationwx_bridge.Queue.Disk.{Os, is_image, list_files_sorted}
use aviationwx_bridge.Queue.State.{Queue, default_queue_config}
use aviationwx_bridge.Queue.Removal.{QueuedImage}
use aviationwx_bridge.Queue.Intake.{new_queue}
use aviationwx_bridge.Queue.Reading.{dequeue_next, pick_next, queued_image}
use aviationwx_bridge.Scheduler.Upload.Failures.{prune_stale_file_read_failures}
use aviationwx_bridge.Scheduler.Upload.{
  Camera, UploadTask, UploadWorker, UploadWorkerConfig, add_queue, new_upload_worker, no_failures,
  start_pool,
}
use aviationwx_bridge.Scheduler.Upload.Transfer.{fail_upload, is_auth_error}
use aviationwx_bridge.Scheduler.Upload.Schedule.{
  Pool, adds, here, next, offer, schedule_camera, schedule_loop, schedule_uploads, schedules,
  started,
}
use aviationwx_bridge.Scheduler.Upload.Safety.{IsSafe, Reach-IsSafe}
use aviationwx_bridge.Scheduler.Upload.Accounting.{fail_upload_holds_off}

abbrev defaults : UploadWorkerConfig
defaults = record {
  config_max_concurrent = 0;
  config_catchup_threshold = 0;
  config_auth_backoff = 0;
}

abbrev camera : Name
camera = b'c' ∷ []

-- a queue with one image
abbrev one_image : Queue
one_image =
    record (new_queue default_queue_config
      (record { name = file_name 1000; size = 200; is_dir = false; has_info = true } ∷ [])) {
        image_count = 1;
      }

abbrev disk : Os
disk = record { can_read = true; can_remove = λ n. true; free = λ d. none }

abbrev with_camera : Pool
with_camera = record (started defaults 0) {
  worker = add_queue camera one_image [] (some 1) (started defaults 0).worker;
}

abbrev scheduled : Pool
scheduled = record with_camera {
  worker = schedule_uploads (λ id. disk) (λ p. true) 5 with_camera.worker;
}

scheduled_one : length scheduled.worker.work_chan ≡ 1
unfolding schedule_uploads schedule_loop schedule_camera offer started start_pool new_upload_worker
    add_queue dequeue_next list_files_sorted is_image has_suffix trim_suffix cut_suffix parse_int
    file_name decimal decimal_fuel digits_value pick_next queued_image
    prune_stale_file_read_failures new_queue
scheduled_one = refl

Reach-IsSafe_example : IsSafe scheduled
Reach-IsSafe_example = Reach-IsSafe defaults 0 (
    next (next here (adds camera one_image [] (some 1) (started defaults 0)))
      (schedules (λ id. disk) (λ p. true) 5 with_camera))

-- "login failed"
abbrev refusal : Name
refusal = b'L' ∷ b'o' ∷ b'g' ∷ b'i' ∷ b'n' ∷ 32 ∷ b'f' ∷ b'a' ∷ b'i' ∷ b'l' ∷ b'e' ∷ b'd' ∷ []

is_refusal : is_auth_error refusal ≡ true
unfolding is_auth_error
is_refusal = refl

abbrev known : Camera
known = record {
  queue = one_image;
  queue_serial = 0;
  remote_path = [];
  uploader = some 1;
  failures = no_failures;
}

abbrev idle : UploadWorker
idle = record (new_upload_worker defaults 0) { cameras = (camera, known) ∷ [] }

fail_upload_holds_off_example :
    let r = (fail_upload 7 camera refusal idle).0 in
    (r.auth_failures ≡ idle.auth_failures + 1)
    × (r.uploads_failed ≡ idle.uploads_failed + 2)
    × ((d : Camera) × (find camera r.cameras ≡ some d) × (d.failures.consecutive_failures ≡ 0 + 2))
    × (1000 < 7 + idle.auth_backoff → schedule_camera disk 1000 camera r ≡ (r, false))
fail_upload_holds_off_example =
    fail_upload_holds_off disk 7 1000 camera refusal idle known refl is_refusal

abbrev image : QueuedImage
image = record { filename = file_name 1000; timestamp = 0; size_bytes = 200 }

abbrev job : UploadTask
job = record { camera_id = camera; image = image; queue_serial = 0; uploader = 1; remote = [] }
