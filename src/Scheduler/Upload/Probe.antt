-- ===== src/Scheduler/Upload/Probe.antt =====
-- `probeConnections` of internal/scheduler/upload.go: the connection test of one camera whose queue is
-- empty, the cameras taking turns.
use aviationwx_bridge.Queue.Names.Table.{find}
use aviationwx_bridge.Prelude.{
  Instant, List, Option, [], before, false, if◌then◌else◌, length, ltb, none, some, suc, true, zero,
  ℕ, ◌%◌, ◌+◌, ◌==◌, ◌∷◌,
}
use aviationwx_bridge.Queue.Names.{Name, is_some}
use aviationwx_bridge.Queue.Thinning.{nth}
use aviationwx_bridge.Scheduler.Upload.{UploadWorker}

-- the client of a camera that may be probed
unfoldable pub probe_client : Instant → Name → UploadWorker → Option ℕ
probe_client now id w = elim (find id w.cameras) [
  | none ↦ none
  | some c ↦
      if ltb 0 c.queue.image_count
      then none
      else if before now c.failures.backoff_until
      then none
      else c.uploader
]

abbrev first_client : Instant → List Name → UploadWorker → Option ℕ
first_client now [] w = none
first_client now (id ∷ ids) w = probe_client now id w

-- the index after the first camera, from `start` on, that may be probed
unfoldable pub probe_loop : Instant → UploadWorker → ℕ → ℕ → ℕ → Option ℕ
probe_loop now w start zero i = none
probe_loop now w start (suc rounds) i =
    let n = length w.queue_order in
    let idx = (start + i) % n in
    let rest = probe_loop now w start rounds (i + 1) in
    if is_some (first_client now (nth idx w.queue_order) w) then some ((idx + 1) % n) else rest

-- `TestConnection` answers with the text of an error, or none
abbrev pub note_probe : Instant → Option Name → UploadWorker → UploadWorker
note_probe tested none w = record w {
  last_probe_time = tested;
  last_probe_ok = true;
  last_probe_error = [];
}
note_probe tested (some err) w = record w {
  last_probe_time = tested;
  last_probe_ok = false;
  last_probe_error = err;
}

unfoldable pub probe_connections : Instant → Instant → Option Name → UploadWorker → UploadWorker
probe_connections now tested answer w =
    let n = length w.queue_order in
    elim (if n == 0 then none else probe_loop now w (w.probe_camera_index % n) n 0) [
      | none ↦ w
      | some index ↦ note_probe tested answer (record w { probe_camera_index = index })
    ]
