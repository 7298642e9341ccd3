-- ===== src/Scheduler/Orchestrator/Operations.antt =====
-- The calls of the orchestrator as data, and its invariant.
use aviationwx_bridge.Prelude.{
  Bool, Bool-cases, Instant, List, Option, [], ap, false, if◌then◌else◌, inl, inr, none, refl, some,
  suc, sym, true, ℕ, ◌∙◌, ◌∷◌, ◌≡◌, ◌≤◌,
}
use aviationwx_bridge.Queue.Names.{Name, is_some, name_eq}
use aviationwx_bridge.Queue.Names.Table.{Table, find}
use aviationwx_bridge.Queue.Disk.{Dir, Os}
use aviationwx_bridge.Queue.State.{Queue}
use aviationwx_bridge.Queue.Manager.{Queues, each}
use aviationwx_bridge.Scheduler.Gate.{CaptureGate}
use aviationwx_bridge.Scheduler.Capture.{CaptureEnv}
use aviationwx_bridge.Scheduler.Upload.{Camera, Cameras, UploadWorker, change_camera}
use aviationwx_bridge.Scheduler.Orchestrator.{
  NewCamera, Orchestrator, OrchestratorConfig, Worker, add_camera, each_worker, remove_camera,
  set_bridge_timezone, set_camera_uploader, set_max_concurrent_uploads, set_time_authority,
  set_time_health, start_all, stop_all,
}
use aviationwx_bridge.Scheduler.Orchestrator.Waking.{
  change_worker, set_max_concurrent_captures, tick_worker, wake_event,
}

pub data Call : Type 0 where
  add_call : Os → Dir → Instant → NewCamera → Call
  remove_call : Name → Call
  captures_call : Instant → ℕ → Call
  uploads_call : ℕ → Call
  uploader_call : Name → ℕ → Call
  timezone_call : Name → Call
  authority_call : ℕ → Call
  health_call : (Name → Option ℕ) → Name → Call
  start_call : Instant → Call
  stop_call : Call
  tick_call : CaptureEnv → Instant → Name → Call
  wake_call : CaptureEnv → Instant → Name → Call

unfoldable pub apply : Call → Orchestrator → Orchestrator
apply (add_call os dir now cam) o = (add_camera os dir now cam o).0
apply (remove_call id) o = (remove_camera id o).0
apply (captures_call now n) o = set_max_concurrent_captures now n o
apply (uploads_call n) o = set_max_concurrent_uploads n o
apply (uploader_call id u) o = set_camera_uploader id u o
apply (timezone_call tz) o = set_bridge_timezone tz o
apply (authority_call a) o = set_time_authority a o
apply (health_call new_authority zone) o = set_time_health new_authority zone o
apply (start_call now) o = start_all now o
apply stop_call o = stop_all o
apply (tick_call env now id) o = tick_worker env now id o
apply (wake_call env now id) o = wake_event env now id o

unfoldable pub run : List Call → Orchestrator → Orchestrator
run [] o = o
run (c ∷ cs) o = run cs (apply c o)

abbrev pub cameras_of : Option UploadWorker → Cameras
cameras_of none = []
cameras_of (some w) = w.cameras

abbrev pub order_of : Option UploadWorker → List Name
order_of none = []
order_of (some w) = w.queue_order

-- how often an id stands in a list
abbrev pub occurrences : Name → List Name → ℕ
occurrences id [] = 0
occurrences id (n ∷ ns) = let rest = occurrences id ns in if name_eq n id then suc rest else rest

abbrev pub one_if : Bool → ℕ
one_if true = 1
one_if false = 0

-- A camera is captured exactly if it has a queue and is uploaded, and then it stands once in the order
-- of the uploads.
abbrev pub HasSameIds : Table Worker → Queues → Cameras → List Name → Type 0
HasSameIds workers queues cameras order =
    (id : Name)
    → (is_some (find id queues) ≡ is_some (find id workers))
      × (is_some (find id cameras) ≡ is_some (find id workers))
      × (occurrences id order ≡ one_if (is_some (find id workers)))

-- the gate has the configured limit, which is from 1 to 10
abbrev pub IsLimited : CaptureGate → OrchestratorConfig → Type 0
IsLimited g c = (g.limit ≡ c.max_concurrent_captures) × (1 ≤ g.limit) × (g.limit ≤ 10)

abbrev pub IsConsistent : Orchestrator → Type 0
IsConsistent o =
    HasSameIds o.capture_workers o.queue_manager.queues (cameras_of o.upload_worker)
      (order_of o.upload_worker)
    × IsLimited o.capture_gate o.config

-- two maps with the same ids
abbrev pub SameKeys : {A B : Type 0} → Table A → Table B → Type 0
SameKeys s t = (id : Name) → is_some (find id s) ≡ is_some (find id t)

pub each_worker-SameKeys :
    (f : Worker → Worker) (ps : Table Worker) → SameKeys (each_worker f ps) ps
each_worker-SameKeys f [] id = refl
each_worker-SameKeys f (p ∷ ps) id = elim (Bool-cases (name_eq p.0 id)) [
  | inl e ↦ rw e refl
  | inr e ↦ rw e (each_worker-SameKeys f ps id)
]

pub change_worker-SameKeys :
    (i : Name) (f : Worker → Worker) (ps : Table Worker) → SameKeys (change_worker i f ps) ps
change_worker-SameKeys i f [] id = refl
change_worker-SameKeys i f (p ∷ ps) id =
    let ih = change_worker-SameKeys i f ps id in
    elim (Bool-cases (name_eq p.0 i)) [
      | inl e ↦ elim (Bool-cases (name_eq p.0 id)) [ inl g ↦ rw (e, g) refl | inr g ↦ rw (e, g) ih ]
      | inr e ↦ elim (Bool-cases (name_eq p.0 id)) [ inl g ↦ rw (e, g) refl | inr g ↦ rw (e, g) ih ]
    ]

pub change_camera-SameKeys :
    (i : Name) (f : Camera → Camera) (ps : Cameras) → SameKeys (change_camera i f ps) ps
change_camera-SameKeys i f [] id = refl
change_camera-SameKeys i f (p ∷ ps) id =
    let ih = change_camera-SameKeys i f ps id in
    elim (Bool-cases (name_eq p.0 i)) [
      | inl e ↦ elim (Bool-cases (name_eq p.0 id)) [ inl g ↦ rw (e, g) refl | inr g ↦ rw (e, g) ih ]
      | inr e ↦ elim (Bool-cases (name_eq p.0 id)) [ inl g ↦ rw (e, g) refl | inr g ↦ rw (e, g) ih ]
    ]

pub each-SameKeys : (f : Name → Queue → Queue) (ps : Queues) → SameKeys (each f ps) ps
each-SameKeys f [] id = refl
each-SameKeys f (p ∷ ps) id = elim (Bool-cases (name_eq p.0 id)) [
  | inl e ↦ rw e refl
  | inr e ↦ rw e (each-SameKeys f ps id)
]

-- maps with the ids of others
pub HasSameIds-SameKeys :
    (ws ws' : Table Worker) (qs qs' : Queues) (cs cs' : Cameras) (order : List Name)
    → SameKeys ws' ws
    → SameKeys qs' qs
    → SameKeys cs' cs
    → HasSameIds ws qs cs order
    → HasSameIds ws' qs' cs' order
HasSameIds-SameKeys ws ws' qs qs' cs cs' order w q c h id =
    (q id ∙ (h id).0 ∙ sym (w id), c id ∙ (h id).1 ∙ sym (w id), (h id).2 ∙ ap one_if (sym (w id)))
