-- ===== src/Queue/Tracking/Reachable.antt =====
-- The life of a queue: it starts with a scan of its directory, and then its operations follow in any
-- order, each with its own answers of the operating system.
use aviationwx_bridge.Prelude.{
  Bool-cases, Instant, List, Option-cases, [], inl, inr, length, not, refl, some, subst, ℕ, ◌+◌,
  ◌<◌, ◌^◌, ◌||◌, ◌∙◌, ◌∷◌, ◌≡◌, ◌≤◌,
}
use aviationwx_bridge.Queue.Names.{unix_epoch, unix_milli}
use aviationwx_bridge.Queue.Disk.{Dir, Entry, Os, list_files_sorted, total}
use aviationwx_bridge.Queue.Disk.Laws.{HasDistinctNames}
use aviationwx_bridge.Queue.Disk.Listing.{listing_counts}
use aviationwx_bridge.Queue.State.{
  Queue, QueueConfig, Ratio, can_resume_capture, maybe_resume_capture, try_resume_capture_if_paused,
  update_health_level,
}
use aviationwx_bridge.Queue.Removal.{
  QueuedImage, drop_queued_image, emergency_thin, expire_old_images, mark_uploaded,
}
use aviationwx_bridge.Queue.Thinning.{thin_queue}
use aviationwx_bridge.Queue.Intake.{WriteEnv, enqueue, new_queue, scan_directory, scanned_state}
use aviationwx_bridge.Queue.Tracking.{Tracks}
use aviationwx_bridge.Queue.Tracking.Removing.{Counts-subst, update_health_level_same}
use aviationwx_bridge.Queue.Tracking.Operations.{
  IsCurrent, drop_queued_image-Tracks, emergency_thin-Tracks, expire_old_images-Tracks,
  mark_uploaded-Tracks, thin_queue-Tracks,
}
use aviationwx_bridge.Queue.Tracking.Storing.{enqueue-Tracks}

pub data Step : Queue → Queue → Type 0 where
  enqueues :
      (os : Os)
      → (env : WriteEnv) → (size : ℕ) → (t : Instant) → (now : Instant) → (q : Queue)
      → unix_epoch ≤ t
      → unix_milli t + length q.dir < 2 ^ 63
      → Step q (enqueue os env size t now q).0
  uploads :
      (os : Os)
      → (img : QueuedImage) → (q : Queue) → IsCurrent q.dir img
      → Step q (mark_uploaded os img q).0
  drops :
      (os : Os)
      → (img : QueuedImage) → (q : Queue) → IsCurrent q.dir img
      → Step q (drop_queued_image os img q).0
  thins : (stride : ℕ → ℕ → ℕ → ℕ) → (os : Os) → (q : Queue) → Step q (thin_queue stride os q).0
  emergency : (os : Os) → (keep : Ratio) → (q : Queue) → Step q (emergency_thin os keep q).0
  expires : (os : Os) → (now : Instant) → (q : Queue) → Step q (expire_old_images os now q).0
  resumes : (q : Queue) → Step q (try_resume_capture_if_paused q).0

pub data Reach (config : QueueConfig) : Queue → Type 0 where
  scanned :
      (os : Os)
      → (dir : Dir) → (q : Queue) → HasDistinctNames dir
      → scan_directory os (new_queue config dir) ≡ some q
      → Reach config q
  next : {q r : Queue} → Reach config q → Step q r → Reach config r

scanned_state_same :
    (files : List Entry) (q : Queue)
    → ((scanned_state files q).dir ≡ q.dir)
      × ((scanned_state files q).image_count ≡ length files)
      × ((scanned_state files q).total_size_bytes ≡ total files)
scanned_state_same [] q = (refl, refl, refl)
scanned_state_same (f ∷ files) q = (refl, refl, refl)

scan_directory-Tracks :
    (os : Os) (q r : Queue) → HasDistinctNames q.dir → scan_directory os q ≡ some r → Tracks r
unfolding scan_directory
scan_directory-Tracks os q r d h = elim (Option-cases (list_files_sorted os q.dir)) [
  | inl e ↦ absurd (cc (rw (e, scan_directory) at h))
  | inr (files, e) ↦
      let found : some (update_health_level (scanned_state files q)) ≡ some r =
        rw (e, scan_directory) at h in
      let same : update_health_level (scanned_state files q) ≡ r = cc in
      let s = scanned_state_same files q in
      let u = update_health_level_same (scanned_state files q) in
      let listed = listing_counts os q.dir files e in
      subst (λ r'. Tracks r') same
        (Counts-subst (u.0 ∙ s.0) (u.1 ∙ s.1) (u.2 ∙ s.2)
          (record { counted = listed.0; sized = listed.1; distinct = d }))
]

pub try_resume-Tracks : (q : Queue) → Tracks q → Tracks (try_resume_capture_if_paused q).0
unfolding try_resume_capture_if_paused maybe_resume_capture
try_resume-Tracks q t = elim (Bool-cases (not q.capture_paused || not (can_resume_capture q))) [
  | inl e ↦ rw (e, maybe_resume_capture) t
  | inr e ↦ rw (e, maybe_resume_capture) t
]

Step-Tracks : {q r : Queue} → Step q r → Tracks q → Tracks r
Step-Tracks (enqueues os env size t now q h small) k = enqueue-Tracks os env size t now q h small k
Step-Tracks (uploads os img q c) k = mark_uploaded-Tracks os img q c k
Step-Tracks (drops os img q c) k = drop_queued_image-Tracks os img q c k
Step-Tracks (thins stride os q) k = thin_queue-Tracks stride os q k
Step-Tracks (emergency os keep q) k = emergency_thin-Tracks os keep q k
Step-Tracks (expires os now q) k = expire_old_images-Tracks os now q k
Step-Tracks (resumes q) k = try_resume-Tracks q k

-- After a scan of a directory without double names and any operations in any order, whatever the
-- disk answers each listing, removal and write, the number and the bytes that a queue counts are those of
-- the images in its directory whose metadata can be read, which is fixed for each file. An enqueue is of a time since 1970 that fits in an int64 of milliseconds, and an
-- image that is marked uploaded or dropped is as it was listed, or gone.
pub Reach-Tracks : (config : QueueConfig) {q : Queue} → Reach config q → Tracks q
Reach-Tracks config (scanned os dir q d h) =
    unfold new_queue in scan_directory-Tracks os (new_queue config dir) q d h
Reach-Tracks config (next r s) = Step-Tracks s (Reach-Tracks config r)
