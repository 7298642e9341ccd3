-- ===== src/Queue/State.antt =====
-- The data of internal/queue/types.go, and the health rules of internal/queue/queue.go.
-- A `float64` ratio is an exact fraction. `float64(a) / float64(b)` compared with a threshold gives
-- the same answer: both are rounded to nearest and the fractions differ by more than the rounding.
use aviationwx_bridge.Prelude.{
  Bool, Instant, false, if◌then◌else◌, leb, ltb, not, true, ℕ, ◌&&◌, ◌*◌, ◌||◌,
}
use aviationwx_bridge.Queue.Disk.{Dir}

pub data HealthLevel : Type 0 where
  healthy catching_up degraded critical : HealthLevel

-- the order of the constants
abbrev pub rank : HealthLevel → ℕ
rank healthy = 0
rank catching_up = 1
rank degraded = 2
rank critical = 3

pub record Ratio : Type 0 where
  pub num : ℕ
  pub den : ℕ

infix 50 ◌≤?◌
-- a <= b and a < b on fractions with positive denominators
abbrev pub ◌≤?◌ : Ratio → Ratio → Bool
a ≤? b = leb (a.num * b.den) (b.num * a.den)

infix 50 ◌<?◌
abbrev pub ◌<?◌ : Ratio → Ratio → Bool
a <? b = ltb (a.num * b.den) (b.num * a.den)

pub record QueueConfig : Type 0 where
  pub max_files : ℕ
  pub max_size_mb : ℕ
  pub max_age_seconds : ℕ
  pub thinning_enabled : Bool
  pub protect_newest : ℕ
  pub protect_oldest : ℕ
  pub threshold_catching_up : Ratio
  pub threshold_degraded : Ratio
  pub threshold_critical : Ratio
  pub pause_capture_on_critical : Bool
  pub resume_threshold : Ratio

abbrev pub percent : ℕ → Ratio
percent n = record { num = n; den = 100 }

unfoldable pub default_queue_config : QueueConfig
default_queue_config = record {
  max_files = 100;
  max_size_mb = 50;
  max_age_seconds = 3600;
  thinning_enabled = true;
  protect_newest = 10;
  protect_oldest = 5;
  threshold_catching_up = percent 50;
  threshold_degraded = percent 80;
  threshold_critical = percent 95;
  pause_capture_on_critical = true;
  resume_threshold = percent 70;
}

-- `Queue` with its `QueueState` and its directory. The two channels hold at most one signal.
pub record Queue : Type 0 where
  pub config : QueueConfig
  pub dir : Dir
  pub image_count : ℕ
  pub total_size_bytes : ℕ
  pub oldest_timestamp : Instant
  pub newest_timestamp : Instant
  pub health_level : HealthLevel
  pub capture_paused : Bool
  pub images_queued : ℕ
  pub images_uploaded : ℕ
  pub images_thinned : ℕ
  pub images_expired : ℕ
  pub pause_signal : Bool
  pub resume_signal : Bool

abbrev pub mega : ℕ
mega = 1024 * 1024

abbrev pub nothing : Ratio
nothing = record { num = 0; den = 1 }

unfoldable pub get_capacity_percent : Queue → Ratio
get_capacity_percent q =
    let count_pct =
      if ltb 0 q.config.max_files
      then (let r : Ratio = record { num = q.image_count; den = q.config.max_files } in r)
      else nothing in
    let size_pct =
      if ltb 0 q.config.max_size_mb
      then (let r : Ratio = record {
        num = q.total_size_bytes;
        den = q.config.max_size_mb * mega;
      } in
          r)
      else nothing in
    if size_pct <? count_pct then count_pct else size_pct

unfoldable pub should_thin : Queue → Bool
should_thin q = leb (rank catching_up) (rank q.health_level) && q.config.thinning_enabled

unfoldable pub can_resume_capture : Queue → Bool
can_resume_capture q = get_capacity_percent q <? q.config.resume_threshold

unfoldable pub maybe_resume_capture : Queue → Queue
maybe_resume_capture q =
    if not q.capture_paused || not (can_resume_capture q)
    then q
    else record q { capture_paused = false; resume_signal = true }

-- the `switch` of `updateHealthLevelLocked`
unfoldable pub set_health : Ratio → Queue → Queue
set_health capacity q =
    if q.config.threshold_critical ≤? capacity
    then (if q.config.pause_capture_on_critical && not q.capture_paused
        then record q { health_level = critical; capture_paused = true; pause_signal = true }
        else record q { health_level = critical })
    else if q.config.threshold_degraded ≤? capacity
    then record q { health_level = degraded }
    else if q.config.threshold_catching_up ≤? capacity
    then record q { health_level = catching_up }
    else record q { health_level = healthy }

unfoldable pub update_health_level : Queue → Queue
update_health_level q = maybe_resume_capture (set_health (get_capacity_percent q) q)

-- `TryResumeCaptureIfPaused`
unfoldable pub try_resume_capture_if_paused : Queue → Queue × Bool
try_resume_capture_if_paused q =
    let q' = maybe_resume_capture q in (q', q.capture_paused && not q'.capture_paused)
