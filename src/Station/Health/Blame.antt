-- ===== src/Station/Health/Blame.antt =====
-- Which stations the reported level is due to.
use aviationwx_bridge.Prelude.{
  Bool, List, Option, String, [], ap, arith, false, if◌then◌else◌, is_zero, ltb, none, not, some, ℕ,
  ◌&&◌, ◌==◌, ◌||◌, ◌∷◌, ◌≡◌, ◌≤◌,
}
use aviationwx_bridge.Queue.Names.{Name, is_some}
use aviationwx_bridge.Config.Values.{Station}
use aviationwx_bridge.Station.Polling.{Polling}
use aviationwx_bridge.Station.Health.{
  Level, Shown, SubsystemHealth, Tally, degraded_level, down, level_of, new_tally, operational,
  status_snapshot, tally_all, tally_station, weather_subsystem_health,
}

abbrev pub any : (Shown → Bool) → List Shown → Bool
any f [] = false
any f (s ∷ ss) = f s || any f ss

abbrev pub is_enabled : Shown → Bool
is_enabled s = s.station.enabled

abbrev pub is_live : Shown → Bool
is_live s = s.station.enabled && not s.station.waiting_for_txid

-- a live station that was polled and did not answer
abbrev pub is_unreachable : Shown → Bool
is_unreachable s = is_live s && not s.station.lan_ok && not (is_zero s.station.last_poll_at)

abbrev pub is_degraded : Shown → Bool
is_degraded s = is_live s && s.station.degraded

-- a live station whose last post failed
abbrev pub is_unposted : Shown → Bool
is_unposted s = is_live s && is_some s.post.last_post_error

-- the level, without counting
abbrev pub level_by_stations : Bool → List Shown → Level
level_by_stations configured ss =
    if any is_unreachable ss
    then down
    else if any is_enabled ss
        && (not (any is_live ss) || any is_degraded ss || configured && any is_unposted ss)
    then degraded_level
    else operational

abbrev pub map_level : Option SubsystemHealth → Option Level
map_level none = none
map_level (some h) = some h.level

-- what the loop adds up
abbrev Sums : Tally → List Shown → Tally → Type 0
Sums t ss r =
    (r.lan_ok ≡ (t.lan_ok && not (any is_unreachable ss)))
    × (r.post_ok ≡ (t.post_ok && not (any is_unposted ss)))
    × (r.degraded ≡ (t.degraded || any is_degraded ss))
    × (ltb 0 r.enabled ≡ (ltb 0 t.enabled || any is_enabled ss))
    × ((r.waiting == r.enabled) ≡ ((t.waiting == t.enabled) && not (any is_live ss)))
    × (r.waiting ≤ r.enabled)

tally_station-Sums :
    (s : Shown) (t : Tally) → t.waiting ≤ t.enabled → Sums t (s ∷ []) (tally_station s t)
unfolding tally_station
tally_station-Sums s t h = ground arith

Sums-cons :
    (s : Shown) (ss : List Shown) (t u r : Tally)
    → Sums t (s ∷ []) u
    → Sums u ss r
    → Sums t (s ∷ ss) r
Sums-cons s ss t u r h k = ground (arith, h, k)

tally_all-Sums : (ss : List Shown) (t : Tally) → t.waiting ≤ t.enabled → Sums t ss (tally_all ss t)
unfolding tally_all
tally_all-Sums [] t h = ground arith
tally_all-Sums (s ∷ ss) t h =
    let one = tally_station-Sums s t h in
    Sums-cons s ss t (tally_station s t) (tally_all ss (tally_station s t)) one
      (tally_all-Sums ss (tally_station s t) one.5)

level-by :
    (configured : Bool) (ss : List Shown) (r : Tally)
    → Sums new_tally ss r
    → level_of configured r ≡ level_by_stations configured ss
unfolding level_of
level-by configured ss r h = ground (arith, h)

-- The reported level, if there are stations, is down exactly if a live station was polled and does not
-- answer, live meaning enabled and not waiting for its transmitter. Otherwise it is degraded exactly if
-- a station is enabled, and none is live, or a live one is degraded, or the API is configured and the
-- last post of a live one failed. Else it is operational.
pub weather_subsystem_health_lem :
    (text : Name → String) (configured : Bool) (queued : ℕ) (st : Station) (sts : List Station)
    (p : Polling)
    → map_level (weather_subsystem_health text configured queued (st ∷ sts) p)
      ≡ some (level_by_stations configured (status_snapshot text queued (st ∷ sts) p))
unfolding weather_subsystem_health
weather_subsystem_health_lem text configured queued st sts p =
    let shown = status_snapshot text queued (st ∷ sts) p in
    ap some (
      level-by configured shown (tally_all shown new_tally)
        (tally_all-Sums shown new_tally (omega arith)))
