-- ===== src/Station/Status.antt =====
-- What internal/station/manager.go keeps of each station: its status, the log of payloads and the log of
-- failed polls. A payload is one opaque value, and `shorten` is what `truncateRawForConsole` makes of it.
use aviationwx_bridge.Prelude.{
  Bool, Instant, List, Option, String, [], false, if◌then◌else◌, is_zero, leb, minute, none, some,
  take, true, zero_time, ℕ, ◌&&◌, ◌+◌, ◌||◌, ◌∷◌,
}
use aviationwx_bridge.Queue.Names.{Name, name_eq}
use aviationwx_bridge.Queue.Names.Table.{Table, find, store}
use aviationwx_bridge.Config.Values.{Station}
use aviationwx_bridge.Config.Station.{davis}
use aviationwx_bridge.Station.Delivery.{Outcome}

-- `Observation`
pub record Observation : Type 0 where
  pub observed_at : Instant
  pub source_id : String
  pub provider : String
  pub provider_meta : ℕ

-- the fields of `StationStatus` that the polls and the configuration write; the other ones are those of
-- the delivery
pub record StationStatus : Type 0 where
  pub id : Name
  pub name : Name
  pub type : Name
  pub enabled : Bool
  pub waiting_for_txid : Bool
  pub lan_ok : Bool
  pub degraded : Bool
  pub last_poll_at : Instant
  pub last_poll_error : Name
  pub last_observed_at : Instant

abbrev pub no_status : StationStatus
no_status = record {
  id = [];
  name = [];
  type = [];
  enabled = false;
  waiting_for_txid = false;
  lan_ok = false;
  degraded = false;
  last_poll_at = zero_time;
  last_poll_error = [];
  last_observed_at = zero_time;
}

-- `PayloadLogEntry`
pub record PayloadLogEntry : Type 0 where
  pub at : Instant
  pub observed_at : Instant
  pub station_id : Name
  pub lan_ok : Bool
  pub posted : Option Bool
  pub failed_post : Option Outcome
  pub message : Name
  pub raw : Option ℕ

abbrev pub max_payload_log : ℕ
max_payload_log = 40

abbrev pub or_no_status : Option StationStatus → StationStatus
or_no_status none = no_status
or_no_status (some s) = s

-- `setStatus`, which makes a status if there is none
unfoldable pub set_status :
    Name → (StationStatus → StationStatus) → Table StationStatus → Table StationStatus
set_status id change ss = store id (change (or_no_status (find id ss))) ss

abbrev pub is_none : {A : Type 0} → Option A → Bool
is_none none = true
is_none (some a) = false

unfoldable pub status_from_config : Station → StationStatus → StationStatus
status_from_config st prev = record prev {
  id = st.id;
  name = st.name;
  type = st.type;
  enabled = st.enabled;
  waiting_for_txid = st.enabled && name_eq st.type davis && is_none st.txid;
}

-- `notePayload`
unfoldable pub note_payload :
    (ℕ → Option ℕ) → PayloadLogEntry → List PayloadLogEntry → List PayloadLogEntry
note_payload shorten entry log =
    take max_payload_log
      (record entry { raw = elim entry.raw [ none ↦ none | some r ↦ shorten r ] } ∷ log)

-- `noteLANPollOutcome`, of which the log of the failures is kept
unfoldable pub note_lan_poll_outcome : Name → Bool → Instant → Table Instant → Table Instant
note_lan_poll_outcome id lan_ok now log =
    let noted = store id now log in
    if lan_ok then log else elim (find id log) [
      | none ↦ noted
      | some last ↦ if is_zero last || leb (last + minute) now then noted else log
    ]
