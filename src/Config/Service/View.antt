-- ===== src/Config/Service/View.antt =====
-- What clients can read of the service, as an abstract map with the events that announce its changes.
use aviationwx_bridge.Prelude.{
  Bool-cases, List, Option, [], fun_ext, if◌then◌else◌, inl, inr, none, refl, some, subst, ◌++◌,
  ◌∷◌, ◌≡◌,
}
use aviationwx_bridge.Queue.Names.{Name, name_eq}
use aviationwx_bridge.Queue.Names.RoundTrip.{name_eq_sound}
use aviationwx_bridge.Queue.Names.Table.{
  Table, delete, find, find-delete_other, find-delete_self, store,
}
use aviationwx_bridge.Config.Values.{Camera, GlobalSettings, Station}
use aviationwx_bridge.Config.Service.{
  ConfigEvent, Library, Service, camera_added, camera_deleted, camera_updated, global_updated,
  station_added, station_deleted, station_updated,
}

abbrev pub Map : Type 0 → Type 0
Map A = Name → Option A

abbrev pub set : {A : Type 0} → Name → Option A → Map A → Map A
set id o m other = if name_eq id other then o else m other

pub record View : Type 0 where
  pub camera_of : Map Camera
  pub station_of : Map Station
  pub settings : GlobalSettings

abbrev pub with_cameras : Map Camera → View → View
with_cameras m v = record { camera_of = m; station_of = v.station_of; settings = v.settings }

abbrev pub with_stations : Map Station → View → View
with_stations m v = record { camera_of = v.camera_of; station_of = m; settings = v.settings }

-- the changes that a client may see, each with the event that announces it
pub data Change : View → ConfigEvent → View → Type 0 where
  camera_is_added :
      (v : View) (c : Camera)
      → v.camera_of c.id ≡ none
      → Change v (camera_added c.id) (with_cameras (set c.id (some c) v.camera_of) v)
  camera_is_updated :
      (v : View) (c old : Camera)
      → v.camera_of c.id ≡ some old
      → Change v (camera_updated c.id) (with_cameras (set c.id (some c) v.camera_of) v)
  camera_is_deleted :
      (v : View) (id : Name) (old : Camera)
      → v.camera_of id ≡ some old
      → Change v (camera_deleted id) (with_cameras (set id none v.camera_of) v)
  station_is_added :
      (v : View) (st : Station)
      → v.station_of st.id ≡ none
      → Change v (station_added st.id) (with_stations (set st.id (some st) v.station_of) v)
  station_is_updated :
      (v : View) (st old : Station)
      → v.station_of st.id ≡ some old
      → Change v (station_updated st.id) (with_stations (set st.id (some st) v.station_of) v)
  station_is_deleted :
      (v : View) (id : Name) (old : Station)
      → v.station_of id ≡ some old
      → Change v (station_deleted id) (with_stations (set id none v.station_of) v)
  settings_are_updated :
      (v : View) (g : GlobalSettings) → Change v global_updated (record v { settings = g })

-- a run of changes with their events
pub data Trace (u : View) : List ConfigEvent → View → Type 0 where
  start : Trace u [] u
  then_change :
      {es : List ConfigEvent} {e : ConfigEvent} {v w : View}
      → Trace u es v
      → Change v e w
      → Trace u (es ++ (e ∷ [])) w

abbrev pub map_of : {A : Type 0} → Table A → Map A
map_of t id = find id t

pub map_of-store :
    {A : Type 0} (id : Name) (a : A) (t : Table A)
    → map_of (store id a t) ≡ set id (some a) (map_of t)
map_of-store id a t = fun_ext (λ other. elim (Bool-cases (name_eq id other)) [
  | inl e ↦ rw e refl
  | inr e ↦ rw e (find-delete_other id other t e)
])

pub map_of-delete :
    {A : Type 0} (id : Name) (t : Table A) → map_of (delete id t) ≡ set id none (map_of t)
map_of-delete id t = fun_ext (λ other. elim (Bool-cases (name_eq id other)) [
  | inl e ↦
      rw e (
        subst (λ i. find i (delete id t) ≡ none) (name_eq_sound id other e) (find-delete_self id t))
  | inr e ↦ rw e (find-delete_other id other t e)
])

module _ {J : Type 0} (lib : Library J) where
  abbrev pub view : Service J → View
  view s = record {
    camera_of = map_of s.cameras;
    station_of = map_of s.stations;
    settings = s.global;
  }

  abbrev pub Follows : View → Service J → Type 0
  Follows u s = Trace u s.events (view s)
