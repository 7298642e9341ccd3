-- ===== src/Config/Service/Restart.antt =====
-- A new process reads back what the old one had in memory.
use aviationwx_bridge.Prelude.{
  All, Bool, Bool-cases, List, Option, Option-cases, [], ap, false, inl, inr, none, refl, some,
  subst, sym, true, ◌∙◌, ◌∷◌, ◌≡◌, ◌⊎◌,
}
use aviationwx_bridge.Queue.Names.{Name, is_some, name_eq}
use aviationwx_bridge.Queue.Names.RoundTrip.{name_eq_sound}
use aviationwx_bridge.Queue.Names.Table.{Table, find, find-store_other, find-store_self, store}
use aviationwx_bridge.Config.Values.{Camera, GlobalSettings, Station}
use aviationwx_bridge.Config.Settings.{option_map}
use aviationwx_bridge.Config.Files.{File, Files, ext, is_config_file}
use aviationwx_bridge.Config.Files.Laws.{differs_by_ext, ext-json, find_text}
use aviationwx_bridge.Config.Files.Agreement.{Agrees, IsStored, path_differs, path_of}
use aviationwx_bridge.Config.Station.{unmarshal_station}
use aviationwx_bridge.Config.Service.{Library, Service}
use aviationwx_bridge.Config.Service.Loading.{
  LoadEnv, listed, load_dir, load_loop, load_stations, normalize_camera, reload, restarted, take_in,
  use_camera_text, use_station_text,
}
use aviationwx_bridge.Config.Service.Operations.{
  IsGoodCamera, IsGoodStation, IsInSync, IsWholeOp, Op, WritesOwn, run,
}
use aviationwx_bridge.Config.Service.Sync.{run-IsInSync}

abbrev pub all_readable : Name → Bool
all_readable n = true

is_text : {J : Type 0} (f : File J) → is_config_file f ≡ true → f.is_dir ≡ false
is_text f h = elim (Bool-cases f.is_dir) [ inl d ↦ absurd (cc (rw d at h)) | inr d ↦ d ]

module _ {J A : Type 0} (encode : A → Option J) (id_of : A → Name) (Good : A → Type 0)
    (use_text : J → Option A) (norm : A → A) (same_id : (a : A) → id_of (norm a) ≡ id_of a)
    (reads : (a : A) (c : J) → Good a → encode a ≡ some c → use_text c ≡ some (norm a))
    (mem : Table A)
    (owned : (id : Name) (a : A) → find id mem ≡ some a → (id_of a ≡ id) × Good a) where
  -- an id is read already or will be
  abbrev IsCovered : Table A → Files J → Name → Type 0
  IsCovered acc fs id =
      (find id acc ≡ option_map norm (find id mem)) ⊎ (is_some (find_text (path_of id) fs) ≡ true)

  abbrev HasRead : Table A × Bool → Type 0
  HasRead r = (r.1 ≡ true) × ((id : Name) → find id r.0 ≡ option_map norm (find id mem))

  skip_covers :
      (f : File J) (fs : Files J) (acc : Table A) (id : Name)
      → is_config_file f ≡ false
      → IsCovered acc (f ∷ fs) id
      → IsCovered acc fs id
  skip_covers f fs acc id h (inl e) = inl e
  skip_covers f fs acc id h (inr e) = elim (Bool-cases f.is_dir) [
    | inl d ↦ inr (rw d at e)
    | inr d ↦
        let other : name_eq f.name (path_of id) ≡ false =
          differs_by_ext f.name (path_of id)
            (ap (λ t. name_eq (ext f.name) t) (ext-json id) ∙ (rw d at h)) in
        inr (rw (d, other) at e)
  ]

  read_covers :
      (f : File J) (fs : Files J) (acc : Table A) (id : Name) (a : A)
      → f.name ≡ path_of id
      → f.is_dir ≡ false
      → find id mem ≡ some a
      → (other : Name) → IsCovered acc (f ∷ fs) other
      → IsCovered (store id (norm a) acc) fs other
  read_covers f fs acc id a named d found other h = elim (Bool-cases (name_eq id other)) [
    | inl e ↦
        subst (λ i. IsCovered (store id (norm a) acc) fs i) (name_eq_sound id other e)
          (inl (find-store_self id (norm a) acc ∙ ap (option_map norm) (sym found)))
    | inr e ↦ elim h [
      | inl k ↦ inl (find-store_other id other (norm a) acc e ∙ k)
      | inr k ↦
          let differs : name_eq f.name (path_of other) ≡ false =
            ap (λ n. name_eq n (path_of other)) named ∙ path_differs id other e in
          inr (rw (d, differs) at k)
    ]
  ]

  load_loop_lem :
      (fs : Files J) (acc : Table A)
      → All (IsStored encode id_of Good mem) fs
      → ((id : Name) → IsCovered acc fs id)
      → HasRead (load_loop all_readable use_text id_of fs acc)
  unfolding load_loop
  load_loop_lem [] acc h k = (refl, λ id. elim (k id) [ inl e ↦ e | inr e ↦ absurd (cc e) ])
  load_loop_lem (f ∷ fs) acc h k = elim (Bool-cases (is_config_file f)) [
    | inr e ↦ rw e (load_loop_lem fs acc h.1 (λ id. skip_covers f fs acc id e (k id)))
    | inl e ↦
        let s = h.0 e in
        let own = owned s.0 s.1 s.3 in
        let is_id : id_of (norm s.1) ≡ s.0 = same_id s.1 ∙ own.0 in
        rw (e, reads s.1 f.content own.1 s.4, take_in, is_id)
          (load_loop_lem fs (store s.0 (norm s.1) acc) h.1
            (λ id. read_covers f fs acc s.0 s.1 s.2 (is_text f e) s.3 id (k id)))
  ]

option_map_id : {A : Type 0} (o : Option A) → option_map (λ a. a) o ≡ o
option_map_id none = refl
option_map_id (some a) = refl

to_read :
    {J A : Type 0} (encode : A → Option J) (id_of : A → Name) (Good : A → Type 0) (norm : A → A)
    (mem : Table A) (fs : Files J)
    → Agrees encode id_of Good mem fs
    → (id : Name)
    → (find id [] ≡ option_map norm (find id mem)) ⊎ (is_some (find_text (path_of id) fs) ≡ true)
to_read encode id_of Good norm mem fs h id = elim (Option-cases (find id mem)) [
  | inl e ↦ inl (rw e refl)
  | inr (a, e) ↦ inr (rw (h.1 id a e).2.2 refl)
]

-- the directories and files can be read
abbrev pub reading : LoadEnv
reading = record {
  global_readable = true;
  camera_dir = listed all_readable;
  station_dir = listed all_readable;
}

module _ {J : Type 0} (lib : Library J) where
  -- what a new process has in memory, compared with the old one
  abbrev pub IsRestored : Service J → Service J × Bool → Type 0
  IsRestored s r =
      (r.1 ≡ true)
      × (r.0.global ≡ s.global)
      × ((id : Name) → find id r.0.cameras ≡ option_map (normalize_camera lib) (find id s.cameras))
      × ((id : Name) → find id r.0.stations ≡ find id s.stations)

module _ {J : Type 0} (lib : Library J)
    (camera_text : (c : Camera) (t : J)
      → lib.encode_camera c ≡ some t
      → lib.decode_camera t ≡ some c)
    (station_text : (st : Station) (t : J)
      → lib.encode_station st ≡ some t
      → lib.decode_station t ≡ some (record { read_enabled = some st.enabled; read_fields = st }))
    (global_text : (g : GlobalSettings) (t : J)
      → lib.encode_global g ≡ some t
      → lib.decode_global t ≡ some g) where
  reads_camera :
      (c : Camera) (t : J)
      → IsGoodCamera lib c
      → lib.encode_camera c ≡ some t
      → use_camera_text lib t ≡ some (normalize_camera lib c)
  unfolding use_camera_text
  reads_camera c t g e = rw (camera_text c t e, g) refl

  reads_station :
      (st : Station) (t : J)
      → IsGoodStation lib st
      → lib.encode_station st ≡ some t
      → use_station_text lib t ≡ some st
  unfolding use_station_text unmarshal_station
  reads_station st t g e = rw (station_text st t e, g.1, g.0) refl

  normal_id : (c : Camera) → (normalize_camera lib c).id ≡ c.id
  unfolding normalize_camera
  normal_id c = refl

  loaded_cameras :
      (s : Service J)
      → IsInSync lib s
      → let r = load_loop all_readable (use_camera_text lib) (λ c. c.id) s.camera_files [] in
        (r.1 ≡ true)
        × ((id : Name) → find id r.0 ≡ option_map (normalize_camera lib) (find id s.cameras))
  loaded_cameras s h =
      load_loop_lem lib.encode_camera (λ c. c.id) (IsGoodCamera lib) (use_camera_text lib)
        (normalize_camera lib) normal_id reads_camera s.cameras
        (λ id c e. let k = h.0.1 id c e in (k.0, k.1)) s.camera_files [] h.0.0
        (to_read lib.encode_camera (λ c. c.id) (IsGoodCamera lib) (normalize_camera lib) s.cameras
          s.camera_files h.0)

  loaded_stations :
      (s : Service J)
      → IsInSync lib s
      → let r = load_loop all_readable (use_station_text lib) (λ t. t.id) s.station_files [] in
        (r.1 ≡ true) × ((id : Name) → find id r.0 ≡ option_map (λ t. t) (find id s.stations))
  loaded_stations s h =
      load_loop_lem lib.encode_station (λ t. t.id) (IsGoodStation lib) (use_station_text lib)
        (λ t. t) (λ t. refl) reads_station s.stations (λ id t e. let k = h.1.1 id t e in (k.0, k.1))
        s.station_files [] h.1.0
        (to_read lib.encode_station (λ t. t.id) (IsGoodStation lib) (λ t. t) s.stations
          s.station_files h.1)

  loaded :
      (s : Service J) → IsInSync lib s → IsRestored lib s (reload lib reading (restarted lib s))
  unfolding reload load_stations load_dir
  loaded s h =
      let cams = loaded_cameras s h in
      let sts = loaded_stations s h in
      rw (h.2.1, global_text s.global h.2.0 h.2.2, cams.0, sts.0)
        (refl, refl, cams.1, λ id. sts.1 id ∙ option_map_id (find id s.stations))

  -- Where memory and files agreed at first, a new process that can read its files finds, after any
  -- operations of clients whose writes are whole, the settings and stations that the old one had in
  -- memory, and its cameras with their upload settings normalised; what JSON writes it reads back. A
  -- change of the settings writes nothing through a pointer that it shares with the service.
  pub reload-run_restores :
      (ops : List (Op J)) (s : Service J)
      → All IsWholeOp ops
      → All WritesOwn ops
      → IsInSync lib s
      → IsRestored lib (run lib ops s) (reload lib reading (restarted lib (run lib ops s)))
  reload-run_restores ops s w o h = loaded (run lib ops s) (run-IsInSync lib ops s w o h)
