-- ===== src/Station/Hub.antt =====
-- The listener for stations that post themselves: `syncInterceptorHub` of internal/station/manager.go
-- and the routes, pending jobs and times of interceptor.go that it hands on. `quote` is the verb %q.
-- What a new hub and the old one share is handed on as it was; a job that comes
-- while the old one stops is lost with it, though its worker may still handle it before it ends.
pub mod Sorted
pub mod Routes
pub mod Served
use aviationwx_bridge.Prelude.{
  Bool, Instant, List, Option, [], false, if◌then◌else◌, none, not, some, true, ◌&&◌, ◌++◌, ◌||◌,
  ◌∷◌,
}
use aviationwx_bridge.Queue.Names.{Name, name_eq, name_lt}
use aviationwx_bridge.Queue.Names.Table.{Table, find, store}
use aviationwx_bridge.Scheduler.Upload.Transfer.{contains_text}
use aviationwx_bridge.Config.Values.{Station}
use aviationwx_bridge.Config.Station.{interceptor, normalize_station_defaults}
use aviationwx_bridge.Station.Status.{Observation, StationStatus, set_status}

-- `interceptorJob`
abbrev pub Job : Type 0
Job = Station × Observation

-- `interceptorHub`; `alive` is whether its server still runs
pub record Hub : Type 0 where
  pub addr : Name
  pub alive : Bool
  pub routes : Table Station
  pub last_emit : Table Instant
  pub pending : Table Job

abbrev pub has_route : Name → Table Station → Bool
has_route id [] = false
has_route id (r ∷ rs) = name_eq r.1.id id || has_route id rs

abbrev pub keep_routed : {A : Type 0} → Table Station → Table A → Table A
keep_routed routes [] = []
keep_routed routes (p ∷ ps) =
    let rest = keep_routed routes ps in if has_route p.0 routes then p ∷ rest else rest

-- `setRoutes`
unfoldable pub set_routes : Table Station → Hub → Hub
set_routes routes h = record h {
  routes = routes;
  last_emit = keep_routed routes h.last_emit;
  pending = keep_routed routes h.pending;
}

-- the enabled stations that listen, with their defaults
unfoldable pub listening : List Station → List Station
listening [] = []
listening (st ∷ sts) =
    let rest = listening sts in
    if st.enabled && name_eq st.type interceptor then normalize_station_defaults st ∷ rest else rest

abbrev pub insert_station : Station → List Station → List Station
insert_station st [] = st ∷ []
insert_station st (t ∷ ts) =
    let rest = insert_station st ts in if name_lt t.id st.id then t ∷ rest else st ∷ t ∷ ts

-- `sort.Slice` by the id
unfoldable pub sort_stations : List Station → List Station
sort_stations [] = []
sort_stations (st ∷ sts) = insert_station st (sort_stations sts)

abbrev pub active_addr : List Station → Name
active_addr [] = []
active_addr (st ∷ sts) = st.listen_addr

-- "listen_addr", "listen_path" and "interceptor listen failed"
abbrev pub listen_addr_word : Name
listen_addr_word = b'l' ∷ b'i' ∷ b's' ∷ b't' ∷ b'e' ∷ b'n' ∷ b'_' ∷ b'a' ∷ b'd' ∷ b'd' ∷ b'r' ∷ []

abbrev pub listen_path_word : Name
listen_path_word = b'l' ∷ b'i' ∷ b's' ∷ b't' ∷ b'e' ∷ b'n' ∷ b'_' ∷ b'p' ∷ b'a' ∷ b't' ∷ b'h' ∷ []

abbrev pub listen_failed_word : Name
listen_failed_word =
    b'i' ∷ b'n' ∷ b't' ∷ b'e' ∷ b'r' ∷ b'c' ∷ b'e' ∷ b'p' ∷ b't' ∷ b'o' ∷ b'r' ∷ 32 ∷ b'l' ∷ b'i'
    ∷ b's' ∷ b't' ∷ b'e' ∷ b'n' ∷ 32 ∷ b'f' ∷ b'a' ∷ b'i' ∷ b'l' ∷ b'e' ∷ b'd' ∷ []

unfoldable pub interceptor_routing_error : Name → Bool
interceptor_routing_error msg =
    if name_eq msg []
    then false
    else contains_text listen_addr_word msg
      || contains_text listen_path_word msg
      || contains_text listen_failed_word msg

-- the status of a station that cannot be reached at its address
abbrev pub unroutable : Name → StationStatus → StationStatus
unroutable msg s = record s { degraded = true; lan_ok = false; last_poll_error = msg }

-- a station that is routed again loses an error of the routing
unfoldable pub routable : StationStatus → StationStatus
routable s =
    if interceptor_routing_error s.last_poll_error
    then record s { degraded = false; last_poll_error = [] }
    else s

abbrev pub mismatch_message : (Name → Name) → Name → Name → Name
mismatch_message quote got addr =
    listen_addr_word
    ++ (32 ∷ quote got)
    ++ 32 ∷ b'd' ∷ b'o' ∷ b'e' ∷ b's' ∷ 32 ∷ b'n' ∷ b'o' ∷ b't' ∷ 32 ∷ b'm' ∷ b'a' ∷ b't' ∷ b'c'
      ∷ b'h' ∷ 32 ∷ b'a' ∷ b'c' ∷ b't' ∷ b'i' ∷ b'v' ∷ b'e' ∷ 32 ∷ b'b' ∷ b'i' ∷ b'n' ∷ b'd' ∷ 32
      ∷ []
    ++ quote addr

abbrev pub conflict_message : (Name → Name) → Name → Name → Name
conflict_message quote path keeper =
    listen_path_word
    ++ (32 ∷ quote path)
    ++ 32 ∷ b'a' ∷ b'l' ∷ b'r' ∷ b'e' ∷ b'a' ∷ b'd' ∷ b'y' ∷ 32 ∷ b'u' ∷ b's' ∷ b'e' ∷ b'd' ∷ 32
      ∷ b'b' ∷ b'y' ∷ 32 ∷ []
    ++ keeper

abbrev pub failed_message : Name → Name → Name
failed_message addr err =
    listen_failed_word ++ 32 ∷ b'o' ∷ b'n' ∷ 32 ∷ [] ++ addr ++ (b':' ∷ 32 ∷ err)

abbrev pub Routing : Type 0
Routing = Table Station × Table StationStatus

-- one round of the loop over the stations, by whether its path is taken
abbrev pub route_by : (Name → Name) → Station → Option Station → Routing → Routing
route_by quote st none r = (store st.listen_path st r.0, set_status st.id routable r.1)
route_by quote st (some prev) r =
    (r.0, set_status st.id (unroutable (conflict_message quote st.listen_path prev.id)) r.1)

unfoldable pub route : (Name → Name) → Name → Station → Routing → Routing
route quote addr st r =
    if not (name_eq st.listen_addr addr)
    then (r.0, set_status st.id (unroutable (mismatch_message quote st.listen_addr addr)) r.1)
    else route_by quote st (find st.listen_path r.0) r

unfoldable pub route_all : (Name → Name) → Name → List Station → Routing → Routing
route_all quote addr [] r = r
route_all quote addr (st ∷ sts) r = route_all quote addr sts (route quote addr st r)

-- every routed station, after the listener could not start
abbrev pub all_failed : Name → Table Station → Table StationStatus → Table StationStatus
all_failed msg [] ss = ss
all_failed msg (r ∷ rs) ss = all_failed msg rs (set_status r.1.id (unroutable msg) ss)

-- the hub that takes over: the times and the jobs of the old one
abbrev pub last_emit_of : Option Hub → Table Instant
last_emit_of none = []
last_emit_of (some h) = h.last_emit

abbrev pub pending_of : Option Hub → Table Job
pending_of none = []
pending_of (some h) = h.pending

abbrev pub Listening : Type 0
Listening = Option Hub × Table StationStatus

-- a new hub, by whether it can listen
abbrev pub start_hub :
    Name → Table Station → Option Hub → Option Name → Table StationStatus → Listening
start_hub addr routes old none ss = (
  some (record {
    addr = addr;
    alive = true;
    routes = routes;
    last_emit = last_emit_of old;
    pending = pending_of old;
  }),
  ss,
)
start_hub addr routes old (some err) ss = (none, all_failed (failed_message addr err) routes ss)

-- the old hub is kept, or a new one takes over
abbrev pub keep_or_start :
    Bool → Name → Table Station → Hub → Option Name → Table StationStatus → Listening
keep_or_start true addr routes h err ss = (some (set_routes routes h), ss)
keep_or_start false addr routes h err ss = start_hub addr routes (some h) err ss

abbrev pub switch_hub :
    Name → Table Station → Option Hub → Option Name → Table StationStatus → Listening
switch_hub addr routes none err ss = start_hub addr routes none err ss
switch_hub addr routes (some h) err ss =
    keep_or_start (name_eq h.addr addr && h.alive) addr routes h err ss

abbrev pub hub_for : Name → Routing → Option Hub → Option Name → Listening
hub_for addr ([], ss) old err = (none, ss)
hub_for addr (r ∷ rs, ss) old err = switch_hub addr (r ∷ rs) old err ss

-- `syncInterceptorHub`; `err` is what a listener that is started returns
unfoldable pub sync_interceptor_hub :
    (Name → Name) → Option Name → List Station → Option Hub → Table StationStatus → Listening
sync_interceptor_hub quote err wanted old ss =
    let enabled = sort_stations (listening wanted) in
    let addr = active_addr enabled in hub_for addr (route_all quote addr enabled ([], ss)) old err
