-- ===== src/Trust/Roster.antt =====
-- internal/update/trusted_hostkeys.go: the file of rosters, which lists the trusted fingerprints of each
-- upload server. `Text` is the content of a file, which JSON reads and prints; `lower` is the lower case
-- of one character. The directory of the configuration is always given.
pub mod Hosts
pub mod RoundTrip
mod Examples
use aviationwx_bridge.Prelude.{
  Bool, Instant, List, Option, [], false, if◌then◌else◌, leb, none, some, true, ℕ, ◌++◌, ◌∷◌,
}
use aviationwx_bridge.Queue.Names.{Int64, Name, decimal, name_eq, pos}
use aviationwx_bridge.Queue.Names.Table.{Table, find, store}
use aviationwx_bridge.Config.Upload.{lower_case, normalize_upload_port, trim_space}
use aviationwx_bridge.Trust.Fingerprints.{normalize_fingerprint_list}

-- `TrustedUploadHostKeysFileData`
pub record TrustedData : Type 0 where
  pub host : Name
  pub port : Int64
  pub sha256 : List Name
  pub updated_at : Instant
  pub source : Name

abbrev pub Endpoints : Type 0
Endpoints = Table TrustedData

-- what JSON reads of a file: its version, its map if it has one, and the list of an old file
pub record Probe : Type 0 where
  pub version : ℕ
  pub endpoints : Option Endpoints
  pub sha256 : List Name

pub record Json (Text : Type 0) : Type 0 where
  pub probe : Text → Option Probe
  pub single : Text → Option TrustedData
  pub print : Endpoints → Text

pub data RosterFile (Text : Type 0) : Type 0 where
  absent broken : RosterFile Text
  holds : Text → RosterFile Text

-- `RosterSyncEndpointKey`
unfoldable pub roster_sync_endpoint_key : (ℕ → ℕ) → Name → Int64 → Name
roster_sync_endpoint_key lower host port =
    trim_space (lower_case lower host) ++ (b':' ∷ decimal (normalize_upload_port port))

abbrev pub normalized_data : TrustedData → TrustedData
normalized_data v = record v { sha256 = normalize_fingerprint_list v.sha256 }

abbrev pub normalize_all : Endpoints → Endpoints
normalize_all [] = []
normalize_all (p ∷ ps) = (p.0, normalized_data p.1) ∷ normalize_all ps

-- "upload.aviationwx.org", the host of `DefaultUploadEndpoint`
abbrev pub default_host : Name
default_host =
    b'u' ∷ b'p' ∷ b'l' ∷ b'o' ∷ b'a' ∷ b'd' ∷ b'.' ∷ b'a' ∷ b'v' ∷ b'i' ∷ b'a' ∷ b't' ∷ b'i' ∷ b'o'
    ∷ b'n' ∷ b'w' ∷ b'x' ∷ b'.' ∷ b'o' ∷ b'r' ∷ b'g' ∷ []

-- the store of an old file, and whether it is a migrated one
abbrev pub migrated_store : (ℕ → ℕ) → TrustedData → List Name → Endpoints × Bool
migrated_store lower v1 [] = ([], false)
migrated_store lower v1 (fp ∷ fps) = (
  (
    roster_sync_endpoint_key lower default_host (pos 2222),
    record {
      host = default_host;
      port = pos 2222;
      sha256 = fp ∷ fps;
      updated_at = v1.updated_at;
      source = v1.source;
    },
  )
      ∷ [],
  true,
)

abbrev pub old_store : (ℕ → ℕ) → Option TrustedData → Option (Endpoints × Bool)
old_store lower none = none
old_store lower (some v1) = some (migrated_store lower v1 (normalize_fingerprint_list v1.sha256))

abbrev pub old_format : (ℕ → ℕ) → Option TrustedData → List Name → Option (Endpoints × Bool)
old_format lower v1 [] = some ([], false)
old_format lower v1 (fp ∷ fps) = old_store lower v1

abbrev pub current_format :
    Bool → Option Endpoints → Option (Endpoints × Bool) → Option (Endpoints × Bool)
current_format true none old = old
current_format true (some ps) old = some (normalize_all ps, false)
current_format false ps old = old

module _ {Text : Type 0} (lower : ℕ → ℕ) (json : Json Text) where
  abbrev pub parse_probe : Text → Option Probe → Option (Endpoints × Bool)
  parse_probe text none = none
  parse_probe text (some p) =
      current_format (leb 2 p.version) p.endpoints (old_format lower (json.single text) p.sha256)

  -- `parseTrustedHostKeysFile`
  unfoldable pub parse_trusted_host_keys_file : Text → Option (Endpoints × Bool)
  parse_trusted_host_keys_file text = parse_probe text (json.probe text)

  -- `writeTrustedHostKeysStoreUnlocked`; the flag is whether the disk takes the file
  abbrev pub write_store : Bool → Endpoints → RosterFile Text → RosterFile Text × Bool
  write_store true ps file = (holds (json.print ps), true)
  write_store false ps file = (file, false)

  abbrev pub when_written : Endpoints → RosterFile Text × Bool → RosterFile Text × Option Endpoints
  when_written ps (file, true) = (file, some ps)
  when_written ps (file, false) = (file, none)

  -- the file of an old version is written again
  abbrev pub after_parse :
      Bool → RosterFile Text → Option (Endpoints × Bool) → RosterFile Text × Option Endpoints
  after_parse ok file none = (file, none)
  after_parse ok file (some (ps, false)) = (file, some ps)
  after_parse ok file (some (ps, true)) = when_written ps (write_store ok ps file)

  -- `loadTrustedHostKeysStoreUnlocked`
  unfoldable pub load_store : Bool → RosterFile Text → RosterFile Text × Option Endpoints
  load_store ok absent = (absent, some [])
  load_store ok broken = (broken, none)
  load_store ok (holds text) = after_parse ok (holds text) (parse_trusted_host_keys_file text)

  -- `trustedFileDataFromStore`, and the fingerprints that it leads to
  abbrev pub fingerprints_of : Option TrustedData → List Name
  fingerprints_of none = []
  fingerprints_of (some ep) = normalize_fingerprint_list ep.sha256

  -- `LoadTrustedUploadHostKeysForEndpoint`
  abbrev pub read_endpoint : Name → Option Endpoints → Option (List Name)
  read_endpoint key none = none
  read_endpoint key (some ps) = some (fingerprints_of (find key ps))

  unfoldable pub load_trusted : Bool → Name → Int64 → RosterFile Text → Option (List Name)
  load_trusted ok host port file =
      read_endpoint (roster_sync_endpoint_key lower host port) (load_store ok file).1

  abbrev pub store_endpoint :
      Bool → Name → TrustedData → RosterFile Text × Option Endpoints → RosterFile Text × Bool
  store_endpoint ok key ep (file, none) = (file, false)
  store_endpoint ok key ep (file, some ps) = write_store ok (store key ep ps) file

  abbrev pub write_list :
      Instant
      → Bool
      → Bool
      → Name
      → Int64
      → Name
      → List Name
      → RosterFile Text
      → RosterFile Text × Bool
  write_list now load_ok ok host port source [] file = (file, true)
  write_list now load_ok ok host port source (fp ∷ fps) file =
      let key = roster_sync_endpoint_key lower host port in
      store_endpoint ok key
        (record {
          host = host;
          port = pos (normalize_upload_port port);
          sha256 = fp ∷ fps;
          updated_at = now;
          source = source;
        })
        (load_store load_ok file)

  -- `writeTrustedHostKeysForEndpointLocked`
  unfoldable pub write_trusted :
      Instant
      → Bool
      → Bool
      → Name
      → Int64
      → List Name
      → Name
      → RosterFile Text
      → RosterFile Text × Bool
  write_trusted now load_ok ok host0 port fps source file =
      let host = trim_space (lower_case lower host0) in
      let written =
        write_list now load_ok ok host port source (normalize_fingerprint_list fps) file in
      if name_eq host [] then (file, false) else written
