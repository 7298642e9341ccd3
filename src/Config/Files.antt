-- ===== src/Config/Files.antt =====
-- The files of internal/config: `containedConfigPath` of config_file_id.go, `copyFile` and the body of
-- `saveCameraFile` of service.go. A directory is the list of its entries in the order of their names, as
-- `os.ReadDir` gives it; a path is the name in that directory. `J` is what a file can hold. What the
-- disk answers is the environment's, with `not_opened` for the path of a directory; a write that fails may leave anything in the file that it opened.
pub mod Laws
pub mod Agreement
use aviationwx_bridge.Prelude.{
  Bool, List, Option, [], false, if◌then◌else◌, none, not, some, true, ℕ, ◌++◌, ◌==◌, ◌||◌, ◌∷◌,
}
use aviationwx_bridge.Queue.Names.{Name, is_some, name_eq, name_lt}
use aviationwx_bridge.Scheduler.Upload.Transfer.{contains_text, has_prefix}
use aviationwx_bridge.Config.Ids.{all_id_bytes, validate_config_file_id}

-- ".json" and ".bak"
abbrev pub json : Name
json = b'.' ∷ b'j' ∷ b's' ∷ b'o' ∷ b'n' ∷ []

abbrev pub bak : Name
bak = b'.' ∷ b'b' ∷ b'a' ∷ b'k' ∷ []

-- filepath.Ext of a name without slashes: from the last dot on
abbrev pub ext_or : ℕ → Name → Name → Name
ext_or c s [] = if c == b'.' then c ∷ s else []
ext_or c s (d ∷ e) = d ∷ e

unfoldable pub ext : Name → Name
ext [] = []
ext (c ∷ s) = ext_or c s (ext s)

-- what the path functions of the library answer
pub record Paths : Type 0 where
  pub is_local : Name → Bool
  pub abs_ok : Bool

-- `containedConfigPath`: the name of the file in its directory, which is also the path from the
-- absolute directory to the absolute file; none is the error
unfoldable pub contained_config_path : Paths → Name → Option Name
contained_config_path paths id =
    let file = id ++ json in
    if not (validate_config_file_id paths.is_local id)
    then none
    else if contains_text (b'/' ∷ []) id
        || contains_text (92 ∷ []) id
        || contains_text (b'.' ∷ b'.' ∷ []) id
    then none
    else if not (paths.is_local id)
    then none
    else if name_eq id [] || not (all_id_bytes id)
    then none
    else if not paths.abs_ok
    then none
    else if has_prefix (b'.' ∷ b'.' ∷ []) file || contains_text (b'/' ∷ b'.' ∷ b'.' ∷ []) file
    then none
    else some file

pub data WriteAnswer (J : Type 0) : Type 0 where
  written not_opened : WriteAnswer J
  cut_short : J → WriteAnswer J

pub record File (J : Type 0) : Type 0 where
  pub name : Name
  pub is_dir : Bool
  pub content : J

abbrev pub Files : Type 0 → Type 0
Files J = List (File J)

pub record SaveEnv (J : Type 0) : Type 0 where
  pub backup : WriteAnswer J
  pub write : WriteAnswer J

module _ {J : Type 0} where
  abbrev pub find_file : Name → Files J → Option J
  find_file n [] = none
  find_file n (f ∷ fs) =
      let rest = find_file n fs in if name_eq f.name n then some f.content else rest

  abbrev pub drop_file : Name → Files J → Files J
  drop_file n [] = []
  drop_file n (f ∷ fs) = let rest = drop_file n fs in if name_eq f.name n then rest else f ∷ rest

  -- os.Remove, where a file that is not there is no error
  unfoldable pub remove_file : Bool → Name → Files J → Files J × Bool
  remove_file can_remove n fs =
      if is_some (find_file n fs)
      then if can_remove then (drop_file n fs, true) else (fs, false)
      else (fs, true)

  -- in the order of the names
  abbrev pub insert_file : File J → Files J → Files J
  insert_file new [] = new ∷ []
  insert_file new (f ∷ fs) =
      let rest = insert_file new fs in if name_lt new.name f.name then new ∷ f ∷ fs else f ∷ rest

  -- a file that is new or replaces the one of its name
  abbrev pub put_file : Name → J → Files J → Files J
  put_file n c fs =
      let new : File J = record { name = n; is_dir = false; content = c } in
      insert_file new (drop_file n fs)

  -- os.WriteFile, with whether it succeeds
  unfoldable pub write_file : WriteAnswer J → Name → J → Files J → Files J × Bool
  write_file written n c fs = (put_file n c fs, true)
  write_file not_opened n c fs = (fs, false)
  write_file (cut_short part) n c fs = (put_file n part fs, false)

  -- the backup of a file that is there
  unfoldable pub back_up : WriteAnswer J → Name → Files J → Files J
  back_up answer path fs = elim (find_file path fs) [
    | none ↦ fs
    | some old ↦ (write_file answer (path ++ bak) old fs).0
  ]

  -- `saveCameraFile` and `saveStationFile` from the path and the text on
  unfoldable pub save_text : SaveEnv J → Name → Option J → Files J → Files J × Bool
  save_text env path text fs =
      let backed_up = back_up env.backup path fs in
      elim text [ none ↦ (backed_up, false) | some c ↦ write_file env.write path c backed_up ]

  unfoldable pub save_at : SaveEnv J → Option Name → Option J → Files J → Files J × Bool
  save_at env none text fs = (fs, false)
  save_at env (some path) text fs = save_text env path text fs

  -- an entry that the loops of `reload` and `loadStationsLocked` read
  abbrev pub is_config_file : File J → Bool
  is_config_file f = if f.is_dir then false else name_eq (ext f.name) json
