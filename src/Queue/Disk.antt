-- ===== src/Queue/Disk.antt =====
-- The directory of a queue and what the program asks of the operating system: `os.ReadDir`,
-- `os.Remove`, `os.Stat`, the free space, and `listFilesSortedLocked` of internal/queue/queue.go.
-- Only the queue changes the directory; whether a call fails is the environment's choice. Whether
-- `entry.Info` succeeds is an answer for each file, the same at every listing; it does for the files that
-- the queue writes. `os.Stat` finds a name or answers that it does not exist.
pub mod Laws
pub mod Listing
use aviationwx_bridge.Prelude.{
  Bool, List, Option, [], false, if◌then◌else◌, none, not, some, ℕ, ◌+◌, ◌||◌, ◌∷◌,
}
use aviationwx_bridge.Queue.Names.{
  Name, has_suffix, is_some, jpg, name_eq, name_lt, parse_int, tmp, trim_suffix,
}

pub record Entry : Type 0 where
  pub name : Name
  pub size : ℕ
  pub is_dir : Bool
  pub has_info : Bool

abbrev pub Dir : Type 0
Dir = List Entry

-- `can_read`: `os.ReadDir` succeeds; `can_remove`: `os.Remove` of an existing file succeeds;
-- `free`: the free bytes by the files that are there, `none` if `Statfs` fails.
pub record Os : Type 0 where
  pub can_read : Bool
  pub can_remove : Name → Bool
  pub free : Dir → Option ℕ

abbrev pub lookup : Name → Dir → Option Entry
lookup n [] = none
lookup n (e ∷ dir) = if name_eq e.name n then some e else lookup n dir

abbrev pub without : Name → Dir → Dir
without n [] = []
without n (e ∷ dir) = let rest = without n dir in if name_eq e.name n then rest else e ∷ rest

-- `os.Stat` finds the name
abbrev pub exists : Name → Dir → Bool
exists n dir = is_some (lookup n dir)

pub data Removed : Type 0 where
  removed not_exist failed : Removed

unfoldable pub remove : Os → Name → Dir → Dir × Removed
remove os n dir =
    if exists n dir
    then if os.can_remove n then (without n dir, removed) else (dir, failed)
    else (dir, not_exist)

-- the tests of `listFilesSortedLocked` on one entry
unfoldable pub is_image : Entry → Bool
is_image e =
    if e.is_dir
    then false
    else if not (has_suffix jpg e.name) || has_suffix tmp e.name
    then false
    else if not (is_some (parse_int (trim_suffix jpg e.name)))
    then false
    else e.has_info

abbrev pub images : Dir → List Entry
images [] = []
images (e ∷ dir) = let rest = images dir in if is_image e then e ∷ rest else rest

-- `sort.Slice` by name; names in a directory are distinct, so every sort gives this list
abbrev pub insert_by_name : Entry → List Entry → List Entry
insert_by_name e [] = e ∷ []
insert_by_name e (f ∷ fs) =
    let rest = insert_by_name e fs in if name_lt f.name e.name then f ∷ rest else e ∷ f ∷ fs

abbrev pub sort_by_name : List Entry → List Entry
sort_by_name [] = []
sort_by_name (e ∷ es) = insert_by_name e (sort_by_name es)

-- `listFilesSortedLocked`; `none` is its error
unfoldable pub list_files_sorted : Os → Dir → Option (List Entry)
list_files_sorted os dir = if os.can_read then some (sort_by_name (images dir)) else none

abbrev pub total : List Entry → ℕ
total [] = 0
total (e ∷ es) = e.size + total es
