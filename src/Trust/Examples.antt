-- ===== src/Trust/Examples.antt =====
-- Checks of host keys at concrete files and rosters.
use aviationwx_bridge.Prelude.{List, [], false, refl, true, ◌++◌, ◌∷◌, ◌≡◌}
use aviationwx_bridge.Queue.Names.{Name, decimal}
use aviationwx_bridge.Config.Upload.{trim_space}
use aviationwx_bridge.Trust.HostKeys.{
  Key, KnownLine, VerifyEnv, accepted, known_host_label, known_line, lookup_lines, mismatch,
  other_lines, verify, whole,
}

abbrev host : Name
host = b'u' ∷ b'p' ∷ b'.' ∷ b'e' ∷ b'x' ∷ b'a' ∷ b'm' ∷ b'p' ∷ b'l' ∷ b'e' ∷ []

abbrev other_host : Name
other_host = b'o' ∷ b'l' ∷ b'd' ∷ b'.' ∷ b'e' ∷ b'x' ∷ b'a' ∷ b'm' ∷ b'p' ∷ b'l' ∷ b'e' ∷ []

abbrev old_key : Key
old_key = b'o' ∷ b'l' ∷ b'd' ∷ []

abbrev new_key : Key
new_key = b'n' ∷ b'e' ∷ b'w' ∷ []

abbrev print : Key → Name
print key = b'S' ∷ b'H' ∷ b'A' ∷ b'2' ∷ b'5' ∷ b'6' ∷ b':' ∷ [] ++ key

-- a file with the old key of the host, and another host
abbrev file : List KnownLine
file =
    known_line (known_host_label other_host 22) new_key
    ∷ known_line (known_host_label host 2222) old_key
    ∷ []

abbrev env_with : List Name → VerifyEnv
env_with roster = record {
  readable = true;
  roster = roster;
  fetched = false;
  roster_after = roster;
  lines_after = file;
  readable_after = true;
  append = whole;
  write_ok = true;
}

abbrev label : Name
label = known_host_label host 2222

-- a key that changed is refused without a roster, and replaced with one that lists it
refused : verify print (env_with []) label new_key file ≡ (file, mismatch)
unfolding verify known_host_label trim_space lookup_lines decimal other_lines
refused = refl

rotated : verify print (env_with (print new_key ∷ [])) label new_key file ≡ (
  known_line (known_host_label other_host 22) new_key ∷ known_line label new_key ∷ [],
  accepted,
)
unfolding verify known_host_label trim_space lookup_lines decimal other_lines
rotated = refl

-- a host that is not in the file is pinned
first :
    verify print (record (env_with []) { lines_after = [] }) label new_key []
    ≡ (known_line label new_key ∷ [], accepted)
unfolding verify known_host_label trim_space lookup_lines decimal other_lines
first = refl
