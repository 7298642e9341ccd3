-- ===== src/Config/Examples.antt =====
-- The theorem about ids at a concrete input, and a test.
use aviationwx_bridge.Prelude.{
  Bool, [], arith, false, if◌then◌else◌, leb, length, refl, true, ℕ, ◌&&◌, ◌+◌, ◌<◌, ◌∷◌, ◌≡◌,
}
use aviationwx_bridge.Queue.Names.{Name, decimal, decimal_fuel, name_eq}
use aviationwx_bridge.Config.Ids.{
  allocate_loop, allocate_unique_id, base_or, candidate, is_id_byte, slug_id_from_name, slug_parts,
  validate_config_file_id,
}
use aviationwx_bridge.Config.Ids.Safe.{IsFree, IsId, allocate_unique_id_lem}

-- the lower case of an ASCII character
abbrev ascii_lower : ℕ → ℕ
ascii_lower c = if leb b'A' c && leb c b'Z' then c + 32 else c

-- "camera" and " North  Cam!"
abbrev camera : Name
camera = b'c' ∷ b'a' ∷ b'm' ∷ b'e' ∷ b'r' ∷ b'a' ∷ []

abbrev north_cam : Name
north_cam = 32 ∷ b'N' ∷ b'o' ∷ 32 ∷ 32 ∷ b'C' ∷ b'!' ∷ []

-- "no-c" is taken
abbrev taken_names : Name → Bool
taken_names id = name_eq id (b'n' ∷ b'o' ∷ b'-' ∷ b'c' ∷ [])

-- a stand-in for the library: a name without slashes that does not begin with a dot
abbrev plain_local : Name → Bool
plain_local [] = false
plain_local (c ∷ s) = is_id_byte c

plain_local_lem : (s : Name) → 0 < length s → IsId s → plain_local s ≡ true
plain_local_lem [] n h = absurd (omega arith)
plain_local_lem (c ∷ s) n h = h.0

second_candidate :
    allocate_unique_id ascii_lower camera taken_names north_cam
    ≡ b'n' ∷ b'o' ∷ b'-' ∷ b'c' ∷ b'-' ∷ b'2' ∷ []
unfolding allocate_unique_id allocate_loop candidate slug_id_from_name slug_parts decimal
    decimal_fuel
second_candidate = refl

allocate_unique_id_lem_example :
    let id = allocate_unique_id ascii_lower camera taken_names north_cam in
    (validate_config_file_id plain_local id ≡ true)
    × IsFree taken_names (base_or camera (slug_id_from_name ascii_lower north_cam)) 1000 0 id
allocate_unique_id_lem_example =
    allocate_unique_id_lem plain_local ascii_lower camera taken_names north_cam plain_local_lem
      (omega arith) (refl, (refl, (refl, (refl, (refl, (refl, tt))))))
