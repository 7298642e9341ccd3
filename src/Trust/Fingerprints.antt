-- ===== src/Trust/Fingerprints.antt =====
-- `normalizeFingerprint` and `normalizeFingerprintList` of internal/update/trusted_hostkeys.go. A
-- fingerprint is a text of ASCII characters.
pub mod Normal
use aviationwx_bridge.Prelude.{
  Bool, List, Option, [], false, if◌then◌else◌, leb, length, none, some, suc, zero, ℕ, ◌&&◌, ◌++◌,
  ◌-◌, ◌==◌, ◌||◌, ◌∷◌,
}
use aviationwx_bridge.Queue.Names.{Name, name_eq}
use aviationwx_bridge.Config.Upload.{trim_space}

-- strings.ToUpper on one character
abbrev pub upper : ℕ → ℕ
upper c = if leb b'a' c && leb c b'z' then c - 32 else c

-- "SHA256:"
abbrev pub sha256_prefix : Name
sha256_prefix = b'S' ∷ b'H' ∷ b'A' ∷ b'2' ∷ b'5' ∷ b'6' ∷ b':' ∷ []

-- the rest of a text that begins with a prefix, in upper or lower case
abbrev pub after_prefix : Name → Name → Option Name
after_prefix [] s = some s
after_prefix (p ∷ ps) [] = none
after_prefix (p ∷ ps) (c ∷ s) = let rest = after_prefix ps s in if upper c == p then rest else none

-- the loop of `normalizeFingerprint`, with fuel
unfoldable pub prefix_loop : ℕ → Name → Name
prefix_loop zero fp = fp
prefix_loop (suc fuel) fp = elim (after_prefix sha256_prefix fp) [
  | none ↦ fp
  | some rest ↦ prefix_loop fuel (trim_space rest)
]

abbrev pub with_prefix : Name → Name
with_prefix [] = []
with_prefix (c ∷ s) = sha256_prefix ++ (c ∷ s)

-- `normalizeFingerprint`
unfoldable pub normalize_fingerprint : Name → Name
normalize_fingerprint fp =
    let trimmed = trim_space fp in with_prefix (prefix_loop (length trimmed) trimmed)

abbrev pub is_in : Name → List Name → Bool
is_in fp [] = false
is_in fp (s ∷ seen) = name_eq s fp || is_in fp seen

-- the loop of `normalizeFingerprintList`
unfoldable pub normalize_loop : List Name → List Name → List Name
normalize_loop seen [] = []
normalize_loop seen (fp0 ∷ fps) =
    let fp = normalize_fingerprint fp0 in
    let rest = normalize_loop seen fps in
    let kept = normalize_loop (fp ∷ seen) fps in
    if name_eq fp [] then rest else if is_in fp seen then rest else fp ∷ kept

-- `normalizeFingerprintList`
abbrev pub normalize_fingerprint_list : List Name → List Name
normalize_fingerprint_list fps = normalize_loop [] fps
