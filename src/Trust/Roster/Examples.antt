-- ===== src/Trust/Roster/Examples.antt =====
-- A roster at a concrete file, whose content is what JSON reads of it.
use aviationwx_bridge.Prelude.{
  Bool-cases, List, [], arith, false, if◌then◌else◌, inl, inr, none, refl, some, true, ℕ, ◌==◌, ◌∷◌,
  ◌≡◌,
}
use aviationwx_bridge.Queue.Names.{Int64, Name, decimal, name_eq, pos}
use aviationwx_bridge.Config.Upload.{is_space, normalize_upload_port, trim_space}
use aviationwx_bridge.Trust.Fingerprints.{
  normalize_fingerprint, normalize_fingerprint_list, normalize_loop, prefix_loop,
}
use aviationwx_bridge.Trust.Roster.{
  Json, Probe, RosterFile, absent, default_host, holds, load_store, load_trusted,
  parse_trusted_host_keys_file, roster_sync_endpoint_key, write_trusted,
}
use aviationwx_bridge.Trust.Roster.RoundTrip.{write_trusted_lem}

abbrev lower : ℕ → ℕ
lower c = if c == b'U' then b'u' else c

lower_lower : (c : ℕ) → lower (lower c) ≡ lower c
lower_lower c = elim (Bool-cases (c == b'U')) [ inl e ↦ rw e refl | inr e ↦ rw (e, e) refl ]

lower_space : (c : ℕ) → is_space (lower c) ≡ is_space c
lower_space c = elim (Bool-cases (c == b'U')) [
  | inl e ↦ let is_u : c ≡ b'U' = ground (arith, e) in rw is_u refl
  | inr e ↦ rw e refl
]

abbrev json : Json Probe
json = record {
  probe = λ p. some p;
  single = λ p. none;
  print = λ ps. record { version = 2; endpoints = some ps; sha256 = [] };
}

abbrev host : Name
host = b'U' ∷ b'p' ∷ []

abbrev fingerprints : List Name
fingerprints =
    (b's' ∷ b'h' ∷ b'a' ∷ b'2' ∷ b'5' ∷ b'6' ∷ b':' ∷ b'S' ∷ b'H' ∷ b'A' ∷ b'2' ∷ b'5' ∷ b'6' ∷ b':'
      ∷ 32 ∷ b'a' ∷ [])
    ∷ (32 ∷ b'a' ∷ [])
    ∷ (b'b' ∷ [])
    ∷ []

abbrev kept : List Name
kept =
    (b'S' ∷ b'H' ∷ b'A' ∷ b'2' ∷ b'5' ∷ b'6' ∷ b':' ∷ b'a' ∷ [])
    ∷ (b'S' ∷ b'H' ∷ b'A' ∷ b'2' ∷ b'5' ∷ b'6' ∷ b':' ∷ b'b' ∷ [])
    ∷ []

normal : normalize_fingerprint_list fingerprints ≡ kept
unfolding normalize_loop normalize_fingerprint prefix_loop trim_space
normal = refl

-- a file of the first version, which is migrated to the default endpoint if it can be written
abbrev json_old : Json Probe
json_old = record json {
  single = λ p.
      some (record { host = []; port = pos 0; sha256 = p.sha256; updated_at = 5; source = [] });
}

abbrev old : RosterFile Probe
old = holds (record { version = 1; endpoints = none; sha256 = fingerprints })

migrated : load_trusted lower json_old true default_host (pos 0) old ≡ some kept
unfolding load_trusted load_store parse_trusted_host_keys_file normalize_loop normalize_fingerprint
    prefix_loop trim_space roster_sync_endpoint_key decimal normalize_upload_port
migrated = refl

not_migrated : load_trusted lower json_old false default_host (pos 0) old ≡ none
unfolding load_trusted load_store parse_trusted_host_keys_file normalize_loop normalize_fingerprint
    prefix_loop trim_space
not_migrated = refl

write_trusted_lem_example :
    let r =
      write_trusted lower json 7 true true host
        (pos 0)
        fingerprints
        (b'w' ∷ b'e' ∷ b'b' ∷ [])
        absent in
    (r.1 ≡ true)
    × (load_trusted lower json true host (pos 0) r.0 ≡ some kept)
    × ((other : Name) (other_port : Int64)
        → name_eq
            (roster_sync_endpoint_key lower host (pos 0))
            (roster_sync_endpoint_key lower other other_port)
          ≡ false
        → load_trusted lower json true other other_port r.0
          ≡ load_trusted lower json true other other_port absent)
unfolding trim_space load_store
write_trusted_lem_example =
    write_trusted_lem lower json (λ ps. refl) 7 true host (pos 0) (b'w' ∷ b'e' ∷ b'b' ∷ []) absent
      lower_lower lower_space fingerprints
      (b'S' ∷ b'H' ∷ b'A' ∷ b'2' ∷ b'5' ∷ b'6' ∷ b':' ∷ b'a' ∷ [])
      ((b'S' ∷ b'H' ∷ b'A' ∷ b'2' ∷ b'5' ∷ b'6' ∷ b':' ∷ b'b' ∷ []) ∷ []) [] true refl refl normal
