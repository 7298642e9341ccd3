-- ===== src/Trust/Roster/RoundTrip.antt =====
-- What is read after a roster was written.
use aviationwx_bridge.Prelude.{
  Bool, Bool-cases, Instant, List, Option, [], ap, false, inl, inr, none, refl, some, sym, true, ℕ,
  ◌∙◌, ◌∷◌, ◌≡◌,
}
use aviationwx_bridge.Queue.Names.{Int64, Name, name_eq, pos}
use aviationwx_bridge.Queue.Names.Table.{find, find-store_other, find-store_self, store}
use aviationwx_bridge.Config.Upload.{is_space, lower_case, normalize_upload_port, trim_space}
use aviationwx_bridge.Trust.Fingerprints.{normalize_fingerprint_list}
use aviationwx_bridge.Trust.Fingerprints.Normal.{normalize_list-normalize_list}
use aviationwx_bridge.Trust.Roster.{
  Endpoints, Json, RosterFile, TrustedData, fingerprints_of, holds, load_store, load_trusted,
  normalize_all, normalized_data, parse_trusted_host_keys_file, read_endpoint,
  roster_sync_endpoint_key, store_endpoint, write_trusted,
}
use aviationwx_bridge.Trust.Roster.Hosts.{host_twice}

-- what the normalizing of a store makes of an entry
abbrev normalized_found : Option TrustedData → Option TrustedData
normalized_found none = none
normalized_found (some v) = some (normalized_data v)

find-normalize_all :
    (key : Name) (ps : Endpoints) → find key (normalize_all ps) ≡ normalized_found (find key ps)
find-normalize_all key [] = refl
find-normalize_all key (p ∷ ps) = elim (Bool-cases (name_eq p.0 key)) [
  | inl e ↦ rw e refl
  | inr e ↦ rw e (find-normalize_all key ps)
]

module _ {Text : Type 0} (lower : ℕ → ℕ) (json : Json Text)
    (json_read : (ps : Endpoints)
      → json.probe (json.print ps)
        ≡ some (record { version = 2; endpoints = some ps; sha256 = [] })) where
  load_written :
      (ok : Bool) (ps : Endpoints)
      → load_store lower json ok (holds (json.print ps))
        ≡ (holds (json.print ps), some (normalize_all ps))
  unfolding load_store parse_trusted_host_keys_file
  load_written ok ps = rw (json_read ps) refl

  read_normalized :
      (found : Option TrustedData)
      → fingerprints_of lower json (normalized_found found) ≡ fingerprints_of lower json found
  read_normalized none = refl
  read_normalized (some ep) = normalize_list-normalize_list ep.sha256

  -- what is read of a file that was written
  read_written :
      (ok : Bool) (host : Name) (port : Int64) (ps : Endpoints)
      → load_trusted lower json ok host port (holds (json.print ps))
        ≡ some (fingerprints_of lower json (find (roster_sync_endpoint_key lower host port) ps))
  unfolding load_trusted
  read_written ok host port ps =
      let key = roster_sync_endpoint_key lower host port in
      rw (load_written ok ps, find-normalize_all key ps) (ap some (read_normalized (find key ps)))

  store_written :
      (key : Name) (ep : TrustedData) (ps : Endpoints) (r : RosterFile Text × Option Endpoints)
      → r.1 ≡ some ps
      → store_endpoint lower json true key ep r ≡ (holds (json.print (store key ep ps)), true)
  store_written key ep ps (file, none) h = absurd (cc h)
  store_written key ep ps (file, some qs) h =
      let same : qs ≡ ps = cc h in ap (λ t. (holds (json.print (store key ep t)), true)) same

  module _ (now : Instant) (load_ok : Bool) (host : Name) (port : Int64) (source : Name)
      (file : RosterFile Text) (lower_lower : (c : ℕ) → lower (lower c) ≡ lower c)
      (lower_space : (c : ℕ) → is_space (lower c) ≡ is_space c) where
    -- the entry that is written
    abbrev pub entry : List Name → TrustedData
    entry fps = record {
      host = trim_space (lower_case lower host);
      port = pos (normalize_upload_port port);
      sha256 = fps;
      updated_at = now;
      source = source;
    }

    write_trusted_stores :
        (fps : List Name) (fp : Name) (kept : List Name) (ps : Endpoints)
        → name_eq (trim_space (lower_case lower host)) [] ≡ false
        → (load_store lower json load_ok file).1 ≡ some ps
        → normalize_fingerprint_list fps ≡ fp ∷ kept
        → write_trusted lower json now load_ok true host port fps source file ≡ (
          holds (
              json.print (store (roster_sync_endpoint_key lower host port) (entry (fp ∷ kept)) ps)),
          true,
        )
    unfolding write_trusted roster_sync_endpoint_key
    write_trusted_stores fps fp kept ps h l e =
        rw (e, h, host_twice lower lower_space lower_lower host)
          (store_written (roster_sync_endpoint_key lower host port) (entry (fp ∷ kept)) ps
            (load_store lower json load_ok file) l)

    read_own :
        (fps : List Name) (fp : Name) (kept : List Name) (ps : Endpoints) (ok : Bool)
        → normalize_fingerprint_list fps ≡ fp ∷ kept
        → load_trusted lower json ok host port (
            holds (
              json.print (store (roster_sync_endpoint_key lower host port) (entry (fp ∷ kept)) ps)))
          ≡ some (fp ∷ kept)
    read_own fps fp kept ps ok e =
        let key = roster_sync_endpoint_key lower host port in
        read_written ok host port (store key (entry (fp ∷ kept)) ps)
        ∙ ap (λ f. some (fingerprints_of lower json f)) (find-store_self key (entry (fp ∷ kept)) ps)
        ∙ ap some (ap normalize_fingerprint_list (sym e) ∙ normalize_list-normalize_list fps ∙ e)

    read_other :
        (fps : List Name) (ps : Endpoints) (ok : Bool) (other : Name) (other_port : Int64)
        → (load_store lower json load_ok file).1 ≡ some ps
        → name_eq
            (roster_sync_endpoint_key lower host port)
            (roster_sync_endpoint_key lower other other_port)
          ≡ false
        → load_trusted lower json ok other other_port
            (holds (json.print (store (roster_sync_endpoint_key lower host port) (entry fps) ps)))
          ≡ load_trusted lower json load_ok other other_port file
    unfolding load_trusted
    read_other fps ps ok other other_port l d =
        let key = roster_sync_endpoint_key lower host port in
        let other_key = roster_sync_endpoint_key lower other other_port in
        read_written ok other other_port (store key (entry fps) ps)
        ∙ ap (λ f. some (fingerprints_of lower json f))
            (find-store_other key other_key (entry fps) ps d)
        ∙ ap (read_endpoint lower json other_key) (sym l)

    -- Where the old file can be read and the new one written, and what JSON prints it reads back, the
    -- fingerprints that are written for a host, if any is left of them in normal form, are those that
    -- are read for that host and port afterwards, in normal form, and every other endpoint reads what it
    -- did before. Lower case is that of its own lower case, and keeps what is a space.
    pub write_trusted_lem :
        (fps : List Name) (fp : Name) (kept : List Name) (ps : Endpoints) (ok : Bool)
        → name_eq (trim_space (lower_case lower host)) [] ≡ false
        → (load_store lower json load_ok file).1 ≡ some ps
        → normalize_fingerprint_list fps ≡ fp ∷ kept
        → let r = write_trusted lower json now load_ok true host port fps source file in
          (r.1 ≡ true)
          × (load_trusted lower json ok host port r.0 ≡ some (fp ∷ kept))
          × ((other : Name) (other_port : Int64)
              → name_eq
                  (roster_sync_endpoint_key lower host port)
                  (roster_sync_endpoint_key lower other other_port)
                ≡ false
              → load_trusted lower json ok other other_port r.0
                ≡ load_trusted lower json load_ok other other_port file)
    write_trusted_lem fps fp kept ps ok h l e =
        let written = write_trusted_stores fps fp kept ps h l e in
        rw written (
          refl,
          read_own fps fp kept ps ok e,
          λ other other_port d. read_other (fp ∷ kept) ps ok other other_port l d,
        )
