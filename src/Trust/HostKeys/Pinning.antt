-- ===== src/Trust/HostKeys/Pinning.antt =====
-- Which key a check accepts, and that it is pinned from then on.
use aviationwx_bridge.Prelude.{List, [], true, ◌++◌, ◌∷◌, ◌≡◌, ◌⊎◌}
use aviationwx_bridge.Queue.Names.{Name}
use aviationwx_bridge.Config.Upload.{trim_space}
use aviationwx_bridge.Trust.HostKeys.{
  Key, KnownLine, Lookup, Outcome, VerifyEnv, accepted, cut, file_error, in_trusted, is_empty,
  lookup_lines, mismatch, missing, no_label, not_in_roster, pinned, unparsable,
}

-- a label with no space around it, as `knownHostLabel` gives it
abbrev pub IsTrimmed : Name → Type 0
IsTrimmed label = trim_space label ≡ label

-- why a key may be accepted, by what the file said of the host
abbrev pub IsJustified : VerifyEnv → Name → Key → Lookup → Type 0
IsJustified env fp key missing =
    (in_trusted fp env.roster ≡ true)
    ⊎ ((in_trusted fp env.roster_after ≡ true) ⊎ (is_empty env.roster_after ≡ true))
IsJustified env fp key unparsable = ⊥
IsJustified env fp key (pinned stored) =
    (stored ≡ key)
    ⊎ ((in_trusted fp env.roster ≡ true)
        ⊎ ((env.fetched ≡ true) × (in_trusted fp env.roster_after ≡ true)))

-- the file after an error: as it was or as others left it, or with the part of a line that an append left
abbrev pub AfterError : VerifyEnv → List KnownLine → List KnownLine → Type 0
AfterError env lines ls =
    ((ls ≡ lines) ⊎ (ls ≡ env.lines_after))
    ⊎ ((part : KnownLine) × (env.append ≡ cut part)
        × ((ls ≡ lines ++ (part ∷ [])) ⊎ (ls ≡ env.lines_after ++ (part ∷ []))))

-- the file afterwards, and the reason for an acceptance
abbrev pub AfterVerify : VerifyEnv → Name → Key → List KnownLine → Type 0 → Outcome → Type 0
AfterVerify env label key lines Why (ls, accepted) = (lookup_lines label ls ≡ pinned key) × Why
AfterVerify env label key lines Why (ls, no_label) = ls ≡ lines
AfterVerify env label key lines Why (ls, not_in_roster) = (ls ≡ lines) ⊎ (ls ≡ env.lines_after)
AfterVerify env label key lines Why (ls, mismatch) = (ls ≡ lines) ⊎ (ls ≡ env.lines_after)
AfterVerify env label key lines Why (ls, file_error) = AfterError env lines ls
