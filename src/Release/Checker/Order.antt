-- ===== src/Release/Checker/Order.antt =====
-- The order of versions.
use aviationwx_bridge.Prelude.{
  Bool, Instant, List, Option, [], false, none, some, ℕ, ◌<◌, ◌∷◌, ◌≡◌, ◌⊎◌,
}
use aviationwx_bridge.Queue.Names.{Name}
use aviationwx_bridge.Release.Checker.{
  Answer, Checker, Comparison, Version, check_now, is_newer_version, newer, no_answer, not_found,
  older, parse_version, release, same, shifted, strip_v,
}

abbrev pub IsLess : ℕ → ℕ → Type 0
IsLess a b = shifted a < shifted b

abbrev pub IsEqual : ℕ → ℕ → Type 0
IsEqual a b = shifted a ≡ shifted b

-- lexicographic order on the three numbers
abbrev pub IsBelow : Version → Version → Type 0
IsBelow a b =
    IsLess a.major b.major
    ⊎ (IsEqual a.major b.major
        × (IsLess a.minor b.minor ⊎ (IsEqual a.minor b.minor × IsLess a.patch b.patch)))

-- what a comparison says of two versions
abbrev pub Says : Version → Version → Comparison → Type 0
Says a b newer = IsBelow b a
Says a b older = IsBelow a b
Says a b same = IsEqual a.major b.major × IsEqual a.minor b.minor × IsEqual a.patch b.patch

-- the version of a text, without its v
abbrev pub version_of : Name → Version
version_of s = parse_version (strip_v s)

unfoldable pub run_checks : List (Instant × Answer) → Checker → Checker
run_checks [] c = c
run_checks (a ∷ as') c = run_checks as' (check_now a.0 a.1 c)

-- the tag of the last answer that came, none if there was no release
abbrev pub latest_tag : List (Instant × Answer) → Option Name → Option Name
latest_tag [] found = found
latest_tag ((t, no_answer) ∷ as') found = latest_tag as' found
latest_tag ((t, not_found) ∷ as') found = latest_tag as' none
latest_tag ((t, release tag url) ∷ as') found = latest_tag as' (some tag)

-- what is offered for that tag
abbrev offers : Name → Option Name → Bool
offers current none = false
offers current (some tag) = is_newer_version current tag
