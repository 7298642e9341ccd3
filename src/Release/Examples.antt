-- ===== src/Release/Examples.antt =====
-- Checks for releases at concrete versions.
use aviationwx_bridge.Prelude.{Instant, List, [], false, refl, true, ◌∷◌, ◌≡◌}
use aviationwx_bridge.Queue.Names.{Name}
use aviationwx_bridge.Release.Checker.{
  Answer, check_now, compare_parts, compare_versions, is_newer_version, new_checker, no_answer,
  not_found, parse_loop, parse_version, release, set_error, set_result, shifted,
}
use aviationwx_bridge.Release.Checker.Order.{run_checks}

abbrev current : Name
current = b'v' ∷ b'2' ∷ b'.' ∷ b'9' ∷ b'.' ∷ b'1' ∷ []

abbrev tag : Name
tag = b'v' ∷ b'2' ∷ b'.' ∷ b'1' ∷ b'0' ∷ b'.' ∷ b'0' ∷ b'-' ∷ b'r' ∷ b'c' ∷ []

abbrev page : Name
page = b'p' ∷ []

abbrev answers : List (Instant × Answer)
answers = (1, not_found) ∷ (2, release tag page) ∷ (3, no_answer) ∷ []

newer_tag : is_newer_version current tag ≡ true
unfolding is_newer_version compare_versions compare_parts shifted parse_version parse_loop
newer_tag = refl

older_tag : is_newer_version tag current ≡ false
unfolding is_newer_version compare_versions compare_parts shifted parse_version parse_loop
older_tag = refl

offered : (run_checks answers (new_checker current)).update_avail ≡ true
unfolding is_newer_version compare_versions compare_parts shifted parse_version parse_loop
    run_checks check_now set_result set_error new_checker
offered = refl
