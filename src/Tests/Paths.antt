-- ===== src/Tests/Paths.antt =====
-- Runs of crates/dlp-storage/src/path.rs.
use wdlp.Base.{◌≡◌, ◌↔◌, refl, [], ◌∷◌, map}
use wdlp.Base.Bytes.{Bytes, codes, starts_with, bytes_eq}
use wdlp.Base.Results.{ok}
use wdlp.Storage.Path.{
  is_device_or_unc, drop_empty, split, valid_component, has_control, stem, VirtualPath, parse,
  to_ascii_lowercase, lookup_of,
}
use wdlp.Storage.Path.Keys.{lookup-eq_iff}
use wdlp.Storage.Path.Safe.{IsSafePath, parse-IsSafePath}

abbrev doubled : Bytes
doubled = codes "Docs//Q1\\a.txt"

abbrev single : Bytes
single = codes "docs/q1/A.TXT"

abbrev parsed : VirtualPath
parsed = record {
  display = codes "Docs" ∷ codes "Q1" ∷ codes "a.txt" ∷ [];
  lookup = codes "docs/q1/a.txt";
}

abbrev parsed_single : VirtualPath
parsed_single = record {
  display = codes "docs" ∷ codes "q1" ∷ codes "A.TXT" ∷ [];
  lookup = codes "docs/q1/a.txt";
}

doubled_parses : parse doubled ≡ ok parsed
unfolding parse starts_with bytes_eq is_device_or_unc drop_empty split valid_component has_control
    stem lookup_of
doubled_parses = refl

single_parses : parse single ≡ ok parsed_single
unfolding parse starts_with bytes_eq is_device_or_unc drop_empty split valid_component has_control
    stem lookup_of
single_parses = refl

parse-IsSafePath_example : IsSafePath doubled parsed
parse-IsSafePath_example = parse-IsSafePath doubled doubled_parses

lookup-eq_iff_example :
    (parsed.lookup ≡ parsed_single.lookup)
    ↔ (map to_ascii_lowercase parsed.display ≡ map to_ascii_lowercase parsed_single.display)
lookup-eq_iff_example = lookup-eq_iff doubled single doubled_parses single_parses
