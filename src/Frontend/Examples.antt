-- ===== src/Frontend/Examples.antt =====
-- A public directory with a page, and a resolution that leads out of it.
use nw_edit.Prelude.{
  String, Bool, not, any, ◌≡◌, refl, arith, eq_iff, true, false, ◌==◌, [], ◌∷◌, if◌then◌else◌,
}
use nw_edit.Frontend.{FilePath, Host, send_head}
use nw_edit.Frontend.Inside.{IsInside, send_head-IsInside}

abbrev outside : FilePath → String → FilePath
outside root relative =
    if relative == "../secret"
    then "srv" ∷ "secret" ∷ []
    else if relative == ".."
    then "srv" ∷ []
    else "srv" ∷ "public" ∷ relative ∷ []

abbrev has_no_dots : FilePath → Bool
has_no_dots path = not (any (λ part. part == "..") path)

abbrev small_host : Host
small_host = record {
  root = "srv" ∷ "public" ∷ [];
  request_path = λ target. target;
  ends_with_slash = λ target. false;
  resolve = outside;
  is_resolved = has_no_dots;
  is_dir = λ path. false;
  exists = λ path. true;
}

outside-is_resolved :
    (root : FilePath) (relative : String) → has_no_dots (outside root relative) ≡ true
outside-is_resolved root relative =
    ground
      (arith, eq_iff relative "..", eq_iff "srv" "..", eq_iff "secret" "..", eq_iff "public" "..")

send_head-IsInside_example : IsInside small_host (send_head small_host "/../secret")
send_head-IsInside_example = send_head-IsInside small_host refl outside-is_resolved "/../secret"
