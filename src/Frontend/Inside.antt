-- ===== src/Frontend/Inside.antt =====
-- No file outside the public directory is served.
use nw_edit.Prelude.{
  String, ◌≡◌, refl, Bool, true, false, not, ◌&&◌, ◌||◌, ◌==◌, eq_iff, [], ◌∷◌, ◌++◌, if◌then◌else◌,
  arith, Bool-cases, inl, inr,
}
use nw_edit.Frontend.{
  FilePath, Host, strip_slashes, is_relative_to, Reply, served, redirected, not_found,
  translate_path, open_or, list_directory, index_page, base_send_head, send_head,
}

-- The names that the handlers write behind a directory.
abbrev pub is_page : String → Bool
is_page name = (name == "index.html") || ((name == "index.htm") || (name == "__forbidden__"))

is_relative_to_self : (root : FilePath) → is_relative_to root root ≡ true
unfolding is_relative_to
is_relative_to_self [] = refl
is_relative_to_self (part ∷ root) = ground (arith, eq_iff part part, is_relative_to_self root)

module _ (host : Host) where
  -- A path without a link and without `..` that begins with the public directory, or one of the
  -- three pages in a directory that is such a path or such a page.
  pub data IsUnder : FilePath → Type 0 where
    resolved :
        (path : FilePath)
        → host.is_resolved path ≡ true
        → is_relative_to host.root path ≡ true
        → IsUnder path
    page :
        (path : FilePath) (name : String)
        → IsUnder path
        → is_page name ≡ true
        → IsUnder (path ++ name ∷ [])

  -- A reply that shows nothing but what lies under the public directory.
  abbrev pub IsInside : Reply → Type 0
  IsInside (served path) = IsUnder path
  IsInside redirected = Unit
  IsInside not_found = Unit

  -- The public directory has been resolved, and what `resolve` answers has been.
  module _ (root_resolved : host.is_resolved host.root ≡ true)
      (resolves : (root : FilePath) (relative : String)
        → host.is_resolved (host.resolve root relative) ≡ true) where
    translate_path-IsUnder : (target : String) → IsUnder (translate_path host target)
    unfolding translate_path
    translate_path-IsUnder target =
        let root = resolved host.root root_resolved (is_relative_to_self host.root) in
        let relative = strip_slashes (host.request_path target) in
        let candidate = host.resolve host.root relative in
        elim (Bool-cases (relative == "")) [
          | inl e ↦ rw e (page host.root "index.html" root refl)
          | inr e ↦ elim (Bool-cases (is_relative_to host.root candidate)) [
            | inl under ↦ rw (e, under) (resolved candidate (resolves host.root relative) under)
            | inr above ↦ rw (e, above) (page host.root "__forbidden__" root refl)
          ]
        ]

    open_or-IsInside :
        (path : FilePath) (otherwise : Reply)
        → IsUnder path
        → IsInside otherwise
        → IsInside (open_or host path otherwise)
    unfolding open_or
    open_or-IsInside path otherwise h o =
        elim (Bool-cases (host.exists path && not (host.is_dir path))) [
          | inl e ↦ rw e h
          | inr e ↦ rw e o
        ]

    index_page-IsInside : (path : FilePath) → IsUnder path → IsInside (index_page host path)
    unfolding index_page list_directory
    index_page-IsInside path h =
        open_or-IsInside (path ++ "index.html" ∷ [])
          (open_or host (path ++ "index.htm" ∷ []) not_found) (page path "index.html" h refl)
          (open_or-IsInside (path ++ "index.htm" ∷ []) not_found (page path "index.htm" h refl) tt)

    -- A test between two replies.
    either_way :
        (test : Bool) (first second : Reply)
        → IsInside first
        → IsInside second
        → IsInside (if test then first else second)
    either_way true first second h g = h
    either_way false first second h g = g

    base_send_head-IsInside : (target : String) → IsInside (base_send_head host target)
    unfolding base_send_head
    base_send_head-IsInside target =
        let under = translate_path-IsUnder target in
        let path = translate_path host target in
        let slash = host.ends_with_slash target in
        either_way (host.is_dir path) (if slash then index_page host path else redirected)
          (open_or host path not_found)
          (either_way slash (index_page host path) redirected (index_page-IsInside path under) tt)
          (open_or-IsInside path not_found under tt)

    -- Whatever the target of a request is and whatever files there are, given that the public
    -- directory has been resolved and that `resolve` answers resolved paths: a file that is served
    -- begins with the public directory and has neither a link nor `..` in its path, or it is a page
    -- `index.html`, `index.htm` or `__forbidden__` in such a place.
    pub send_head-IsInside : (target : String) → IsInside (send_head host target)
    unfolding send_head
    send_head-IsInside target =
        let request_path = host.request_path target in
        let candidate = translate_path host request_path in
        let page = base_send_head host target in
        let there : Reply = if not (host.exists candidate) then not_found else page in
        either_way ((request_path == "") || (request_path == "/"))
          (base_send_head host "/index.html") (if host.is_dir candidate then not_found else there)
          (base_send_head-IsInside "/index.html")
          (either_way (host.is_dir candidate) not_found there tt (
            either_way (not (host.exists candidate)) not_found page tt
              (base_send_head-IsInside target)))
