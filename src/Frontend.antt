-- ===== src/Frontend.antt =====
-- backend_v2/app/frontend_server.py. A path is the list of its parts. The file system, the resolution
-- of links and `..`, and the parts of a URL are arguments.
pub mod Inside
pub mod Server
mod Examples
use Prim.Native.String.{String}
use Prim.Native.String
use nw_edit.Prelude.{
  Bool, true, false, not, ◌&&◌, ◌||◌, ◌==◌, List, [], ◌∷◌, ◌++◌, if◌then◌else◌, join,
}
use nw_edit.Text.Chars.{is}

abbrev pub FilePath : Type 0
FilePath = List String

-- `request_path target` is `unquote(urlsplit(target).path)`; `resolve root relative` is
-- `(root / relative).resolve()`; `ends_with_slash target` is what the base class asks of a directory.
-- `is_resolved path` says that the path is absolute and that neither a link nor `..` is among its
-- parts, which is what `Path.resolve` documents of its answer.
pub record Host : Type 0 where
  pub root : FilePath
  pub request_path : String → String
  pub ends_with_slash : String → Bool
  pub resolve : FilePath → String → FilePath
  pub is_resolved : FilePath → Bool
  pub is_dir : FilePath → Bool
  pub exists : FilePath → Bool

-- `text.lstrip("/")`.
unfoldable pub strip_slashes : String → String
strip_slashes String.[] = ""
strip_slashes (String.◌∷◌ c text) =
    let rest = strip_slashes text in if is 47 c then rest else String.◌∷◌ c text

-- `path.relative_to(root)` raises nothing.
unfoldable pub is_relative_to : FilePath → FilePath → Bool
is_relative_to [] path = true
is_relative_to (part ∷ root) [] = false
is_relative_to (part ∷ root) (other ∷ path) = (part == other) && is_relative_to root path

-- What is sent: a file, a redirection to the target with a slash, or the status 404.
pub data Reply : Type 0 where
  served : FilePath → Reply
  redirected not_found : Reply

module _ (host : Host) where
  -- `HardenedStaticHandler.translate_path`.
  unfoldable pub translate_path : String → FilePath
  translate_path target =
      let relative = strip_slashes (host.request_path target) in
      let candidate = host.resolve host.root relative in
      if relative == ""
      then host.root ++ "index.html" ∷ []
      else if is_relative_to host.root candidate
      then candidate
      else host.root ++ "__forbidden__" ∷ []

  -- A file that there is, and otherwise the reply that is given.
  open_or : FilePath → Reply → Reply
  open_or path otherwise =
      if host.exists path && not (host.is_dir path) then served path else otherwise

  -- `list_directory` answers 404.
  list_directory : FilePath → Reply
  list_directory path = not_found

  index_page : FilePath → Reply
  unfolding open_or list_directory
  index_page path =
      open_or (path ++ "index.html" ∷ []) (open_or (path ++ "index.htm" ∷ []) (list_directory path))

  -- `send_head` of the base class, for `self.path`.
  base_send_head : String → Reply
  unfolding index_page open_or
  base_send_head target =
      let path = translate_path target in
      if host.is_dir path
      then if host.ends_with_slash target then index_page path else redirected
      else open_or path not_found

  -- `HardenedStaticHandler.send_head`, for `self.path`.
  unfoldable pub send_head : String → Reply
  unfolding base_send_head
  send_head target =
      let request_path = host.request_path target in
      let candidate = translate_path request_path in
      if (request_path == "") || (request_path == "/")
      then base_send_head "/index.html"
      else if host.is_dir candidate
      then not_found
      else if not (host.exists candidate)
      then not_found
      else base_send_head target

abbrev csp_policy : String
csp_policy = join "; " (
    "default-src 'self'" ∷ "style-src 'self' 'unsafe-inline'"
    ∷ "connect-src 'self' http://127.0.0.1:8010 ws://127.0.0.1:8010" ∷ "img-src 'self' data:"
    ∷ "font-src 'self'" ∷ "object-src 'none'" ∷ "base-uri 'self'" ∷ "frame-ancestors 'none'"
    ∷ "form-action 'self'" ∷ [])

-- The headers that `end_headers` adds to every reply, for `self.path`.
unfoldable pub end_headers : Host → String → List (String × String)
end_headers host target =
    let request_path = host.request_path target in
    let is_index =
      (request_path == "") || (request_path == "/") || (request_path == "/index.html") in
    ("Content-Security-Policy", csp_policy)
    ∷ ((if is_index then ("Cache-Control", "no-cache") ∷ [] else [])
        ++ ("X-Content-Type-Options", "nosniff")
          ∷ ("Referrer-Policy", "no-referrer")
          ∷ ("X-Frame-Options", "DENY")
          ∷ ("Cross-Origin-Opener-Policy", "same-origin")
          ∷ [])
