-- ===== src/Frontend/Server.antt =====
-- The start of backend_v2/app/frontend_server.py: `main` up to the server that it runs. The options
-- that the command line gives, the environment, and the file system are arguments.
use nw_edit.Prelude.{String, Bool, Option, none, some, [], ◌∷◌, ℤ, or_default, join, if◌then◌else◌}
use nw_edit.Result.{Error, value_error, Result, ok, err}
use nw_edit.DeviceImport.Row.{int_of_text}
use nw_edit.Frontend.{FilePath}

-- `Path(raw_path).resolve()`, `is_dir`, the text of a path, and DEFAULT_PUBLIC_DIR.
pub record Files : Type 0 where
  pub resolve : String → FilePath
  pub is_dir : FilePath → Bool
  pub shown : FilePath → String
  pub default_dir : String

-- Of the three options and of the three variables, those that are given.
pub record Given : Type 0 where
  pub host : Option String
  pub port : Option String
  pub directory : Option String

-- `main` serves a directory, leaves with argparse's message for a port that is no number, or raises.
pub data Start : Type 0 where
  serves : (host : String) → (port : ℤ) → (directory : FilePath) → Start
  refuses_arguments : Start
  raises : Error → Start

module _ (files : Files) where
  -- `_resolve_public_dir`.
  unfoldable pub resolve_public_dir : String → Result FilePath
  resolve_public_dir raw_path =
      let public_dir = files.resolve raw_path in
      let text =
        join "" ("Frontend public directory does not exist: " ∷ files.shown public_dir ∷ []) in
      if files.is_dir public_dir then ok public_dir else err (value_error text)

  started : String → ℤ → Result FilePath → Start
  started host port (ok directory) = serves host port directory
  started host port (err e) = raises e

  -- The value of `args.port`; `none`: argparse refuses it.
  port_of : Option String → ℤ → Option ℤ
  port_of none default_port = some default_port
  port_of (some text) default_port = int_of_text text

  abbrev no_number : Option String → Error
  no_number value =
      value_error
        (join "" ("invalid literal for int() with base 10: '" ∷ or_default value "3010" ∷ "'" ∷ []))

  -- The default of the port is read first, whether it is used or not.
  unfoldable pub main : Given → Given → Start
  unfolding started port_of resolve_public_dir
  main options variables =
      let host = or_default options.host (or_default variables.host "127.0.0.1") in
      let directory =
        or_default options.directory (or_default variables.directory files.default_dir) in
      elim (int_of_text (or_default variables.port "3010")) [
        | none ↦ raises (no_number variables.port)
        | some default_port ↦ elim (port_of options.port default_port) [
          | none ↦ refuses_arguments
          | some port ↦ started host port (resolve_public_dir directory)
        ]
      ]
