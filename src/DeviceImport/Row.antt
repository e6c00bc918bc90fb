-- ===== src/DeviceImport/Row.antt =====
-- One row of the CSV.
pub mod Variables
pub mod Numbers
use Prim.Native.Char.{Char, code}
use Prim.Native.String.{String}
use Prim.Native.String
use nw_edit.Prelude.{
  leb, ℕ, zero, suc, ◌+◌, ◌-◌, ◌*◌, Bool, true, false, not, ◌&&◌, ◌||◌, ◌==◌, Option, none, some,
  List, [], ◌∷◌, ℤ, pos, negsuc, show_int, if◌then◌else◌, or_default, filter, any, map, join,
  is_empty, ltb,
}
use nw_edit.Dict
use nw_edit.Dict.{Dict}
use nw_edit.Domain.Models.{DeviceProfile}
use nw_edit.Text.Chars.{is, is_digit}
use nw_edit.Text.Strip.{strip, lower}
use nw_edit.Text.Split.{split}
use nw_edit.Text.Regex.{
  Regex, one, many, both, text_start, text_end, is_word, is_name_start, is_match,
}

pub record FailedRow : Type 0 where
  pub row_number : ℕ
  pub row : Dict String
  pub error : String

-- An element of `parsed_entries`.
pub record Entry : Type 0 where
  pub row_number : ℕ
  pub row : Dict String
  pub device : DeviceProfile

-- What `json.loads` makes of a text: the message of a JSONDecodeError, a value that is no object, or
-- an object with each of its values as `str` prints it.
pub data Loaded : Type 0 where
  undecodable : String → Loaded
  no_object : Loaded
  object : Dict String → Loaded

abbrev pub required_headers : List String
required_headers = "host" ∷ "device_type" ∷ "username" ∷ "password" ∷ []

-- `_DEVICE_TYPE_ALIASES`.
abbrev device_type_aliases : Dict String
device_type_aliases =
    ("generic linux", "linux") ∷ ("generic_linux", "linux") ∷ ("generic-linux", "linux") ∷ []

-- `^[A-Za-z_][A-Za-z0-9_]*$`.
abbrev pub var_name_pattern : Regex
var_name_pattern = both text_start (both (one is_name_start) (both (many is_word) text_end))

abbrev pub is_var_name : String → Bool
is_var_name key = is_match false var_name_pattern key

-- `_normalize_device_type`.
unfoldable pub normalize_device_type : String → String
normalize_device_type device_type =
    let canonical = strip device_type in
    or_default (Dict.get device_type_aliases (lower canonical)) canonical

-- `normalized.get(key) or ""`.
abbrev pub text_at : Dict String → String → String
text_at normalized key = or_default (Dict.get normalized key) ""

-- `text or other`.
abbrev pub text_or : String → String → String
text_or text other = if text == "" then other else text

-- The digits of a number, with single underscores between them; `after_digit` says whether the last
-- character was a digit.
unfoldable pub digits_from : ℕ → Bool → String → Option ℕ
digits_from n after_digit String.[] = if after_digit then some n else none
digits_from n after_digit (String.◌∷◌ c text) =
    let next = digits_from (n * 10 + (code c - 48)) true text in
    let skipped = digits_from n false text in
    if is_digit c then next else if is 95 c && after_digit then skipped else none

negated : ℕ → ℤ
negated zero = pos zero
negated (suc n) = negsuc n

unfoldable pub signed : String → Option ℤ
unfolding negated digits_from
signed String.[] = none
signed (String.◌∷◌ c text) =
    if is 45 c
    then elim (digits_from 0 false text) [ none ↦ none | some n ↦ some (negated n) ]
    else elim (digits_from 0 false (if is 43 c then text else String.◌∷◌ c text)) [
      | none ↦ none
      | some n ↦ some (pos n)
    ]

-- The number that a text is read as, however long it is.
unfoldable pub read_int : String → Option ℤ
unfolding signed digits_from negated
read_int text = signed (strip text)

unfoldable pub digit_count : String → ℕ
digit_count String.[] = 0
digit_count (String.◌∷◌ c text) =
    let rest = digit_count text in if is_digit c then rest + 1 else rest

-- `int(text)`; none is a ValueError. Python refuses more than 4300 digits.
unfoldable pub int_of_text : String → Option ℤ
unfolding read_int digit_count
int_of_text text = if leb (digit_count text) 4300 then read_int text else none

-- The comprehension over the columns in `_default_host_vars`.
unfoldable pub default_columns : Dict String → Dict String
default_columns [] = []
default_columns ((key, value) ∷ normalized) =
    let rest = default_columns normalized in
    let excluded = (key == "password") || (key == "host_vars") || (key == "verify_cmds") in
    if not excluded && is_var_name key then (key, value) ∷ rest else rest

-- `_default_host_vars`.
unfoldable pub default_host_vars : Dict String → ℤ → String → Bool → Dict String
default_host_vars normalized port device_type prod =
    let host = text_at normalized "host" in
    let d1 = Dict.put (default_columns normalized) "host" host in
    let d2 = Dict.put d1 "ip" host in
    let d3 = Dict.put d2 "port" (show_int port) in
    let d4 = Dict.put d3 "device_type" device_type in
    let d5 = Dict.put d4 "hostname" (text_or (text_at normalized "name") host) in
    Dict.put d5 "prod" (if prod then "true" else "false")

-- `verify_cmds` of a row.
unfoldable pub verify_cmds_of : Dict String → List String
verify_cmds_of normalized =
    filter (λ cmd. not (cmd == "")) (map strip (split ";" (text_at normalized "verify_cmds")))

unfoldable pub is_prod : Dict String → Bool
is_prod normalized = lower (strip (text_at normalized "prod")) == "true"

unfoldable pub missing_fields : Dict String → List String
missing_fields normalized = filter (λ name. text_at normalized name == "") required_headers

-- What becomes of a row: it is blank, it fails with a text, or it is an entry.
pub data RowResult : Type 0 where
  blank : RowResult
  rejected : String → RowResult
  accepted : Entry → RowResult

unfoldable pub entry_of : ℕ → Dict String → ℤ → Dict String → Entry
entry_of row_number normalized port host_vars =
    let name = text_at normalized "name" in
    record {
      row_number = row_number;
      row = normalized;
      device = record {
        host = text_at normalized "host";
        device_type = normalize_device_type (text_at normalized "device_type");
        username = text_at normalized "username";
        password = text_at normalized "password";
        port = port;
        name = if name == "" then none else some name;
        verify_cmds = verify_cmds_of normalized;
        host_vars = host_vars;
        prod = is_prod normalized;
        connection_ok = false;
        error_message = none;
      };
    }

-- The variables of the row's JSON object over the default ones.
unfoldable pub with_loaded : ℕ → Dict String → ℤ → Dict String → Loaded → RowResult
with_loaded row_number normalized port defaults (undecodable message) =
    rejected (join "" ("Invalid host_vars JSON: " ∷ message ∷ []))
with_loaded row_number normalized port defaults no_object =
    rejected "host_vars must be a JSON object"
with_loaded row_number normalized port defaults (object loaded) =
    let invalid_keys = filter (λ key. not (is_var_name key)) (Dict.keys loaded) in
    if not (is_empty invalid_keys)
    then rejected (join "" ("Invalid host_vars key(s): " ∷ join ", " invalid_keys ∷ []))
    else accepted (entry_of row_number normalized port (Dict.update defaults loaded))

module _ (loads : String → Loaded) where
  unfoldable pub with_port : ℕ → Dict String → ℤ → RowResult
  with_port row_number normalized port =
      let device_type = normalize_device_type (text_at normalized "device_type") in
      let defaults = default_host_vars normalized port device_type (is_prod normalized) in
      let raw = text_at normalized "host_vars" in
      if raw == ""
      then accepted (entry_of row_number normalized port defaults)
      else with_loaded row_number normalized port defaults (loads raw)

  -- The body of the loop, for a row that has been read.
  unfoldable pub parse_row : ℕ → Dict String → RowResult
  parse_row row_number normalized =
      let missing = missing_fields normalized in
      if not (any (λ value. not (value == "")) (Dict.values normalized))
      then blank
      else if not (is_empty missing)
      then rejected (join "" ("Missing required fields: " ∷ join ", " missing ∷ []))
      else elim (int_of_text (text_or (text_at normalized "port") "22")) [
        | none ↦ rejected (join "" ("Invalid port value: " ∷ text_at normalized "port" ∷ []))
        | some port ↦ with_port row_number normalized port
      ]
