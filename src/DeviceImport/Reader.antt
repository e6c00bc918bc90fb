-- ===== src/DeviceImport/Reader.antt =====
-- `csv.DictReader`, and how rows are normalized.
use nw_edit.Prelude.{String, Option, none, some, List, [], ◌∷◌, or_default}
use nw_edit.Dict
use nw_edit.Dict.{Dict}
use nw_edit.Text.Strip.{strip, lower}

-- What `csv.reader` yields for a text: the records in order, and the text of the `csv.Error` at which
-- it stops, if it does.
pub record Records : Type 0 where
  pub records : List (List String)
  pub csv_error : Option String

-- `_normalize_header_name`.
unfoldable pub normalize_header_name : String → String
normalize_header_name name = lower (strip name)

-- The dictionary of a row: a field without a value is None. What a record has too much of stands
-- under the key None, which the caller leaves out.
unfoldable pub row_dict : Dict (Option String) → List String → List String → Dict (Option String)
row_dict row [] values = row
row_dict row (name ∷ names) [] = row_dict (Dict.put row name none) names []
row_dict row (name ∷ names) (value ∷ values) =
    row_dict (Dict.put row name (some value)) names values

-- The comprehension that makes `normalized`.
unfoldable pub normalized_from : Dict String → Dict (Option String) → Dict String
normalized_from normalized [] = normalized
normalized_from normalized ((key, value) ∷ row) =
    normalized_from (Dict.put normalized (normalize_header_name key) (strip (or_default value "")))
      row

abbrev pub normalized_row : List String → List String → Dict String
normalized_row names values = normalized_from [] (row_dict [] names values)
