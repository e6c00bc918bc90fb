-- ===== src/DeviceImport/Service.antt =====
-- `DeviceImportService.import_csv`.
pub mod Order
pub mod Effects
pub mod Sequence
use nw_edit.Prelude.{
  ℕ, ◌+◌, String, Bool, true, false, not, ◌==◌, Option, none, some, List, [], ◌∷◌, ◌++◌,
  if◌then◌else◌, length, filter, any, map, join, is_empty,
}
use nw_edit.Dict.{Dict}
use nw_edit.Domain.Models.{DeviceProfile}
use nw_edit.Stores.DeviceStore
use nw_edit.Stores.DeviceStore.{DeviceStore}
use nw_edit.DeviceImport.Reader.{Records, normalize_header_name, normalized_row}
use nw_edit.DeviceImport.Row.{
  FailedRow, Entry, Loaded, required_headers, RowResult, blank, rejected, accepted, parse_row,
}
use nw_edit.DeviceImport.Validation.{Report, sorted_results, first_loop, complete_all, judge}

pub record DeviceImportResult : Type 0 where
  pub devices : List DeviceProfile
  pub failed_rows : List FailedRow

-- The call ends with a result, or with the `csv.Error` of the header.
pub data Outcome : Type 0 where
  returned : DeviceImportResult → Outcome
  csv_raised : String → Outcome

pub record Imported : Type 0 where
  pub outcome : Outcome
  pub store : DeviceStore
  pub reports : List Report

-- The names of the required headers that are not there.
unfoldable pub missing_headers : List String → List String
missing_headers headers =
    filter (λ name. not (any (λ header. header == name) headers)) required_headers

-- `failures` and `parsed_entries`.
abbrev pub Rows : Type 0
Rows = List FailedRow × List Entry

module _ (loads : String → Loaded) (names : List String) where
  keep : ℕ → Dict String → RowResult → Rows → Rows
  keep row_number normalized blank (failures, entries) = (failures, entries)
  keep row_number normalized (rejected text) (failures, entries) =
      (failures ++ record { row_number = row_number; row = normalized; error = text } ∷ [], entries)
  keep row_number normalized (accepted entry) (failures, entries) =
      (failures, entries ++ entry ∷ [])

  at_end : ℕ → Option String → Rows → Rows
  at_end row_number none rows = rows
  at_end row_number (some text) (failures, entries) =
      let error = join "" ("CSV syntax error: " ∷ text ∷ []) in
      (failures ++ record { row_number = row_number; row = []; error = error } ∷ [], entries)

  -- The reading loop, with the last row number. `DictReader` passes over empty records.
  unfoldable pub read_rows : List (List String) → Option String → ℕ → Rows → Rows
  unfolding keep at_end
  read_rows [] csv_error row_number rows = at_end (row_number + 1) csv_error rows
  read_rows ([] ∷ records) csv_error row_number rows = read_rows records csv_error row_number rows
  read_rows ((value ∷ values) ∷ records) csv_error row_number rows =
      let normalized = normalized_row names (value ∷ values) in
      read_rows records csv_error (row_number + 1)
        (keep (row_number + 1) normalized (parse_row loads (row_number + 1) normalized) rows)

-- What the store and the caller get from the failures and the valid devices.
unfoldable pub conclude : DeviceStore → List Report → List FailedRow → List DeviceProfile → Imported
conclude store reports failures valid_devices =
    if not (is_empty failures)
    then record {
      outcome = returned (record { devices = []; failed_rows = failures });
      store = store;
      reports = reports;
    }
    else record {
      outcome = returned (record { devices = valid_devices; failed_rows = [] });
      store = DeviceStore.replace store valid_devices;
      reports = reports;
    }

module _ (csv_reader : String → Records) (loads : String → Loaded)
    (validate : DeviceProfile → Bool × Option String) where
  -- Behind the rows: `order` is the order in which the validations of the entries finish.
  unfoldable pub validate_all : DeviceStore → (List Entry → List ℕ) → Rows → Imported
  validate_all store completion (failures, entries) =
      let loop = complete_all validate entries (completion entries) (first_loop entries) in
      let (valid_devices, failed) = judge (sorted_results loop.results) in
      conclude store loop.reports (failures ++ failed) valid_devices

  with_header :
      DeviceStore
      → (List Entry → List ℕ)
      → Option String
      → List (List String)
      → List String
      → Imported
  with_header store completion csv_error records names =
      let missing = missing_headers names in
      if not (is_empty missing)
      then record {
        outcome = returned (record {
          devices = [];
          failed_rows =
              record {
                row_number = 1;
                row = [];
                error = join "" (
                    "CSV header is invalid or missing required columns: " ∷ join ", " missing ∷ []);
              }
              ∷ [];
        });
        store = store;
        reports = [];
      }
      else validate_all store completion (read_rows loads names records csv_error 1 ([], []))

  from_records : DeviceStore → (List Entry → List ℕ) → List (List String) → Option String → Imported
  unfolding with_header
  from_records store completion [] none = with_header store completion none [] []
  from_records store completion [] (some text) = record {
    outcome = csv_raised text;
    store = store;
    reports = [];
  }
  from_records store completion (header ∷ records) csv_error =
      with_header store completion csv_error records (map normalize_header_name header)

  -- `import_csv` with a progress callback.
  unfoldable pub import_csv : DeviceStore → (List Entry → List ℕ) → String → Imported
  unfolding from_records
  import_csv store completion csv_content =
      let read = csv_reader csv_content in from_records store completion read.records read.csv_error
