-- ===== src/DeviceImport/Validation.antt =====
-- The validations of the parsed entries, in the order in which they finish.
use nw_edit.Prelude.{
  ℕ, zero, suc, ◌+◌, String, Bool, Option, none, some, List, [], ◌∷◌, ◌++◌, ℤ, if◌then◌else◌,
  or_default, length, ltb,
}
use nw_edit.Domain.Models.{DeviceProfile}
use nw_edit.DeviceImport.Row.{FailedRow, Entry, text_or}

unfoldable pub get_elem? {ℓ} : {A : Type ℓ} → List A → ℕ → Option A
get_elem? [] i = none
get_elem? (x ∷ xs) zero = some x
get_elem? (x ∷ xs) (suc i) = get_elem? xs i

-- A call of the progress callback.
pub data Report : Type 0 where
  start : ℕ → Report
  progress : ℕ → ℕ → String → ℤ → Bool → Report

-- A value of `validation_results`.
pub record Checked : Type 0 where
  pub entry : Entry
  pub ok : Bool
  pub error : Option String

-- `validation_results`, in insertion order.
abbrev pub Results : Type 0
Results = List (ℕ × Checked)

unfoldable pub put_result : Results → ℕ → Checked → Results
put_result [] i c = (i, c) ∷ []
put_result ((j, d) ∷ results) i c =
    let rest = put_result results i c in
    if ltb i j then (j, d) ∷ rest else if ltb j i then (j, d) ∷ rest else (j, c) ∷ results

-- An entry in its place by the index; it takes the place of one with the same index.
unfoldable pub place : ℕ → Checked → Results → Results
place i c [] = (i, c) ∷ []
place i c ((j, d) ∷ results) =
    let rest = place i c results in
    if ltb i j
    then (i, c) ∷ (j, d) ∷ results
    else if ltb j i
    then (j, d) ∷ rest
    else (i, c) ∷ results

-- The values of the dictionary for `sorted(validation_results)`, with their indexes.
unfoldable pub sorted_results : Results → Results
sorted_results [] = []
sorted_results ((i, c) ∷ results) = place i c (sorted_results results)

-- The validator's answer on an entry, noted in its device.
unfoldable pub validated : (DeviceProfile → Bool × Option String) → Entry → Checked
validated validate entry =
    let (ok, error) = validate entry.device in
    record {
      entry = record entry {
        device = record entry.device { connection_ok = ok; error_message = error };
      };
      ok = ok;
      error = error;
    }

pub record Loop : Type 0 where
  pub processed : ℕ
  pub reports : List Report
  pub results : Results

-- Before the first validation has finished: the caller has been told how many there are.
abbrev pub first_loop : List Entry → Loop
first_loop entries = record { processed = 0; reports = start (length entries) ∷ []; results = [] }

module _ (validate : DeviceProfile → Bool × Option String) (entries : List Entry) where
  finish_one : ℕ → Entry → Loop → Loop
  finish_one index entry loop =
      let checked = validated validate entry in
      let device = checked.entry.device in
      record {
        processed = loop.processed + 1;
        reports =
            loop.reports
            ++ progress (loop.processed + 1) (length entries) device.host device.port checked.ok
              ∷ [];
        results = put_result loop.results index checked;
      }

  -- The loop over `as_completed`; a future is known by the index of its entry.
  unfoldable pub complete_all : List ℕ → Loop → Loop
  unfolding finish_one
  complete_all [] loop = loop
  complete_all (index ∷ order) loop = elim (get_elem? entries index) [
    | none ↦ complete_all order loop
    | some entry ↦ complete_all order (finish_one index entry loop)
  ]

-- The loop over the sorted results: the valid devices, and the failures.
unfoldable pub judge : Results → List DeviceProfile × List FailedRow
judge [] = ([], [])
judge ((i, c) ∷ results) =
    let (devices, failures) = judge results in
    let failed : FailedRow = record {
      row_number = c.entry.row_number;
      row = c.entry.row;
      error = text_or (or_default c.error "") "Connection validation failed";
    } in
    if c.ok then (c.entry.device ∷ devices, failures) else (devices, failed ∷ failures)
