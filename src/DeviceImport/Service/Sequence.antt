-- ===== src/DeviceImport/Service/Sequence.antt =====
-- An import compared with one that validates the rows one after the other.
use mathlib.Core.List.{Permᴰ}
use nw_edit.Prelude.{
  ℕ, String, Bool, Option, none, some, List, [], ◌∷◌, map, length, is_empty, ◌≡◌, refl, inl, inr,
  Bool-cases,
}
use nw_edit.Domain.Models.{DeviceProfile}
use nw_edit.Stores.DeviceStore.{DeviceStore}
use nw_edit.DeviceImport.Reader.{Records, normalize_header_name}
use nw_edit.DeviceImport.Row.{FailedRow, Entry, Loaded}
use nw_edit.DeviceImport.Validation.{Report}
use nw_edit.DeviceImport.Service.{
  Imported, missing_headers, Rows, conclude, validate_all, with_header, from_records, import_csv,
}
use nw_edit.DeviceImport.Service.Order.{range, sorted_results_lem}

-- The outcome and the store are the same.
abbrev pub SameEffect : Imported → Imported → Type 0
SameEffect a b = (a.outcome ≡ b.outcome) × (a.store ≡ b.store)

-- The entries in their order.
abbrev pub one_by_one : List Entry → List ℕ
one_by_one entries = range 0 (length entries)

conclude-SameEffect :
    (store : DeviceStore) (reports others : List Report) (failures : List FailedRow)
    (devices : List DeviceProfile)
    → SameEffect (conclude store reports failures devices) (conclude store others failures devices)
unfolding conclude
conclude-SameEffect store reports others [] devices = (refl, refl)
conclude-SameEffect store reports others (row ∷ rows) devices = (refl, refl)

pub one_by_one-Permᴰ : (xs : List ℕ) → Permᴰ xs xs
one_by_one-Permᴰ [] = Permᴰ.nil
one_by_one-Permᴰ (x ∷ xs) = Permᴰ.cons refl (one_by_one-Permᴰ xs)

module _ (csv_reader : String → Records) (loads : String → Loaded)
    (validate : DeviceProfile → Bool × Option String) (store : DeviceStore)
    (completion : List Entry → List ℕ)
    (all_finish : (entries : List Entry) → Permᴰ (completion entries) (one_by_one entries)) where
  validate_all-SameEffect :
      (rows : Rows)
      → SameEffect
          (validate_all csv_reader loads validate store completion rows)
          (validate_all csv_reader loads validate store one_by_one rows)
  unfolding validate_all
  validate_all-SameEffect (failures, entries) =
      rw
        (
          sorted_results_lem validate entries (completion entries) (all_finish entries),
          sorted_results_lem validate entries (one_by_one entries) (one_by_one-Permᴰ _),
        )
        (conclude-SameEffect store _ _ _ _)

  with_header-SameEffect :
      (csv_error : Option String) (records : List (List String)) (names : List String)
      → SameEffect
          (with_header csv_reader loads validate store completion csv_error records names)
          (with_header csv_reader loads validate store one_by_one csv_error records names)
  unfolding with_header
  with_header-SameEffect csv_error records names =
      elim (Bool-cases (is_empty (missing_headers names))) [
        | inr e ↦ rw e (refl, refl)
        | inl e ↦ rw e (validate_all-SameEffect _)
      ]

  from_records-SameEffect :
      (records : List (List String)) (csv_error : Option String)
      → SameEffect
          (from_records csv_reader loads validate store completion records csv_error)
          (from_records csv_reader loads validate store one_by_one records csv_error)
  unfolding from_records
  from_records-SameEffect [] none = with_header-SameEffect none [] []
  from_records-SameEffect [] (some text) = (refl, refl)
  from_records-SameEffect (header ∷ records) csv_error =
      with_header-SameEffect csv_error records (map normalize_header_name header)

  -- Where every validation finishes, in whichever order, an import has the outcome and leaves the
  -- store of one whose validations finish in the order of the rows.
  pub import_csv-SameEffect :
      (csv_content : String)
      → SameEffect
          (import_csv csv_reader loads validate store completion csv_content)
          (import_csv csv_reader loads validate store one_by_one csv_content)
  unfolding import_csv
  import_csv-SameEffect csv_content =
      let read = csv_reader csv_content in from_records-SameEffect read.records read.csv_error
