-- ===== src/DeviceImport/Service/Effects.antt =====
-- What an import does to the store and answers.
use mathlib.Core.List.{Permᴰ}
use nw_edit.Prelude.{
  ℕ, suc, ◌+◌, String, Bool, true, Option, none, some, List, [], ◌∷◌, ◌++◌, All, map, length,
  is_empty, ◌≡◌, ◌≢◌, refl, ◌⊎◌, inl, inr, Bool-cases,
}
use nw_edit.Dict.{Dict}
use nw_edit.Domain.Models.{DeviceProfile}
use nw_edit.Stores.DeviceStore
use nw_edit.Stores.DeviceStore.{DeviceStore}
use nw_edit.DeviceImport.Reader.{Records, normalize_header_name, normalized_row}
use nw_edit.DeviceImport.Row.{FailedRow, Entry, Loaded, RowResult, blank, rejected, accepted}
use nw_edit.DeviceImport.Row.Variables.{IsReady, IsAccepted, parse_row-IsAccepted}
use nw_edit.DeviceImport.Validation.{Report, validated, judge}
use nw_edit.DeviceImport.Service.{
  returned, csv_raised, Imported, missing_headers, Rows, keep, at_end, read_rows, conclude,
  validate_all, with_header, from_records, import_csv,
}
use nw_edit.DeviceImport.Service.Order.{range, numbered, sorted_results_lem}

-- A device that may be stored: its row was accepted, and its connection was found good.
pub record IsStored (device : DeviceProfile) : Type 0 where
  pub ready : IsReady device
  pub connected : device.connection_ok ≡ true

-- Either the store is as before, and the answer is an error or lists failed rows and no device, or
-- there are no failed rows, and the store holds what the answer lists, which may all be stored.
abbrev pub IsApplied : DeviceStore → Imported → Type 0
IsApplied store imported =
    ((imported.store ≡ store)
      × (((text : String) × (imported.outcome ≡ csv_raised text))
          ⊎ ((rows : List FailedRow) × ((rows ≢ [])
                × (imported.outcome ≡ returned (record { devices = []; failed_rows = rows }))))))
    ⊎ ((imported.outcome ≡ returned (record { devices = imported.store; failed_rows = [] }))
        × All IsStored imported.store)

All-append {ℓ κ} :
    {A : Type ℓ} (P : A → Type κ) (xs ys : List A) → All P xs → All P ys → All P (xs ++ ys)
All-append P [] ys h g = g
All-append P (x ∷ xs) ys h g = (h.0, All-append P xs ys h.1 g)

abbrev AllReady : Rows → Type 0
AllReady rows = All (λ entry. IsReady entry.device) rows.1

module _ (loads : String → Loaded) (names : List String) where
  keep-AllReady :
      (row_number : ℕ) (normalized : Dict String) (out : RowResult) (rows : Rows)
      → IsAccepted out
      → AllReady rows
      → AllReady (keep loads names row_number normalized out rows)
  unfolding keep
  keep-AllReady row_number normalized blank (failures, entries) a h = h
  keep-AllReady row_number normalized (rejected text) (failures, entries) a h = h
  keep-AllReady row_number normalized (accepted entry) (failures, entries) a h =
      All-append _ entries (entry ∷ []) h (a, tt)

  at_end-AllReady :
      (row_number : ℕ) (csv_error : Option String) (rows : Rows)
      → AllReady rows
      → AllReady (at_end loads names row_number csv_error rows)
  unfolding at_end
  at_end-AllReady row_number none rows h = h
  at_end-AllReady row_number (some text) (failures, entries) h = h

  read_rows-AllReady :
      (records : List (List String)) (csv_error : Option String) (row_number : ℕ) (rows : Rows)
      → AllReady rows
      → AllReady (read_rows loads names records csv_error row_number rows)
  unfolding read_rows
  read_rows-AllReady [] csv_error row_number rows h =
      at_end-AllReady (row_number + 1) csv_error rows h
  read_rows-AllReady ([] ∷ records) csv_error row_number rows h =
      read_rows-AllReady records csv_error row_number rows h
  read_rows-AllReady ((value ∷ values) ∷ records) csv_error row_number rows h =
      let normalized = normalized_row names (value ∷ values) in
      read_rows-AllReady records csv_error (row_number + 1) _ (
        keep-AllReady (row_number + 1) normalized _ rows
          (parse_row-IsAccepted loads (row_number + 1) normalized) h)

module _ (validate : DeviceProfile → Bool × Option String) where
  -- The devices that are left are those with a good connection.
  judge-AllStored :
      (k : ℕ) (entries : List Entry)
      → All (λ entry. IsReady entry.device) entries
      → All IsStored (judge (numbered (validated validate) k entries)).0
  unfolding judge validated
  judge-AllStored k [] h = tt
  judge-AllStored k (entry ∷ entries) (r, h) =
      let later = judge-AllStored (suc k) entries h in
      elim (Bool-cases (validate entry.device).0) [
        | inr e ↦ rw e later
        | inl e ↦ rw e (
          record {
            ready = record {
              host_given = r.host_given;
              username_given = r.username_given;
              password_given = r.password_given;
              variables_named = r.variables_named;
            };
            connected = refl;
          },
          later,
        )
      ]

conclude-IsApplied :
    (store : DeviceStore) (reports : List Report) (failures : List FailedRow)
    (devices : List DeviceProfile)
    → All IsStored devices
    → IsApplied store (conclude store reports failures devices)
unfolding conclude DeviceStore.replace
conclude-IsApplied store reports [] devices h = inr (refl, h)
conclude-IsApplied store reports (row ∷ rows) devices h =
    inl (refl, inr (row ∷ rows, (λ e. cc, refl)))

module _ (csv_reader : String → Records) (loads : String → Loaded)
    (validate : DeviceProfile → Bool × Option String) (store : DeviceStore)
    (completion : List Entry → List ℕ)
    (all_finish : (entries : List Entry)
      → Permᴰ (completion entries) (range 0 (length entries))) where
  validate_all-IsApplied :
      (rows : Rows)
      → AllReady rows
      → IsApplied store (validate_all csv_reader loads validate store completion rows)
  unfolding validate_all
  validate_all-IsApplied (failures, entries) h =
      rw (sorted_results_lem validate entries (completion entries) (all_finish entries))
        (conclude-IsApplied store _ _ _ (judge-AllStored validate 0 entries h))

  with_header-IsApplied :
      (csv_error : Option String) (records : List (List String)) (names : List String)
      → IsApplied store
          (with_header csv_reader loads validate store completion csv_error records names)
  unfolding with_header
  with_header-IsApplied csv_error records names =
      elim (Bool-cases (is_empty (missing_headers names))) [
        | inr e ↦ rw e (inl (refl, inr (_ ∷ [], (λ e. cc, refl))))
        | inl e ↦ rw e (
            validate_all-IsApplied _
              (read_rows-AllReady loads names records csv_error 1 ([], []) tt))
      ]

  from_records-IsApplied :
      (records : List (List String)) (csv_error : Option String)
      → IsApplied store (from_records csv_reader loads validate store completion records csv_error)
  unfolding from_records
  from_records-IsApplied [] none = with_header-IsApplied none [] []
  from_records-IsApplied [] (some text) = inl (refl, inl (text, refl))
  from_records-IsApplied (header ∷ records) csv_error =
      with_header-IsApplied csv_error records (map normalize_header_name header)

  pub import_csv-IsApplied :
      (csv_content : String)
      → IsApplied store (import_csv csv_reader loads validate store completion csv_content)
  unfolding import_csv
  import_csv-IsApplied csv_content =
      let read = csv_reader csv_content in from_records-IsApplied read.records read.csv_error
