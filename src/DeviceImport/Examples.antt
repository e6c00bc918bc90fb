-- ===== src/DeviceImport/Examples.antt =====
-- Two rows, the second of which is validated first.
use mathlib.Core.List.{Permᴰ}
use nw_edit.Prelude.{
  ℕ, String, ◌≡◌, refl, Bool, true, false, Option, none, some, List, [], ◌∷◌, pos, negsuc, length,
}
use nw_edit.Dict
use nw_edit.Text.Chars.{is_space, is_digit}
use nw_edit.Text.Strip.{strip, lstrip, rstrip}
use nw_edit.Domain.Models.{DeviceProfile}
use nw_edit.DeviceImport.Reader.{Records}
use nw_edit.DeviceImport.Row.{Entry, Loaded, undecodable, int_of_text, default_host_vars}
use nw_edit.DeviceImport.Row.Variables.{default_host_vars_lem}
use nw_edit.DeviceImport.Service.{import_csv}
use nw_edit.DeviceImport.Service.Order.{range}
use nw_edit.DeviceImport.Service.Sequence.{SameEffect, one_by_one, import_csv-SameEffect}

abbrev table : String → Records
table text = record {
  records =
      ("Host" ∷ "device_type" ∷ "username" ∷ "password" ∷ [])
      ∷ ("r1" ∷ "cisco_ios" ∷ "admin" ∷ "pw" ∷ [])
      ∷ ("r2" ∷ "generic linux" ∷ "admin" ∷ "pw" ∷ [])
      ∷ [];
  csv_error = none;
}

abbrev no_json : String → Loaded
no_json text = undecodable "Expecting value"

abbrev reachable : DeviceProfile → Bool × Option String
reachable device = (true, none)

-- The first two validations finish in the other order.
abbrev second_first : List ℕ → List ℕ
second_first [] = []
second_first (i ∷ []) = i ∷ []
second_first (i ∷ j ∷ order) = j ∷ i ∷ order

abbrev overtaking : List Entry → List ℕ
overtaking entries = second_first (range 0 (length entries))

same_list : (order : List ℕ) → Permᴰ order order
same_list [] = Permᴰ.nil
same_list (i ∷ order) = Permᴰ.cons refl (same_list order)

second_first-Permᴰ : (order : List ℕ) → Permᴰ (second_first order) order
second_first-Permᴰ [] = Permᴰ.nil
second_first-Permᴰ (i ∷ []) = same_list (i ∷ [])
second_first-Permᴰ (i ∷ j ∷ order) = Permᴰ.swap refl refl

overtaking-Permᴰ : (entries : List Entry) → Permᴰ (overtaking entries) (range 0 (length entries))
overtaking-Permᴰ entries = second_first-Permᴰ (range 0 (length entries))

import_csv-SameEffect_example :
    SameEffect
      (import_csv table no_json reachable [] overtaking "Host,device_type,...")
      (import_csv table no_json reachable [] one_by_one "Host,device_type,...")
import_csv-SameEffect_example =
    import_csv-SameEffect table no_json reachable [] overtaking overtaking-Permᴰ
      "Host,device_type,..."

numbers :
    (int_of_text "8_022" ≡ some (pos 8022))
    × (int_of_text "-1" ≡ some (negsuc 0))
    × (int_of_text "2_" ≡ none)
unfolding int_of_text strip rstrip lstrip is_space is_digit
numbers = (refl, refl, refl)

abbrev filled : Dict.Dict String
filled =
    ("host", "r1") ∷ ("device_type", "cisco_ios") ∷ ("username", "admin") ∷ ("password", "pw") ∷ []

default_host_vars_lem_example :
    Dict.get (default_host_vars filled (pos 22) "cisco_ios" false) "password" ≡ none
default_host_vars_lem_example = default_host_vars_lem filled (pos 22) "cisco_ios" false
