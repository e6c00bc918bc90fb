-- ===== src/DeviceImport/Row/Variables.antt =====
-- The variables that a row brings, and the fields of an accepted row.
use nw_edit.Prelude.{
  ℕ, String, Bool, true, false, not, ◌||◌, ◌==◌, none, [], ◌∷◌, All, filter, is_empty, ℤ, ◌≡◌, refl,
  inl, inr, arith, Bool-cases, Option-cases, any,
}
use nw_edit.Dict
use nw_edit.Dict.{Dict}
use nw_edit.Dict.Laws.{get-put}
use nw_edit.Domain.Models.{DeviceProfile}
use nw_edit.Text.Chars.{is_letter, is_digit}
use nw_edit.Text.Regex.{is_match, matches, is_word, is_name_start}
use nw_edit.DeviceImport.Row.{
  Loaded, undecodable, no_object, object, is_var_name, text_at, text_or, default_columns,
  default_host_vars, missing_fields, int_of_text, RowResult, blank, rejected, accepted, entry_of,
  with_loaded, with_port, parse_row,
}

-- Every variable has a name that the pattern allows.
abbrev pub IsNamed : Dict String → Type 0
IsNamed vars = All (λ entry. is_var_name entry.0 ≡ true) vars

put-IsNamed :
    (vars : Dict String) (key value : String)
    → is_var_name key ≡ true
    → IsNamed vars
    → IsNamed (Dict.put vars key value)
unfolding Dict.put
put-IsNamed [] key value k h = (k, tt)
put-IsNamed ((j, w) ∷ vars) key value k h = elim (Bool-cases (j == key)) [
  | inl same ↦ rw same h
  | inr other ↦ rw other (h.0, put-IsNamed vars key value k h.1)
]

update-IsNamed :
    (vars more : Dict String) → IsNamed vars → IsNamed more → IsNamed (Dict.update vars more)
unfolding Dict.update
update-IsNamed vars [] h g = h
update-IsNamed vars ((key, value) ∷ more) h g =
    update-IsNamed (Dict.put vars key value) more (put-IsNamed vars key value g.0 h) g.1

default_columns-IsNamed : (normalized : Dict String) → IsNamed (default_columns normalized)
unfolding default_columns
default_columns-IsNamed [] = tt
default_columns-IsNamed ((key, value) ∷ normalized) =
    let later = default_columns-IsNamed normalized in
    elim (Bool-cases ((key == "password") || (key == "host_vars") || (key == "verify_cmds"))) [
      | inl e ↦ rw e later
      | inr e ↦ elim (Bool-cases (is_var_name key)) [
        | inl n ↦ rw (e, n) (n, later)
        | inr n ↦ rw (e, n) later
      ]
    ]

-- The names that `_default_host_vars` writes itself.
own_names :
    All
      (λ key. is_var_name key ≡ true)
      ("host" ∷ "ip" ∷ "port" ∷ "device_type" ∷ "hostname" ∷ "prod" ∷ [])
unfolding is_match matches is_letter is_digit is_word is_name_start
own_names = (refl, (refl, (refl, (refl, (refl, (refl, tt))))))

default_host_vars-IsNamed :
    (normalized : Dict String) (port : ℤ) (device_type : String) (prod : Bool)
    → IsNamed (default_host_vars normalized port device_type prod)
unfolding default_host_vars
default_host_vars-IsNamed normalized port device_type prod =
    let (host, (ip, (p, (d, (hostname, (pr, _)))))) = own_names in
    put-IsNamed _ _ _ pr (
      put-IsNamed _ _ _ hostname (
        put-IsNamed _ _ _ d (
          put-IsNamed _ _ _ p
            (put-IsNamed _ _ _ ip (put-IsNamed _ _ _ host (default_columns-IsNamed normalized))))))

-- What is kept by a filter that leaves nothing.
none_invalid :
    (loaded : Dict String)
    → is_empty (filter (λ key. not (is_var_name key)) (Dict.keys loaded)) ≡ true
    → IsNamed loaded
none_invalid [] h = tt
none_invalid ((key, value) ∷ loaded) h = elim (Bool-cases (is_var_name key)) [
  | inl e ↦ (e, none_invalid loaded (ground arith))
  | inr e ↦ ground arith
]

-- What is known of an accepted row.
pub record IsReady (device : DeviceProfile) : Type 0 where
  pub host_given : (device.host == "") ≡ false
  pub username_given : (device.username == "") ≡ false
  pub password_given : (device.password == "") ≡ false
  pub variables_named : IsNamed device.host_vars

abbrev pub IsAccepted : RowResult → Type 0
IsAccepted blank = Unit
IsAccepted (rejected text) = Unit
IsAccepted (accepted entry) = IsReady entry.device

-- The fields that the code asks for.
AreGiven : Dict String → Type 0
AreGiven normalized =
    ((text_at normalized "host" == "") ≡ false)
    × (((text_at normalized "username" == "") ≡ false)
        × ((text_at normalized "password" == "") ≡ false))

none_missing :
    (normalized : Dict String) → is_empty (missing_fields normalized) ≡ true → AreGiven normalized
unfolding AreGiven missing_fields
none_missing normalized h = (ground arith, (ground arith, ground arith))

entry_of-IsReady :
    (row_number : ℕ) (normalized : Dict String) (port : ℤ) (vars : Dict String)
    → AreGiven normalized
    → IsNamed vars
    → IsReady (entry_of row_number normalized port vars).device
unfolding AreGiven entry_of
entry_of-IsReady row_number normalized port vars g n = record {
  host_given = g.0;
  username_given = g.1.0;
  password_given = g.1.1;
  variables_named = n;
}

with_loaded-IsAccepted :
    (row_number : ℕ) (normalized : Dict String) (port : ℤ) (defaults : Dict String)
    (loaded : Loaded)
    → AreGiven normalized
    → IsNamed defaults
    → IsAccepted (with_loaded row_number normalized port defaults loaded)
unfolding with_loaded
with_loaded-IsAccepted row_number normalized port defaults (undecodable message) g n = tt
with_loaded-IsAccepted row_number normalized port defaults no_object g n = tt
with_loaded-IsAccepted row_number normalized port defaults (object loaded) g n =
    elim (Bool-cases (is_empty (filter (λ key. not (is_var_name key)) (Dict.keys loaded)))) [
      | inl e ↦ rw e (
          entry_of-IsReady row_number normalized port _ g
            (update-IsNamed defaults loaded n (none_invalid loaded e)))
      | inr e ↦ rw e tt
    ]

module _ (loads : String → Loaded) (row_number : ℕ) (normalized : Dict String) where
  with_port-IsAccepted :
      (port : ℤ) → AreGiven normalized → IsAccepted (with_port loads row_number normalized port)
  unfolding with_port
  with_port-IsAccepted port g =
      let defaults = default_host_vars-IsNamed normalized port _ _ in
      elim (Bool-cases (text_at normalized "host_vars" == "")) [
        | inl e ↦ rw e (entry_of-IsReady row_number normalized port _ g defaults)
        | inr e ↦ rw e (with_loaded-IsAccepted row_number normalized port _ _ g defaults)
      ]

  -- Whatever the row holds and whatever `json.loads` answers: the row is blank, it is rejected, or
  -- its device has a host, a username and a password, and every variable a name that the pattern
  -- allows.
  pub parse_row-IsAccepted : IsAccepted (parse_row loads row_number normalized)
  unfolding parse_row
  parse_row-IsAccepted =
      elim (Bool-cases (any (λ value. not (value == "")) (Dict.values normalized))) [
        | inr e ↦ rw e tt
        | inl e ↦ elim (Bool-cases (is_empty (missing_fields normalized))) [
          | inr m ↦ rw (e, m) tt
          | inl m ↦ elim (Option-cases (int_of_text (text_or (text_at normalized "port") "22"))) [
            | inl p ↦ rw (e, m, p) tt
            | inr (port, p) ↦ rw (e, m, p) (with_port-IsAccepted port (none_missing normalized m))
          ]
        ]
      ]

default_columns_no_password :
    (normalized : Dict String) → Dict.get (default_columns normalized) "password" ≡ none
unfolding default_columns Dict.get
default_columns_no_password [] = refl
default_columns_no_password ((key, value) ∷ normalized) =
    ground (arith, default_columns_no_password normalized)

-- The password of a row is never one of its default variables.
pub default_host_vars_lem :
    (normalized : Dict String) (port : ℤ) (device_type : String) (prod : Bool)
    → Dict.get (default_host_vars normalized port device_type prod) "password" ≡ none
unfolding default_host_vars
default_host_vars_lem normalized port device_type prod =
    simp (get-put) (default_columns_no_password normalized)
