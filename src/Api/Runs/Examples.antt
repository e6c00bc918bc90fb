-- ===== src/Api/Runs/Examples.antt =====
-- A coordinator with a dead and a living thread.
use nw_edit.Prelude.{◌≡◌, true, false, [], ◌∷◌, All, arith, eq_iff}
use nw_edit.Api.Runs.{RunCoordinator, start_run}
use nw_edit.Api.Runs.Single.{start, asked, ended, change_all, IsOther, start_run_twice}

abbrev threads : RunCoordinator
threads = ("j1", false) ∷ ("j2", true) ∷ []

changes-IsOther : All (IsOther "j1") (start "j3" ∷ ended "j2" ∷ asked "j2" ∷ [])
changes-IsOther = (tt, ((λ e. ground (arith, eq_iff "j2" "j1")), (tt, tt)))

start_run_twice_example :
    (start_run "j1"
      (change_all (start "j3" ∷ ended "j2" ∷ asked "j2" ∷ []) (start_run "j1" threads).1)).0
    ≡ false
start_run_twice_example =
    start_run_twice threads "j1" (start "j3" ∷ ended "j2" ∷ asked "j2" ∷ []) changes-IsOther
