-- ===== src/Api/Runs/Single.antt =====
-- One background run per job.
use nw_edit.Prelude.{
  String, ◌==◌, ◌≡◌, ◌≢◌, ◌∙◌, refl, true, false, some, List, [], ◌∷◌, if◌then◌else◌, arith, eq_iff,
  All,
}
use nw_edit.Dict
use nw_edit.Dict.Laws.{get-put, get-put_self}
use nw_edit.Api.Runs.{RunCoordinator, cleanup_dead, is_running, start_run}

-- What may happen to the coordinator: a call of `start` or of `is_running` for any job, and the end
-- of the thread of a job.
pub data Change : Type 0 where
  start asked ended : String → Change

-- The threads once the one of a job has ended.
unfoldable pub end_of : String → RunCoordinator → RunCoordinator
end_of job_id [] = []
end_of job_id ((j, alive) ∷ threads) =
    if j == job_id then (j, false) ∷ threads else (j, alive) ∷ end_of job_id threads

unfoldable pub changed : Change → RunCoordinator → RunCoordinator
changed (start job_id) threads = (start_run job_id threads).1
changed (asked job_id) threads = (is_running job_id threads).1
changed (ended job_id) threads = end_of job_id threads

unfoldable pub change_all : List Change → RunCoordinator → RunCoordinator
change_all [] threads = threads
change_all (change ∷ changes) threads = change_all changes (changed change threads)

-- Another thing than the end of the job's thread.
abbrev pub IsOther : String → Change → Type 0
IsOther job_id (ended j) = j ≢ job_id
IsOther job_id _ = Unit

get-cleanup_dead :
    (threads : RunCoordinator) (job_id : String)
    → Dict.get threads job_id ≡ some true
    → Dict.get (cleanup_dead threads) job_id ≡ some true
unfolding cleanup_dead Dict.get
get-cleanup_dead [] job_id h = h
get-cleanup_dead ((j, true) ∷ threads) job_id h =
    ground (arith, get-cleanup_dead threads job_id, eq_iff j job_id)
get-cleanup_dead ((j, false) ∷ threads) job_id h =
    ground (arith, get-cleanup_dead threads job_id, eq_iff j job_id)

contains-alive :
    (threads : RunCoordinator) (job_id : String)
    → Dict.contains (cleanup_dead threads) job_id ≡ true
    → Dict.get (cleanup_dead threads) job_id ≡ some true
unfolding cleanup_dead Dict.get
contains-alive [] job_id h = cc
contains-alive ((j, true) ∷ threads) job_id h =
    ground (arith, contains-alive threads job_id, eq_iff j job_id)
contains-alive ((j, false) ∷ threads) job_id h = contains-alive threads job_id h

get-end_of :
    (threads : RunCoordinator) (j job_id : String)
    → j ≢ job_id
    → Dict.get (end_of j threads) job_id ≡ Dict.get threads job_id
unfolding end_of Dict.get
get-end_of [] j job_id n = refl
get-end_of ((i, alive) ∷ threads) j job_id n =
    ground (arith, get-end_of threads j job_id n, eq_iff i j, eq_iff i job_id)

get-start_run :
    (threads : RunCoordinator) (j job_id : String)
    → Dict.get threads job_id ≡ some true
    → Dict.get (start_run j threads).1 job_id ≡ some true
unfolding start_run
get-start_run threads j job_id h =
    ground (arith, get-cleanup_dead threads job_id h, get-put (cleanup_dead threads) j true job_id)

started-alive :
    (threads : RunCoordinator) (job_id : String)
    → Dict.get (start_run job_id threads).1 job_id ≡ some true
unfolding start_run
started-alive threads job_id =
    ground (arith, contains-alive threads job_id, get-put_self (cleanup_dead threads) job_id true)

changed-alive :
    (change : Change) (threads : RunCoordinator) (job_id : String)
    → IsOther job_id change
    → Dict.get threads job_id ≡ some true
    → Dict.get (changed change threads) job_id ≡ some true
unfolding changed is_running
changed-alive (start j) threads job_id other h = get-start_run threads j job_id h
changed-alive (asked j) threads job_id other h = get-cleanup_dead threads job_id h
changed-alive (ended j) threads job_id other h = get-end_of threads j job_id other ∙ h

change_all-alive :
    (changes : List Change) (threads : RunCoordinator) (job_id : String)
    → All (IsOther job_id) changes
    → Dict.get threads job_id ≡ some true
    → Dict.get (change_all changes threads) job_id ≡ some true
unfolding change_all
change_all-alive [] threads job_id others h = h
change_all-alive (change ∷ changes) threads job_id others h =
    change_all-alive changes (changed change threads) job_id others.1
      (changed-alive change threads job_id others.0 h)

refused_alive :
    (threads : RunCoordinator) (job_id : String)
    → Dict.get threads job_id ≡ some true
    → (start_run job_id threads).0 ≡ false
unfolding start_run
refused_alive threads job_id h = ground (arith, get-cleanup_dead threads job_id h)

-- Once `start` has been called for a job, it is not started again while its thread is alive:
-- whatever calls for this and for other jobs come between, and whichever other threads end.
pub start_run_twice :
    (threads : RunCoordinator) (job_id : String) (between : List Change)
    → All (IsOther job_id) between
    → (start_run job_id (change_all between (start_run job_id threads).1)).0 ≡ false
start_run_twice threads job_id between others =
    refused_alive (change_all between (start_run job_id threads).1) job_id (
      change_all-alive between (start_run job_id threads).1 job_id others
        (started-alive threads job_id))
