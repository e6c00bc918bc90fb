-- ===== src/Stores/JobStore.antt =====
-- backend_v2/app/infrastructure/in_memory_job_store.py
use nw_edit.Prelude.{ℕ, String, Option, List, [], length}
use nw_edit.Dict
use nw_edit.Dict.{Dict}
use nw_edit.Domain.Models.{JobRecord}

abbrev pub JobStore : Type 0
JobStore = Dict JobRecord

unfoldable pub save : JobStore → JobRecord → JobStore
save jobs job = Dict.put jobs job.job_id job

unfoldable pub get : JobStore → String → Option JobRecord
get jobs job_id = Dict.get jobs job_id

unfoldable pub list : JobStore → List JobRecord
list jobs = Dict.values jobs

unfoldable pub clear : JobStore → ℕ × JobStore
clear jobs = (length jobs, [])
