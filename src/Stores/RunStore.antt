-- ===== src/Stores/RunStore.antt =====
-- backend_v2/app/infrastructure/in_memory_run_store.py
use nw_edit.Prelude.{ℕ, String, Option, [], length}
use nw_edit.Dict
use nw_edit.Dict.{Dict}
use nw_edit.Domain.Models.{JobRunSummary}

abbrev pub RunStore : Type 0
RunStore = Dict JobRunSummary

unfoldable pub save : RunStore → JobRunSummary → RunStore
save runs summary = Dict.put runs summary.job_id summary

unfoldable pub get : RunStore → String → Option JobRunSummary
get runs job_id = Dict.get runs job_id

unfoldable pub clear : RunStore → ℕ × RunStore
clear runs = (length runs, [])
