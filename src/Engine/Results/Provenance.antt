-- ===== src/Engine/Results/Provenance.antt =====
-- Where the results of a run come from, and where the exception that ends it.
use nw_edit.Prelude.{ℕ, String, ◌≡◌, refl, subst, inl, inr, some, All}
use nw_edit.Result.{Error}
use nw_edit.Dict
use nw_edit.Domain.Models.{target_key, DeviceExecutionResult}
use nw_edit.Engine.Env.{raised, Setup}
use nw_edit.Engine.Run.{
  Job, World, Run, Ending, failure, launch, complete_as, record_result, take_out,
}
use nw_edit.Engine.Rounds.{conclude}
use nw_edit.Engine.RunJob.{run_job}
use nw_edit.Engine.Steps.{Step, observe, begin, give_up, drop_cancelled, land, ◌⟶*◌, here, next}
use nw_edit.Engine.Steps.Loop.{Ended, concluded, cancelled_end, crashed, out_of_fuel}
use nw_edit.Engine.Course.{
  IsFresh, Course, refused, canary_raised, canary_failed, canary_alone, fanned_out, run_job-Course,
}
use nw_edit.Engine.Results.Source.{
  All-put, All-get, Called, Source, stranger, flight_outcome-Source, flight_outcome-Called,
  canary-Source, canary-Called,
}

module _ (setup : Setup) (world : World) (job : Job) where
  abbrev SourceOf : String → DeviceExecutionResult → Type 0
  SourceOf = Source setup world job

  abbrev Sourced : Run → Type 0
  Sourced run =
      All (λ (entry : String × DeviceExecutionResult). SourceOf entry.0 entry.1)
        run.summary.device_results

  Step-Sourced : {run after : Run} → Step setup world job run after → Sourced run → Sourced after
  unfolding launch record_result
  Step-Sourced (observe clock later e) s = rw e s
  Step-Sourced (begin device rest p room good look last clear e) s = rw e s
  Step-Sourced (give_up bad e) s = rw e s
  Step-Sourced (drop_cancelled seen e) s = rw e s
  Step-Sourced {run} (land place flight flights result f o e) s =
      let taken = (take_out place flight flights).0 in
      rw e (
        All-put SourceOf run.summary.device_results (target_key taken.device) result s
          (flight_outcome-Source setup world job taken result o))

  moves-Sourced : {start run : Run} → ◌⟶*◌ setup world job start run → Sourced start → Sourced run
  moves-Sourced here s = s
  moves-Sourced (next r t) s = Step-Sourced t (moves-Sourced r s)

  Ended-Sourced :
      {start : Run} {out : Ending × Run}
      → Sourced start
      → Ended setup world job start out
      → Sourced out.1
  unfolding conclude complete_as
  Ended-Sourced s (concluded r p f e) = rw e (moves-Sourced r s)
  Ended-Sourced s (cancelled_end r e) = rw e (moves-Sourced r s)
  Ended-Sourced s (crashed error left flight told r e) = rw e (moves-Sourced r s)
  Ended-Sourced s (out_of_fuel r e) = rw e (moves-Sourced r s)

  fresh-Sourced :
      (run : Run) (result : DeviceExecutionResult)
      → IsFresh setup world job run
      → SourceOf (target_key job.canary) result
      → Sourced (record_result setup world job job.canary result run)
  unfolding record_result
  fresh-Sourced run result fresh source =
      All-put SourceOf run.summary.device_results _ result (rw fresh.none_recorded tt) source

  Course-Sourced : {out : Ending × Run} → Course setup world job out → Sourced out.1
  unfolding complete_as
  Course-Sourced (refused last status s none_started (inl nothing) quiet e) = rw (e, nothing) tt
  Course-Sourced (refused last status s none_started (inr one) quiet e) =
      rw (e, one) (stranger refl refl, tt)
  Course-Sourced (canary_raised last error fresh told e) = rw (e, fresh.none_recorded) tt
  Course-Sourced (canary_failed last result fresh told bad e) =
      rw e (fresh-Sourced last result fresh (canary-Source setup world job result told))
  Course-Sourced (canary_alone last result fresh told good alone e) =
      rw e (fresh-Sourced last result fresh (canary-Source setup world job result told))
  Course-Sourced (fanned_out last result fresh told good ended) =
      Ended-Sourced (fresh-Sourced last result fresh (canary-Source setup world job result told))
        ended

  -- However a run ends: each result in its summary is what the worker answered to a call for a
  -- device with the key, with the job's commands for the key, or it says that the cancel flag was seen
  -- set before an attempt, or that there was no attempt, or that the canary is none of the targets.
  pub recorded_results_are_real :
      (polls fuel : ℕ) (k : String) (result : DeviceExecutionResult)
      → Dict.get (run_job setup world job polls fuel).1.summary.device_results k ≡ some result
      → Source setup world job k result
  recorded_results_are_real polls fuel k result =
      All-get SourceOf (run_job setup world job polls fuel).1.summary.device_results k result
        (Course-Sourced (run_job-Course setup world job polls fuel))

  abbrev Blamed : Error → Type 0
  Blamed error = (k : String) × Called setup world job k (raised error)

  same_failure : {a b : Error} → failure a ≡ failure b → a ≡ b
  same_failure e = cc

  Ended-Blamed :
      {start : Run} {out : Ending × Run} (error : Error)
      → Ended setup world job start out
      → out.0 ≡ failure error
      → Blamed error
  unfolding conclude complete_as
  Ended-Blamed error (concluded r p f e) h = cc (rw e at h)
  Ended-Blamed error (cancelled_end r e) h = cc (rw e at h)
  Ended-Blamed error (crashed other left flight told r e) h =
      let same : other ≡ error = same_failure (rw e at h) in
      subst Blamed same
        (target_key flight.device, flight_outcome-Called setup world job flight other told)
  Ended-Blamed error (out_of_fuel r e) h = cc (rw e at h)

  Course-Blamed :
      {out : Ending × Run} (error : Error)
      → Course setup world job out
      → out.0 ≡ failure error
      → Blamed error
  unfolding complete_as
  Course-Blamed error (refused last status s none_started unrun quiet e) h = cc (rw e at h)
  Course-Blamed error (canary_raised last other fresh told e) h =
      let same : other ≡ error = same_failure (rw e at h) in
      subst Blamed same (target_key job.canary, canary-Called setup world job other told)
  Course-Blamed error (canary_failed last result fresh told bad e) h = cc (rw e at h)
  Course-Blamed error (canary_alone last result fresh told good alone e) h = cc (rw e at h)
  Course-Blamed error (fanned_out last result fresh told good ended) h = Ended-Blamed error ended h

  -- A run raises only what the worker raised, in a call for a device with the commands
  -- for its key.
  pub raised_by_worker :
      (polls fuel : ℕ) (error : Error)
      → (run_job setup world job polls fuel).0 ≡ failure error
      → (k : String) × Called setup world job k (raised error)
  raised_by_worker polls fuel error =
      Course-Blamed error (run_job-Course setup world job polls fuel)
