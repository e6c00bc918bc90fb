-- ===== src/Engine/Steps/Filling.antt =====
-- One turn of the inner loop that starts devices, by its four branches.
use nw_edit.Prelude.{◌≡◌, refl, inl, inr, true, false, ◌&&◌, List, ◌∷◌, [], leb, length, Bool-cases}
use nw_edit.Domain.Models.{DeviceTarget}
use nw_edit.Engine.Env.{Setup, tick, cancel_seen}
use nw_edit.Engine.Run.{Job, World, Run, has_failure, limit, launch, fill}

module _ (setup : Setup) (world : World) (job : Job) (device : DeviceTarget)
    (rest : List DeviceTarget) (run : Run) where
  abbrev pub now : Run
  now = record run { main = tick run.main }

  pub data Turn (out : Run) : Type 0 where
    full :
        leb (limit setup world job) (length run.in_flight) ≡ true
        → out ≡ record run { pending = device ∷ rest }
        → Turn out
    stopped :
        (job.config.stop_on_error && has_failure run.summary) ≡ true
        → out ≡ record run { pending = [] }
        → Turn out
    dropped :
        cancel_seen setup world.main run.main ≡ true
        → out ≡ record run { pending = []; main = tick run.main }
        → Turn out
    started :
        leb (limit setup world job) (length run.in_flight) ≡ false
        → (job.config.stop_on_error && has_failure run.summary) ≡ false
        → cancel_seen setup world.main run.main ≡ false
        → out ≡ fill setup world job rest (launch setup world job device now)
        → Turn out

  pub fill-Turn : Turn (fill setup world job (device ∷ rest) run)
  unfolding fill
  fill-Turn = elim (Bool-cases (leb (limit setup world job) (length run.in_flight))) [
    | inl no_room ↦ rw (no_room, fill) (full no_room refl)
    | inr room ↦
        rw (room, fill)
          (elim (Bool-cases (job.config.stop_on_error && has_failure run.summary)) [
            | inl bad ↦ rw bad (stopped bad refl)
            | inr good ↦ rw good (elim (Bool-cases (cancel_seen setup world.main run.main)) [
              | inl seen ↦ rw seen (dropped seen refl)
              | inr clear ↦ rw clear (started room good clear refl)
            ])
          ])
  ]
