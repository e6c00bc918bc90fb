-- ===== src/Engine/Scheduling/Order.antt =====
-- Which devices are started, and in which order.
use mathlib.Core.List.{append_assoc, map-append}
use nw_edit.Prelude.{◌≡◌, refl, sym, ◌∙◌, ◌⊎◌, inl, inr, List, [], ◌∷◌, ◌++◌, map}
use nw_edit.Domain.Models.{DeviceTarget}
use nw_edit.Engine.Env.{Setup}
use nw_edit.Engine.Run.{Job, Flight, World, Run, launch, record_result}
use nw_edit.Engine.Steps.{Step, observe, begin, give_up, drop_cancelled, land, ◌⟶*◌, here, next}

abbrev pub started : Run → List DeviceTarget
started run = map (λ (f : Flight). f.device) run.submitted

-- The devices started so far and then `left` are all of them, and `left` is what is pending unless
-- it was dropped.
pub record InOrder (all : List DeviceTarget) (run : Run) : Type 0 where
  pub left : List DeviceTarget
  pub split : started run ++ left ≡ all
  pub waiting : (run.pending ≡ left) ⊎ (run.pending ≡ [])

module _ (setup : Setup) (world : World) (job : Job) (all : List DeviceTarget) where
  Step-InOrder :
      {run after : Run} → Step setup world job run after → InOrder all run → InOrder all after
  unfolding launch record_result
  Step-InOrder (observe clock later e) h =
      rw e (record { left = h.left; split = h.split; waiting = h.waiting })
  Step-InOrder (begin device rest p room good look last clear e) h = elim h.waiting [
    | inr w ↦ cc
    | inl w ↦
        let is_left : h.left ≡ device ∷ rest = sym w ∙ p in
        rw e (record {
          left = rest;
          split = simp (map-append, append_assoc) (rw is_left at h.split);
          waiting = inl refl;
        })
  ]
  Step-InOrder (give_up bad e) h =
      rw e (record { left = h.left; split = h.split; waiting = inr refl })
  Step-InOrder (drop_cancelled seen e) h =
      rw e (record { left = h.left; split = h.split; waiting = inr refl })
  Step-InOrder (land place flight flights result f o e) h =
      rw e (record { left = h.left; split = h.split; waiting = h.waiting })

  -- If the devices started so far and those pending are all of them in order, they stay so through
  -- every sequence of moves of the loop, until what is pending is dropped.
  pub moves-InOrder :
      {start run : Run} → InOrder all start → ◌⟶*◌ setup world job start run → InOrder all run
  moves-InOrder h here = h
  moves-InOrder h (next r s) = Step-InOrder s (moves-InOrder h r)
