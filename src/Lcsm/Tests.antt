-- ===== src/Lcsm/Tests.antt =====
-- Runs of the life-cycle machine, and the theorems on it at concrete inputs.
use ecs_private.Common.{◌≡◌, refl, List, [], ◌∷◌, some, arith}
use ecs_private.Lcsm.{
  State, creation, capability_configuration, cleaning, Event, create, created, cleaned,
  resources_configured, capabilities_configured, start, stop, Ret, ret_ok, ret_fail, next,
}
use ecs_private.Lcsm.Diagram.{run, Within, missing, running_needs}
use ecs_private.Lcsm.Refine.{fire, update, calls, queue_calls, machine, calls_refine}

abbrev to_running : List Event
to_running = created ∷ resources_configured ∷ capabilities_configured ∷ start ∷ []

-- A sixth event does not fit in the queue.
full_queue :
    (λ (r : List Ret × State × List Event). r.0)
      (queue_calls
        (fire created ∷ fire stop ∷ fire stop ∷ fire stop ∷ fire stop ∷ fire start ∷ [])
        creation
        [])
    ≡ ret_ok ∷ ret_ok ∷ ret_ok ∷ ret_ok ∷ ret_ok ∷ ret_fail ∷ []
unfolding queue_calls
full_queue = refl

calls_refine_example :
    calls (fire created ∷ fire resources_configured ∷ update ∷ []) (machine creation [])
    ≡ some (ret_ok ∷ ret_ok ∷ [], machine capability_configuration [])
unfolding queue_calls run next
calls_refine_example =
    calls_refine (fire created ∷ fire resources_configured ∷ update ∷ []) creation [] (omega arith)

-- A life cycle that starts in the cleaning and is created again.
abbrev from_cleaning : List Event
from_cleaning = cleaned ∷ create ∷ to_running

running_needs_example : Within (missing cleaning) from_cleaning
unfolding run next
running_needs_example = running_needs cleaning from_cleaning refl
