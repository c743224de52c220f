-- ===== src/Lcsm/Diagram.antt =====
-- The transition diagram of the life cycle, apart from the queue (lcsm.c, `update_lcsm`).
use ecs_private.Common.{◌≡◌, refl, ap, ◌∙◌, ◌⊎◌, inl, inr, List, [], ◌∷◌, ◌++◌, arith}
use ecs_private.Lcsm.{
  State, creation, resource_configuration, capability_configuration, pausing, running, cleaning,
  done, Event, create, created, configure_resources, resources_configured, configure_capabilities,
  capabilities_configured, start, stop, cleanup_resources, cleaned, next,
}

-- The edges, read off the `switch`.
pub data Edge : State → Event → State → Type 0 where
  creating : Edge creation created resource_configuration
  configured : Edge resource_configuration resources_configured capability_configuration
  cleanup : Edge resource_configuration cleanup_resources cleaning
  capable : Edge capability_configuration capabilities_configured pausing
  reconfigure : Edge capability_configuration configure_resources resource_configuration
  starting : Edge pausing start running
  retune : Edge pausing configure_capabilities capability_configuration
  stopping : Edge running stop pausing
  cleaning_up : Edge cleaning cleaned done
  recreating : Edge done create creation

ruleset edges = (
  creating, configured, cleanup, capable, reconfigure, starting, retune, stopping, cleaning_up,
  recreating,
)

-- An event moves the machine along an edge of the diagram, or leaves it where it is.
pub next-Edge : (s : State) (e : Event) → Edge s e (next s e) ⊎ (next s e ≡ s)
unfolding next
next-Edge s e = grind (arith, edges)

-- Every edge is taken.
pub Edge-next : {s t : State} {e : Event} → Edge s e t → next s e ≡ t
unfolding next
Edge-next creating = refl
Edge-next configured = refl
Edge-next cleanup = refl
Edge-next capable = refl
Edge-next reconfigure = refl
Edge-next starting = refl
Edge-next retune = refl
Edge-next stopping = refl
Edge-next cleaning_up = refl
Edge-next recreating = refl

-- The state after a list of events.
unfoldable pub run : State → List Event → State
run s [] = s
run s (e ∷ es) = run (next s e) es

pub run-append : (s : State) (es fs : List Event) → run s (es ++ fs) ≡ run (run s es) fs
unfolding run
run-append s [] fs = refl
run-append s (e ∷ es) fs = run-append (next s e) es fs

-- `xs` is what is left of `ys` when some events are left out.
pub data Within : List Event → List Event → Type 0 where
  nothing : {ys : List Event} → Within [] ys
  keep : {x : Event} {xs ys : List Event} → Within xs ys → Within (x ∷ xs) (x ∷ ys)
  skip : {x : Event} {xs ys : List Event} → Within xs ys → Within xs (x ∷ ys)

pub Within-tail : {x : Event} {xs ys : List Event} → Within (x ∷ xs) ys → Within xs ys
Within-tail (keep w) = skip w
Within-tail (skip w) = skip (Within-tail w)

-- The events that still have to come before the machine runs.
abbrev pub missing : State → List Event
missing running = []
missing pausing = start ∷ []
missing capability_configuration = capabilities_configured ∷ start ∷ []
missing resource_configuration = resources_configured ∷ capabilities_configured ∷ start ∷ []
missing creation = created ∷ resources_configured ∷ capabilities_configured ∷ start ∷ []
missing done = create ∷ created ∷ resources_configured ∷ capabilities_configured ∷ start ∷ []
missing cleaning =
    cleaned ∷ create ∷ created ∷ resources_configured ∷ capabilities_configured ∷ start ∷ []

missing-Edge :
    {s t : State} {e : Event} {es : List Event}
    → Edge s e t
    → Within (missing t) es
    → Within (missing s) (e ∷ es)
missing-Edge creating w = keep w
missing-Edge configured w = keep w
missing-Edge cleanup w = skip (Within-tail (Within-tail (Within-tail w)))
missing-Edge capable w = keep w
missing-Edge reconfigure w = skip (Within-tail w)
missing-Edge starting w = keep w
missing-Edge retune w = skip (Within-tail w)
missing-Edge stopping w = nothing
missing-Edge cleaning_up w = keep w
missing-Edge recreating w = keep w

-- Whatever the state that the machine starts in, it comes to run only after all the events that this
-- state still misses, in their order: from `creation` after `created`, `resources_configured`,
-- `capabilities_configured` and `start`, from `done` after `create` before these, from `cleaning`
-- after `cleaned` before all of them, and from a state on the way after those that are left.
pub running_needs : (s : State) (es : List Event) → run s es ≡ running → Within (missing s) es
unfolding run
running_needs s [] h = rw h nothing
running_needs s (e ∷ es) h = elim (next-Edge s e) [
  | inl edge ↦ missing-Edge edge (running_needs (next s e) es h)
  | inr stays ↦ skip (rw stays at (running_needs (next s e) es h))
]

-- A way back to `creation`, and a way from there.
unfoldable pub home : State → List Event
home creation = []
home resource_configuration = cleanup_resources ∷ cleaned ∷ create ∷ []
home capability_configuration = configure_resources ∷ cleanup_resources ∷ cleaned ∷ create ∷ []
home pausing =
    configure_capabilities ∷ configure_resources ∷ cleanup_resources ∷ cleaned ∷ create ∷ []
home running =
    stop ∷ configure_capabilities ∷ configure_resources ∷ cleanup_resources ∷ cleaned ∷ create ∷ []
home cleaning = cleaned ∷ create ∷ []
home done = create ∷ []

unfoldable pub away : State → List Event
away creation = []
away resource_configuration = created ∷ []
away capability_configuration = created ∷ resources_configured ∷ []
away pausing = created ∷ resources_configured ∷ capabilities_configured ∷ []
away running = created ∷ resources_configured ∷ capabilities_configured ∷ start ∷ []
away cleaning = created ∷ cleanup_resources ∷ []
away done = created ∷ cleanup_resources ∷ cleaned ∷ []

run-home : (s : State) → run s (home s) ≡ creation
unfolding run next home
run-home creation = refl
run-home resource_configuration = refl
run-home capability_configuration = refl
run-home pausing = refl
run-home running = refl
run-home cleaning = refl
run-home done = refl

run-away : (t : State) → run creation (away t) ≡ t
unfolding run next away
run-away creation = refl
run-away resource_configuration = refl
run-away capability_configuration = refl
run-away pausing = refl
run-away running = refl
run-away cleaning = refl
run-away done = refl

-- From every state some events lead to every other: no state of the life cycle is a trap.
pub run_connected : (s t : State) → (es : List Event) × (run s es ≡ t)
run_connected s t = (
  home s ++ away t,
  run-append s (home s) (away t) ∙ ap (λ u. run u (away t)) (run-home s) ∙ run-away t,
)
