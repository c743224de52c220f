-- ===== src/Proprioception/Taken.antt =====
-- A platform that is registered already (mobile_platform_proprioception/src/activity/activity.c and
-- the macro `REGISTER_AND_GET_VARIABLE_IN_TABLE`).
use ecs_private.Common.{ℕ, ◌≡◌, refl, sym, ap, ◌∙◌, some, true, false, arith, subst, ◌>>=◌}
use ecs_private.Lcsm.{resource_configuration}
use ecs_private.Proprioception.{Setting, World, proprioception_resource_configuration}
use ecs_private.Activity.{do_activity}
use ecs_private.Activity.Exchange.{Holds, pass_working}
use ecs_private.Activity.Exchange.Pass.{Reaches, start, pass, other}
use ecs_private.Schedule.Single.{single_schedule}
use ecs_private.Navigation.Lifecycle.{same_state}
use ecs_private.Proprioception.Lifecycle.{
  schedule_name, schedule_table, call, activity_resource_configuration,
  resource_configuration_configure,
}
use ecs_private.Proprioception.Exchanges.{main_of, keep_resource_configuration_compute}
use ecs_private.Proprioception.Invariant.{proprioception_activity}
use ecs_private.Proprioception.Behaviour.{resource_configuration_coordinate}
use ecs_private.Proprioception.Resources.{resource_configuration_compute}
use ecs_private.Proprioception.Waiting.{Waiting, deleting, registered, complete, wait_compute}

module _ (setting : Setting) where
  -- Without a request, and with the configuration not complete, the coordination does nothing.
  coordinate_idle :
      (w : World setting)
      → Waiting setting w
      → complete setting w ≡ false
      → resource_configuration_coordinate setting w ≡ some w
  unfolding resource_configuration_coordinate
  coordinate_idle w h f = grind (arith, f, h.request_at, h.no_request)

  -- In its own state the configuration does nothing.
  configure_idle :
      (w : World setting)
      → w.activity.lcsm.state ≡ resource_configuration
      → resource_configuration_configure setting w ≡ some w
  unfolding resource_configuration_configure same_state
  configure_idle w at =
      let same : same_state w.activity.lcsm.state resource_configuration ≡ true =
        ap (λ s. same_state s resource_configuration) at in
      rw same refl

  -- A run of the function of the state changes none of this.
  idle_run :
      (w w' : World setting)
      → w.activity.lcsm.state ≡ resource_configuration
      → Waiting setting w
      → complete setting w ≡ false
      → activity_resource_configuration setting w ≡ some w'
      → Waiting setting w'
        × (complete setting w' ≡ false)
        × (schedule_table setting w' ≡ schedule_table setting w)
        × (w'.activity.lcsm.state ≡ w.activity.lcsm.state)
  unfolding activity_resource_configuration
  idle_run w w' at h f e =
      let done : resource_configuration_compute setting w ≡ some w' =
        rw (coordinate_idle w h f, configure_idle w at) at e in
      let (waiting, cleared) = wait_compute setting w w' h f done in
      let (table, state) = keep_resource_configuration_compute setting w w' done in
      (waiting, cleared, table, state)

  abbrev pub HoldsResources : World setting → Type 0
  HoldsResources w =
      Holds setting.schedule_map (proprioception_activity setting)
        (single_schedule "resource_configuration" proprioception_resource_configuration)
        (schedule_table setting w)

  -- A step of the others that leaves the activity and the entry alone and asks for no deletion.
  abbrev pub Aside : World setting → World setting → Type 0
  Aside u v =
      (v.activity ≡ u.activity)
      × (registered setting v ≡ registered setting u)
      × ((request : ℕ) → deleting setting u ≡ some request → v.flags request ≡ false)

  -- In the configuration of its resources, with its schedule, and without the platform.
  abbrev IsStuck : World setting → Type 0
  IsStuck w =
      (w.activity.lcsm.state ≡ resource_configuration)
      × HoldsResources w
      × Waiting setting w
      × (complete setting w ≡ false)

  IsStuck-pass :
      (w w' : World setting)
      → IsStuck w
      → do_activity (call setting) (schedule_table setting) w ≡ some w'
      → IsStuck w'
  unfolding schedule_name call
  IsStuck-pass w w' (at, held, h, f) e =
      let one =
        pass_working setting.schedule_map (proprioception_activity setting) w
          "resource_configuration" (ap schedule_name at)
          (subst
            (λ s.
              Holds setting.schedule_map (proprioception_activity setting)
                (single_schedule "resource_configuration" (main_of s)) (schedule_table setting w))
            (sym at) held) in
      let ran : activity_resource_configuration setting w ≡ some w' =
        ap (λ s. call setting (main_of s) w) (sym at) ∙ sym one ∙ e in
      let (waiting, cleared, table, state) = idle_run w w' at h f ran in
      (
        state ∙ at,
        subst
            (Holds setting.schedule_map (proprioception_activity setting)
              (single_schedule "resource_configuration" proprioception_resource_configuration))
            (sym table) held,
        waiting,
        cleared,
      )

  IsStuck-Aside : (u v : World setting) → Aside u v → IsStuck u → IsStuck v
  IsStuck-Aside u v (same, entry, quiet) (at, held, h, f) = (
    ap (λ a. a.lcsm.state) same ∙ at,
    subst
        (Holds setting.schedule_map (proprioception_activity setting)
          (single_schedule "resource_configuration" proprioception_resource_configuration))
        (ap (λ a. a.schedule_table) (sym same)) held,
    record {
      entry = h.entry;
      request = h.request;
      no_pointer = ap (λ a. a.params >>= λ p. some p.rt_platform) same ∙ h.no_pointer;
      taken = entry ∙ h.taken;
      request_at = ap (λ a. a.coordination_state >>= λ c. c.deleting_request) same ∙ h.request_at;
      no_request = quiet h.request h.request_at;
    },
    ap (λ a. a.lcsm_flags.resource_configuration_complete) same ∙ f,
  )

  -- An activity in the configuration of its resources, with the schedule of this state alone in the
  -- eventloop and the configuration not complete, stays so while another entry has the name
  -- "platform", the activity has no pointer to it, and nobody asks for the deletion: whatever the
  -- number of passes, whatever the parameter file holds, and whatever the others do between the
  -- passes, as long as they leave the activity and that entry alone and ask for no deletion. The
  -- configuration is never complete.
  pub platform_taken :
      (w w' : World setting)
      → w.activity.lcsm.state ≡ resource_configuration
      → HoldsResources w
      → Waiting setting w
      → complete setting w ≡ false
      → Reaches setting.schedule_map (proprioception_activity setting) Aside w w'
      → (w'.activity.lcsm.state ≡ resource_configuration)
        × HoldsResources w'
        × Waiting setting w'
        × (complete setting w' ≡ false)
  platform_taken w w' at held h f start = (at, held, h, f)
  platform_taken w w' at held h f (pass {u} {v} r e) =
      IsStuck-pass u w' (platform_taken w u at held h f r) e
  platform_taken w w' at held h f (other {u} {v} r o) =
      IsStuck-Aside u w' o (platform_taken w u at held h f r)
