-- ===== src/Proprioception/Waiting.antt =====
-- A run of the computation while the platform is registered already (mobile_platform_proprioception/src/activity/activity.c and
-- the macro `REGISTER_AND_GET_VARIABLE_IN_TABLE`).
use ecs_private.Common.{
  ℕ, ◌≡◌, refl, sym, ap, ◌∙◌, Option, none, some, Bool, true, false, eq_of_some, >>=-eq-some, ◌>>=◌,
  arith, subst, Option-cases, All, inl, inr,
}
use ecs_private.Common.HashMap.{HashMap}
use ecs_private.Registration.{
  HashResult, entry_already_exists, SemanticId, VariableEntry, register_and_get_variable_in_table,
  make_sid, find_variable_entry,
}
use ecs_private.ReadFile.{Status, failed, succeeded}
use ecs_private.ReadFile.Kept.{Keeps, read_from_input_file-part}
use ecs_private.Proprioception.{Setting, Params, Coordination, Continuous, World}
use ecs_private.Proprioception.Behaviour.{set_resource_complete, set_params}
use ecs_private.Proprioception.Resources.{
  resource_configuration_compute, get_drive, get_platform, get_odometry, get_variables, clear_yaw,
  when_read, load_configuration_file, register_and_get, was_added, odometry_registered, param_array,
}

module _ (setting : Setting) where
  open setting use {variable_map}

  abbrev pub deleting : World setting → Option ℕ
  deleting w = w.activity.coordination_state >>= λ c. c.deleting_request

  abbrev pub complete : World setting → Bool
  complete w = w.activity.lcsm_flags.resource_configuration_complete

  abbrev pub platform_key : SemanticId
  platform_key = record { model = "platform"; meta_model = "delta_tricycle_t" }

  abbrev pub registered : World setting → Option VariableEntry
  registered w = HashMap.find variable_map w.variables platform_key

  -- The activity holds no pointer to the platform, and no request to delete it is made.
  pub record Waiting (w : World setting) : Type 0 where
    pub entry : VariableEntry
    pub request : ℕ
    pub no_pointer : (w.activity.params >>= λ p. some p.rt_platform) ≡ some none
    pub taken : registered w ≡ some entry
    pub request_at : deleting w ≡ some request
    pub no_request : w.flags request ≡ false

  abbrev Waits : (World setting → Option (World setting)) → Type 0
  Waits f = (w w' : World setting) → Waiting w → f w ≡ some w' → Waiting w'

  wait_drive : Waits (get_drive setting)
  unfolding get_drive
  wait_drive w w' h e = record {
    entry = h.entry;
    request = h.request;
    no_pointer = ground (arith, h.no_pointer);
    taken = ground (arith, h.taken);
    request_at = ground (arith, h.request_at);
    no_request = ground (arith, h.no_request);
  }

  -- The name is taken: nothing is added, and the pointers stay.
  already_exists :
      (w : World setting) (entry : VariableEntry) (p m : Option ℕ)
      → registered w ≡ some entry
      → register_and_get setting w "platform" "delta_tricycle_t" p m
        ≡ some ((entry_already_exists, (p, m)), w)
  unfolding register_and_get register_and_get_variable_in_table make_sid find_variable_entry
  already_exists w entry p m taken = rw taken refl

  -- The registration of the odometry leaves the platform's entry alone.
  other_name :
      (w : World setting) (entry : VariableEntry)
      → registered w ≡ some entry
      → (p m : Option ℕ) (r : (HashResult × (Option ℕ × Option ℕ)) × World setting)
      → register_and_get setting w "odometry" "odometry2d_t" p m ≡ some r
      → (registered r.1 ≡ some entry) × (r.1.flags ≡ w.flags) × (r.1.activity ≡ w.activity)
  unfolding register_and_get register_and_get_variable_in_table make_sid find_variable_entry
  other_name w entry taken p m r e = (
    grind (arith, e, taken, HashMap.find-add variable_map w.variables),
    ground arith,
    ground arith,
  )

  wait_platform :
      (w w' : World setting)
      → Waiting w
      → get_platform setting w ≡ some w'
      → Waiting w' × (complete w' ≡ false)
  unfolding get_platform was_added
  wait_platform w w' h e = (
    record {
      entry = h.entry;
      request = h.request;
      no_pointer = grind (arith, e, h.no_pointer, h.taken, already_exists w h.entry);
      taken = grind (arith, e, h.no_pointer, h.taken, already_exists w h.entry);
      request_at = grind (arith, e, h.no_pointer, h.request_at, h.taken, already_exists w h.entry);
      no_request = grind (arith, e, h.no_pointer, h.no_request, h.taken, already_exists w h.entry);
    },
    grind (arith, e, h.no_pointer, h.taken, already_exists w h.entry),
  )

  wait_registered :
      (w w' : World setting) (p : Params setting) (c : Coordination setting)
      (k : Continuous setting) (r : (HashResult × (Option ℕ × Option ℕ)) × World setting)
      → (h : Waiting w) → w.activity.params ≡ some p
      → w.activity.coordination_state ≡ some c
      → (registered r.1 ≡ some h.entry) × (r.1.flags ≡ w.flags) × (r.1.activity ≡ w.activity)
      → odometry_registered setting p c k r ≡ some w'
      → Waiting w' × (complete w ≡ false → complete w' ≡ false)
  unfolding odometry_registered
  wait_registered w w' p c k r h at_p at_c (found, same_flags, same) e = (
    record {
      entry = h.entry;
      request = h.request;
      no_pointer = ground (arith, h.no_pointer);
      taken = ground (arith, found);
      request_at = ground (arith, h.request_at);
      no_request = ground (arith, h.no_request);
    },
    λ f. ground (arith, f, same),
  )

  wait_odometry :
      (w w' : World setting)
      → Waiting w
      → get_odometry setting w ≡ some w'
      → Waiting w' × (complete w ≡ false → complete w' ≡ false)
  unfolding get_odometry
  wait_odometry w w' h e =
      let p = >>=-eq-some w.activity.params _ e in
      let c = >>=-eq-some w.activity.coordination_state _ p.2 in
      let k = >>=-eq-some w.activity.continuous _ c.2 in
      elim (Option-cases p.0.rt_odometry) [
        | inr (a, has) ↦
            let same = eq_of_some (rw has at k.2) in
            (subst Waiting same h, λ f. ap complete (sym same) ∙ f)
        | inl none_yet ↦
            let t = >>=-eq-some w.activity.table _ (rw none_yet at k.2) in
            let r =
              >>=-eq-some
                (register_and_get setting w "odometry" "odometry2d_t" p.0.rt_odometry
                  c.0.odometry_lock)
                _ t.2 in
            wait_registered w w' p.0 c.0 k.0 r.0 h p.1 c.1
              (other_name w h.entry h.taken p.0.rt_odometry c.0.odometry_lock r.0 r.1) r.2
      ]

  -- The flag is set first, and cleared again by the registration.
  wait_variables :
      (w w' : World setting)
      → Waiting w
      → get_variables setting w ≡ some w'
      → Waiting w' × (complete w' ≡ false)
  unfolding get_variables
  wait_variables w w' h e =
      let a = >>=-eq-some (get_drive setting (set_resource_complete setting w true)) _ e in
      let b = >>=-eq-some (get_platform setting a.0) _ a.2 in
      let flagged : Waiting (set_resource_complete setting w true) = record {
        entry = h.entry;
        request = h.request;
        no_pointer = h.no_pointer;
        taken = h.taken;
        request_at = h.request_at;
        no_request = h.no_request;
      } in
      let drive = wait_drive (set_resource_complete setting w true) a.0 flagged a.1 in
      let (waiting, cleared) = wait_platform a.0 b.0 drive b.1 in
      let (still, keeps) = wait_odometry b.0 w' waiting b.2 in (still, keeps cleared)

  wait_read :
      (status : Status) (w w' : World setting)
      → Waiting w
      → complete w ≡ false
      → when_read setting status w ≡ some w'
      → Waiting w' × (complete w' ≡ false)
  wait_read failed w w' h f e =
      (subst Waiting (eq_of_some e) h, ap complete (sym (eq_of_some e)) ∙ f)
  wait_read succeeded w w' h f e = wait_variables w w' h e

  -- No parameter of the file is written to the pointer.
  params_kept :
      All (Keeps setting.cjson (λ (p : Params setting). p.rt_platform)) (param_array setting)
  params_kept = (
    λ v s s' e. ground arith,
    (
      λ v s s' e. ground arith,
      (
        λ v s s' e. ground arith,
        (λ v s s' e. ground arith, (λ v s s' e. ground arith, (λ v s s' e. ground arith, tt))),
      ),
    ),
  )

  load-rt_platform :
      (p : Params setting) (r : Status × Params setting)
      → load_configuration_file setting p.configuration_file p ≡ some r
      → r.1.rt_platform ≡ p.rt_platform
  unfolding load_configuration_file
  load-rt_platform p r e =
      read_from_input_file-part setting.cjson (λ (p : Params setting). p.rt_platform)
        p.configuration_file (param_array setting) setting.unset p r params_kept e

  cleared_yaw :
      (w w' : World setting)
      → Waiting w
      → complete w ≡ false
      → clear_yaw setting w ≡ some w'
      → Waiting w' × (complete w' ≡ false)
  unfolding clear_yaw
  cleared_yaw w w' h f e = (
    record {
      entry = h.entry;
      request = h.request;
      no_pointer = ground (arith, h.no_pointer);
      taken = ground (arith, h.taken);
      request_at = ground (arith, h.request_at);
      no_request = ground (arith, h.no_request);
    },
    ground (arith, f),
  )

  pub wait_compute :
      (w w' : World setting)
      → Waiting w
      → complete w ≡ false
      → resource_configuration_compute setting w ≡ some w'
      → Waiting w' × (complete w' ≡ false)
  unfolding resource_configuration_compute
  wait_compute w w' h f e =
      let p = >>=-eq-some w.activity.params _ e in
      let r = >>=-eq-some (load_configuration_file setting p.0.configuration_file p.0) _ p.2 in
      let v = >>=-eq-some (when_read setting r.0.0 (set_params setting w r.0.1)) _ r.2 in
      let loaded : Waiting (set_params setting w r.0.1) = record {
        entry = h.entry;
        request = h.request;
        no_pointer =
            ap some (load-rt_platform p.0 r.0 r.1)
            ∙ ap (λ m. m >>= λ q. some q.rt_platform) (sym p.1)
            ∙ h.no_pointer;
        taken = h.taken;
        request_at = h.request_at;
        no_request = h.no_request;
      } in
      let (waiting, cleared) = wait_read r.0.0 (set_params setting w r.0.1) v.0 loaded f v.1 in
      cleared_yaw v.0 w' waiting cleared v.2
