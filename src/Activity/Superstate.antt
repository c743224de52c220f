-- ===== src/Activity/Superstate.antt =====
-- The three superstates of the life cycle: `update_super_state_lcsm_flags`
-- (five_c/src/activity.c).
use ecs_private.Common.{◌≡◌, ◌↔◌, false, ◌&&◌, ◌||◌, arith}
use ecs_private.Lcsm.{State, done}
use ecs_private.Activity.{LcsmFlags, update_super_state_lcsm_flags}

-- In every state the flags of deployment and of activity exclude each other, a ready activity is
-- active, and an activity that is in neither of the two superstates is done.
pub superstates_exclusive :
    (flags : LcsmFlags) (s : State)
    → let f = update_super_state_lcsm_flags flags s in
      ((f.deployment && f.active) ≡ false)
      × ((f.ready && f.active) ≡ f.ready)
      × (((f.deployment || f.active) ≡ false) ↔ (s ≡ done))
unfolding update_super_state_lcsm_flags
superstates_exclusive flags s = grind arith
