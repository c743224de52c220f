-- ===== src/Activity/Tests.antt =====
-- The theorems on activities at concrete inputs.
use ecs_private.Common.{true, false}
use ecs_private.Activity.{LcsmFlags}

abbrev flags : LcsmFlags
flags = record {
  creation_complete = true;
  creation_failed = false;
  resource_configuration_complete = true;
  resource_configuration_failed = false;
  capability_configuration_complete = true;
  capability_configuration_failed = false;
  running_complete = false;
  deletion_complete = false;
  active = false;
  ready = false;
  deployment = true;
}
