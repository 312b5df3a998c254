-- ===== src/Policy/Errors.antt =====
-- The errors of internal/policy, one constructor for each message, with its arguments.
use sis.Base.{Str}

pub data Error : Type 0 where
  config_required : Error
  group_name_required : Error
  default_group_required : Error
  invalid_domain : Str → Str → Error
  in_schedule : Str → Str → Error → Error
  unknown_day : Str → Error
  days_required : Error
  bad_clock : Str → Error
  in_from in_to : Error → Error
  unknown_zone : Str → Error
