-- ===== src/Controller/StatusUpdates/Settles.antt =====
-- A status update that has nothing new to say writes nothing.
use optipod.Prelude.{◌≡◌}
use optipod.Platform.{Platform}
use optipod.Api.Types.{Condition}

-- The same condition but for the time of its transition.
pub record SaysTheSame (c d : Condition) : Type 0 where
  pub of_type : c.type ≡ d.type
  pub of_status : c.status ≡ d.status
  pub of_reason : c.reason ≡ d.reason
  pub of_message : c.message ≡ d.message
