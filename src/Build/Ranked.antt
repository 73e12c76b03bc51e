-- ===== src/Build/Ranked.antt =====
-- The nodes that a built pool recommends.
use weronity_vpn.Prelude.Result.{Result}
