-- ===== src/Routing.antt =====
-- Routing keys: asyncengine/strategy.go.
use pit_go.Base.{ℕ, Bool, ◌&&◌, ◌==◌}

-- `routingKeyKind`.
pub data RoutingKeyKind : Type 0 where
  account account_group engine_wide exclusive : RoutingKeyKind

pub record RoutingKey : Type 0 where
  pub kind : RoutingKeyKind
  pub id : ℕ  -- uint64

-- Go's `==` on the kind, by its ordinal.
abbrev pub kind_ordinal : RoutingKeyKind → ℕ
kind_ordinal account = 0
kind_ordinal account_group = 1
kind_ordinal engine_wide = 2
kind_ordinal exclusive = 3

abbrev pub same_key : RoutingKey → RoutingKey → Bool
same_key a b = kind_ordinal a.kind == kind_ordinal b.kind && a.id == b.id

-- `accountRoutingKey`, and `groupRoutingKey`, `engineWideRoutingKey` of asyncengine/engine.go. The
-- argument is the native handle of the account or of the group.
abbrev pub account_routing_key : ℕ → RoutingKey
account_routing_key id = record { kind = account; id = id }

abbrev pub group_routing_key : ℕ → RoutingKey
group_routing_key id = record { kind = account_group; id = id }

abbrev pub engine_wide_routing_key : RoutingKey
engine_wide_routing_key = record { kind = engine_wide; id = 0 }

-- `exclusiveRoutingKey` of asyncengine/exclusive.go.
abbrev pub exclusive_routing_key : RoutingKey
exclusive_routing_key = record { kind = exclusive; id = 0 }
