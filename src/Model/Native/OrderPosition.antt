-- ===== src/Model/Native/OrderPosition.antt =====
-- The C struct OrderPosition and its functions in internal/native/order.go.
use pit_go.Base.{}
use pit_go.Model.Param.{NativePositionSide, TriBool, tri_not_set}

pub record NativeOrderPosition : Type 0 where
  pub position_side : NativePositionSide
  pub reduce_only : TriBool
  pub close_position : TriBool

unfoldable pub new : NativeOrderPosition
new = record {
  position_side = NativePositionSide.not_set;
  reduce_only = tri_not_set;
  close_position = tri_not_set;
}

unfoldable pub set_position_side : NativePositionSide → NativeOrderPosition → NativeOrderPosition
set_position_side v o = record o { position_side = v }

unfoldable pub unset_position_side : NativeOrderPosition → NativeOrderPosition
unset_position_side o = record o { position_side = NativePositionSide.not_set }

unfoldable pub set_reduce_only : TriBool → NativeOrderPosition → NativeOrderPosition
set_reduce_only v o = record o { reduce_only = v }

unfoldable pub unset_reduce_only : NativeOrderPosition → NativeOrderPosition
unset_reduce_only o = record o { reduce_only = tri_not_set }

unfoldable pub set_close_position : TriBool → NativeOrderPosition → NativeOrderPosition
set_close_position v o = record o { close_position = v }

unfoldable pub unset_close_position : NativeOrderPosition → NativeOrderPosition
unset_close_position o = record o { close_position = tri_not_set }
