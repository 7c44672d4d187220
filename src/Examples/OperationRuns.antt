-- ===== src/Examples/OperationRuns.antt =====
-- A driver of asyncengine/engine.go that returns a handle together with rejects.
use pit_go.Base.{◌≡◌, refl, true, none, some, [], ◌∷◌}
use pit_go.Errors.{sentinel, driver_result}
use pit_go.Driver.{validate_driver_result}
use pit_go.Routing.{RoutingKey}
use pit_go.Chain.Run.{Handle, reservation}
use pit_go.Chain.Plan.{Order, extract_account_id}
use pit_go.Operations.{Course, ran, failure, operate, resolve_driver_result}
use pit_go.Operations.Accounting.{Accounted, taken_by, operate-Accounted}

abbrev given : Handle
given = record { kind = reservation; id = 4; live = true }

abbrev order : Order
order = record { operation = some (some 42) }

abbrev faulty : RoutingKey → Course
faulty key = ran (record { handle = some given; rejects = 9 ∷ []; err = none })

faulty-closes : operate order faulty ≡ failure (sentinel driver_result) (given ∷ [])
unfolding operate extract_account_id resolve_driver_result validate_driver_result
faulty-closes = refl

operate-Accounted_example :
    Accounted (taken_by faulty (extract_account_id order.operation)) (operate order faulty)
operate-Accounted_example = operate-Accounted order faulty
