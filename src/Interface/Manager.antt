-- ===== src/Interface/Manager.antt =====
-- What the program gives controller-runtime's builder of a controller, as `Complete` finds it.
use bmc_secret_operator.Base.{String, Bool, Option, List}
use bmc_secret_operator.Base.Dict.{Dict}
use bmc_secret_operator.Api.Metal.{Bmc}

pub record Controller : Type 0 where
  -- the kind of `For`
  pub reconciled : String
  -- `WithEventFilter`: a test of an object's labels, for the events of every kind
  pub event_filter : Option (Option (Dict String) → Bool)
  -- `Watches(&BMC{}, EnqueueRequestsFromMapFunc(…))`: the names that a BMC's event asks for
  pub watched_bmcs : Option (Bmc → List String)
