-- ===== src/Konflux/Orders.antt =====
-- The two orders of Reconcile of operator/internal/controller/konflux/konflux_controller.go: that of
-- the applies and that of the statuses.
use konflux_ci.Prelude.{Bool, ◌≡◌, all, arith}
use konflux_ci.Konflux.Defs.{KonfluxSpec, SubCr, apply_order, status_order}

-- The status is collected of exactly the sub-resources that are applied: whatever the spec
-- enables, a test holds of all of the one order exactly if it holds of all of the other.
pub orders_agree :
    (spec : KonfluxSpec) (test : SubCr → Bool)
    → all test (apply_order spec) ≡ all test (status_order spec)
unfolding apply_order status_order
orders_agree spec test = ground arith
