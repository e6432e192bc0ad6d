-- ===== src/Tests/Phases.antt =====
-- The life of a CR in the small cluster.
use authorino_operator.Prelude.{All, refl}
use authorino_operator.Controller.Preflight.{listener_first}
use authorino_operator.Controller.{reconcile_instance}
use authorino_operator.Controller.Phases.{Finalizers, Legal, calls-reconcile_instance-Legal}
use authorino_operator.Tests.Fixtures.{cluster, cr_key, ctx, deleted_cr, start}
use authorino_operator.Tests.Flows.{adds, removes}

cluster-Finalizers : Finalizers cluster
cluster-Finalizers = record {
  adds = adds;
  add_keeps = λ a f. refl;
  removes = removes;
  remove_keeps = λ a f. refl;
}

calls-reconcile_instance-Legal_example :
    All
      (Legal cluster deleted_cr)
      (reconcile_instance cluster ctx listener_first cr_key deleted_cr start).1.calls
calls-reconcile_instance-Legal_example =
    calls-reconcile_instance-Legal cluster deleted_cr cluster-Finalizers ctx listener_first cr_key
      start tt
