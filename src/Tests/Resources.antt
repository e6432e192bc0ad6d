-- ===== src/Tests/Resources.antt =====
-- The resources of an instance: maps, names, bindings, pods and arguments.
use authorino_operator.Prelude.{
  arith, ◌≡◌, ◌≢◌, ◌↔◌, ◌≤◌, refl, len, String, true, false, some, [], ◌∷◌, All, IsIn, arith,
}
use authorino_operator.Kube.{Deployment, Subject, lookup}
use authorino_operator.Resources.Maps.{map_update_needed, merge_map_string_string}
use authorino_operator.Resources.Maps.Laws.{first_of, merged, merge_map_string_string_lem}
use authorino_operator.Resources.Names.{
  authorino_cluster_role_binding_name, max_name_len, truncated_name,
}
use authorino_operator.Resources.Names.Laws.{len-authorino_cluster_role_binding_name-le}
use authorino_operator.Resources.Names.Unique.{name-ne, name-injective, truncated_name_collides}
use authorino_operator.Resources.Rbac.{subject_included}
use authorino_operator.Resources.Rbac.Laws.{Agrees, subject_included_iff}
use authorino_operator.Resources.Deployments.{get_tls_volume, get_tls_volume_mount}
use authorino_operator.Reconcilers.Consts.{
  authorino_tls_cert_volume_name, default_tls_cert_path, default_tls_cert_key_path,
}
use authorino_operator.Reconcilers.Outcome.{Returns}
use authorino_operator.Api.{Authorino}
use authorino_operator.Reconcilers.Args.{build_authorino_args, compatible_args}
use authorino_operator.Reconcilers.Args.Tags.{tags_in, tags_in-build_authorino_args}
use authorino_operator.Reconcilers.Args.Laws.{compatible_args_lem, kept_args}
use authorino_operator.Reconcilers.Pod.{
  Mounts, authorino_deployment, authorino_image, authorino_mounts, deployment_with, mount_tls,
}
use authorino_operator.Reconcilers.Pod.Laws.{
  AreDeclared, IsBuildable, authorino_deployment-Returns_iff, authorino_mounts-AreDeclared,
}
use authorino_operator.Reconcilers.Permissions.{
  cluster_role_binding_of, role_binding_of, service_account_of,
}
use authorino_operator.Reconcilers.Permissions.Cleanup.{own_subject}
use authorino_operator.Reconcilers.Components.{desired_services}
use authorino_operator.Reconcilers.Wiring.{
  Selects, authorino_deployment-BelongsTo, bindings-subject_included, bound,
}
use authorino_operator.Tests.Fixtures.{cluster, cr, ctx, process}

len-authorino_cluster_role_binding_name-le_example :
    len (authorino_cluster_role_binding_name cluster.sum256 "apps" "auth" "manager") ≤ max_name_len
len-authorino_cluster_role_binding_name-le_example =
    len-authorino_cluster_role_binding_name-le cluster.sum256 "apps" "auth" "manager" (omega arith)

-- a CR name that does not fit
abbrev long_name : String
long_name =
    "aaaaaaaaaaaaaaaaaaaaaaaaaaaaaaaaaaaaaaaaaaaaaaaaaaaaaaaaaaaaaaaaaaaaaaaaaaaaaaaaaaaaaaaaaaaaaaaaaaaaaaaaaaaaaaaaaaaaaaaaaaaaaaaaaaaaaaaaaaaaaaaaaaaaaaaaaaaaaaaaaaaaaaaaaaaaaaaaaaaaaaaaaaaaaaaaaaaaaaaaaaaaaaaaaaaaaaaaaaaaaaaaaaaaaaaaaaaaaaaaaaaaaaaaaa"

name-ne_example :
    authorino_cluster_role_binding_name cluster.sum256 "ab" "c" "manager"
    ≢ authorino_cluster_role_binding_name cluster.sum256 "a" "bc" "manager"
name-ne_example =
    name-ne cluster.sum256 "ab" "a" "c" "bc" "manager" "manager" (omega arith, (omega arith, tt))
      (omega arith, tt) (λ e. cc e)

name-injective_example : (◌≡◌ {A = String} "ab" "ab") × (◌≡◌ {A = String} "c" "c")
name-injective_example =
    name-injective cluster.sum256 "ab" "ab" "c" "c" "manager" (omega arith, (omega arith, tt))
      (omega arith, (omega arith, tt)) (omega arith) (omega arith) refl

truncated_name_collides_example :
    (truncated_name cluster.sum256 "apps" long_name "manager" ≢ long_name)
    × (authorino_cluster_role_binding_name cluster.sum256 "apps"
          (truncated_name cluster.sum256 "apps" long_name "manager")
          "manager"
        ≡ authorino_cluster_role_binding_name cluster.sum256 "apps" long_name "manager")
truncated_name_collides_example =
    truncated_name_collides cluster.sum256 "apps" long_name "manager" (omega arith) (omega arith)

merge_map_string_string_lem_example :
    (merge_map_string_string (some (some (("a", "1") ∷ []))) (some (("a", "2") ∷ ("b", "3") ∷ []))
      ≡ (
        some (some (merged (some (("a", "1") ∷ [])) (some (("a", "2") ∷ ("b", "3") ∷ [])))),
        map_update_needed (some (("a", "1") ∷ [])) (some (("a", "2") ∷ ("b", "3") ∷ [])),
      ))
    × ((j : String)
        → lookup j (merged (some (("a", "1") ∷ [])) (some (("a", "2") ∷ ("b", "3") ∷ [])))
          ≡ first_of (lookup j (("a", "2") ∷ ("b", "3") ∷ [])) (lookup j (("a", "1") ∷ [])))
    × (map_update_needed
          (some (merged (some (("a", "1") ∷ [])) (some (("a", "2") ∷ ("b", "3") ∷ []))))
          (some (("a", "2") ∷ ("b", "3") ∷ []))
        ≡ false)
unfolding lookup
merge_map_string_string_lem_example =
    merge_map_string_string_lem (some (("a", "1") ∷ [])) (some (("a", "2") ∷ ("b", "3") ∷ []))
      (refl, (refl, tt))

subject_included_iff_example :
    subject_included (own_subject cr ∷ []) (own_subject cr) ≡ true
    ↔ ((s : Subject) × IsIn s (own_subject cr ∷ []) × Agrees s (own_subject cr))
subject_included_iff_example = subject_included_iff (own_subject cr ∷ []) (own_subject cr)

bindings-subject_included_example :
    (subject_included
        (bound (cluster_role_binding_of cluster ctx cr "manager" "manager-role"))
        (own_subject cr)
      ≡ true)
    × (subject_included
          (bound (role_binding_of cluster ctx cr "manager" "Role" "manager-role"))
          (own_subject cr)
        ≡ true)
bindings-subject_included_example =
    bindings-subject_included cluster ctx cr "manager" "Role" "manager-role"

compatible_args_lem_example : compatible_args (build_authorino_args cr) ≡ kept_args cr
compatible_args_lem_example = compatible_args_lem cr

authorino_deployment-Returns_iff_example :
    Returns (authorino_deployment process cr) ↔ IsBuildable process cr
authorino_deployment-Returns_iff_example = authorino_deployment-Returns_iff process cr

-- the volumes and mounts of the CR
abbrev mounts : Mounts
mounts = (
  get_tls_volume authorino_tls_cert_volume_name "cert" ∷ [],
  get_tls_volume_mount authorino_tls_cert_volume_name default_tls_cert_path
      default_tls_cert_key_path,
)

authorino_mounts-AreDeclared_example : AreDeclared mounts
unfolding authorino_mounts mount_tls
authorino_mounts-AreDeclared_example = authorino_mounts-AreDeclared cr mounts refl

abbrev deployment : Deployment
deployment = deployment_with cr (authorino_image process cr) mounts

authorino_deployment-BelongsTo_example :
    All (Selects deployment) (desired_services cr)
    × (deployment.match_labels ≡ deployment.template_labels)
    × (deployment.service_account_name ≡ (service_account_of cr).meta.name)
    × (deployment.meta.namespace ≡ (service_account_of cr).meta.namespace)
unfolding authorino_deployment authorino_image authorino_mounts mount_tls
authorino_deployment-BelongsTo_example = authorino_deployment-BelongsTo process cr deployment refl

-- the CR with a tracing endpoint and two tags
abbrev traced : Authorino
traced = record cr {
  spec = record cr.spec {
    tracing = record {
      endpoint = "rpc://tracing:4317";
      tags = some (("env", "prod") ∷ ("zone", "a") ∷ []);
      insecure = true;
    };
  };
}

tags_in-build_authorino_args_example :
    tags_in (build_authorino_args traced)
    ≡ "--tracing-service-tag=env=prod" ∷ "--tracing-service-tag=zone=a" ∷ []
tags_in-build_authorino_args_example = tags_in-build_authorino_args traced
