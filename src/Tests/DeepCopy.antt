-- ===== src/Tests/DeepCopy.antt =====
-- A stored list with one `Authorino`, and its deep copy.
use authorino_operator.Prelude.{
  ℕ, suc, refl, pos, false, none, some, List, [], ◌∷◌, arith, ◌<◌, All,
}
use authorino_operator.Kube.{KeyToPath, ObjectMeta, Time, named}
use authorino_operator.Api.{Authorino}
use authorino_operator.Api.DeepCopy.{
  At, Copier, Pointer, addresses_boxed, addresses_each, addresses_items, boxed,
}
use authorino_operator.Api.DeepCopy.Laws.{Ascends, Copies}
use authorino_operator.Api.DeepCopy.Object.{AuthorinoList, StoredAuthorino, authorino_list_copier}
use authorino_operator.Api.DeepCopy.Separate.{SharesNothing, deep_copy-SharesNothing}

-- values without a pointer
abbrev plain : {A : Type 0} → Copier A A
plain = record { read = λ x. x; addresses = λ x. []; copy = λ x next. (x, next) }

plain-Copies : {A : Type 0} → Copies (plain {A = A})
plain-Copies x next = (refl, Ascends.ends (omega arith))

-- an object's metadata, with one address
abbrev meta : Copier (At ObjectMeta) ObjectMeta
meta = record {
  read = λ x. x.value;
  addresses = λ x. x.address ∷ [];
  copy = λ x next. (record { address = next; value = x.value }, suc next);
}

meta-Copies : Copies meta
meta-Copies x next = (refl, Ascends.takes (omega arith) (Ascends.ends (omega arith)))

abbrev Stored : Type 0
Stored = StoredAuthorino (At ObjectMeta) KeyToPath Time

abbrev stored : Stored
stored = record {
  meta = record { address = 2; value = named "auth" "apps" none };
  spec = record {
    image = "";
    image_pull_policy = "";
    replicas = some (record { address = 3; value = pos 2 });
    volumes = record { items = none; default_mode = none };
    log_level = "";
    log_mode = "";
    cluster_wide = false;
    listener = record {
      port = none;
      ports = record { grpc = some (record { address = 4; value = pos 50051 }); http = none };
      tls = record {
        enabled = none;
        cert_secret = none;
        min_version = "";
        max_version = "";
        cipher_suites = none;
      };
      timeout = none;
      max_http_request_body_size = none;
    };
    oidc_server = record {
      port = none;
      tls = record {
        enabled = none;
        cert_secret = none;
        min_version = "";
        max_version = "";
        cipher_suites = none;
      };
    };
    auth_config_label_selectors = "";
    secret_label_selectors = "";
    superseding_host_subsets = false;
    evaluator_cache_size = none;
    tracing = record {
      endpoint = "";
      tags = some (record { address = 5; value = ("env", "test") ∷ [] });
      insecure = false;
    };
    metrics = record { port = none; deep_metrics_enabled = none };
    healthz = record { port = none };
  };
  status = record { conditions = none };
}

abbrev listed : Pointer (AuthorinoList ℕ (Pointer (List Stored)))
listed = some (record {
  address = 0;
  value = record { list_meta = 7; items = some (record { address = 1; value = stored ∷ [] }) };
})

abbrev lists : Copier (AuthorinoList ℕ (Pointer (List Stored))) (AuthorinoList ℕ (List Authorino))
lists = authorino_list_copier plain meta plain plain

old : All (λ a. a < 6) ((boxed lists).addresses listed)
unfolding addresses_boxed addresses_items addresses_each
old = (omega arith, (omega arith, (omega arith, (omega arith, (omega arith, (omega arith, tt))))))

deep_copy-SharesNothing_example : SharesNothing (boxed lists) listed 6
deep_copy-SharesNothing_example =
    deep_copy-SharesNothing plain meta plain plain plain-Copies meta-Copies plain-Copies
      plain-Copies listed 6 old
