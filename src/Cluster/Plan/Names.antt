-- ===== src/Cluster/Plan/Names.antt =====
-- api/v1/stroomcluster_types.go and internal/controller/stroomcluster.go: when the child objects of a
-- StroomCluster have names of their own.
use text.Mathlib.TextLemmas.{append-nil, append_assoc, append_cancel_left, append_cancel_right}
use stroom_k8s_operator.Base.{
  String, ◌<>◌, ◌≡◌, refl, sym, ap, ◌∙◌, ◌≢◌, List, [], ne_of_test, string_eq, ◌∷◌, All,
}
use stroom_k8s_operator.Api.StroomCluster.{
  StroomCluster, NodeSet, get_base_name, get_node_set_name, get_node_set_headless_service_name,
  get_node_set_service_name,
}

-- No node set has the name of the other, nor that name with "-http" behind it.
abbrev pub Differ : NodeSet → NodeSet → Type 0
Differ n m = (n.name ≢ m.name) × (n.name ≢ m.name <> "-http") × (m.name ≢ n.name <> "-http")

abbrev pub Unique : List NodeSet → Type 0
Unique [] = Unit
Unique (n ∷ ns) = All (Differ n) ns × Unique ns

module _ (c : StroomCluster) where
  node_name_cancel :
      (s t : String) → get_base_name c <> "-node-" <> s ≡ get_base_name c <> "-node-" <> t → s ≡ t
  node_name_cancel s t e =
      append_cancel_left "-node-" s t (append_cancel_left (get_base_name c) _ _ e)

  service_name_assoc :
      (m : NodeSet)
      → get_node_set_service_name c m ≡ get_base_name c <> "-node-" <> m.name <> "-http"
  unfolding get_node_set_service_name get_node_set_name
  service_name_assoc m =
      append_assoc (get_base_name c) ("-node-" <> m.name) "-http"
      ∙ ap (λ s. get_base_name c <> s) (append_assoc "-node-" m.name "-http")

  -- Two node sets, one of them named as the other with "-http" behind it, have a service of the same
  -- name: the headless service of the one is the other's service for clients.
  pub service_name_clash :
      (n m : NodeSet)
      → n.name ≡ m.name <> "-http"
      → get_node_set_headless_service_name c n ≡ get_node_set_service_name c m
  unfolding get_node_set_headless_service_name get_node_set_name
  service_name_clash n m h =
      ap (λ s. get_base_name c <> "-node-" <> s) h ∙ sym (service_name_assoc m)

pub ne-append : (s : String) → s ≢ s <> "-http"
unfolding string_eq
ne-append s h = ne_of_test "" "-http" refl (append_cancel_left s "" "-http" (append-nil s ∙ h))

module _ (c : StroomCluster) (n m : NodeSet) where
  pub get_node_set_name_ne : n.name ≢ m.name → get_node_set_name c n ≢ get_node_set_name c m
  unfolding get_node_set_name
  get_node_set_name_ne h e = h (node_name_cancel c n.name m.name e)

  pub service_name_ne :
      n.name ≢ m.name → get_node_set_service_name c n ≢ get_node_set_service_name c m
  unfolding get_node_set_service_name
  service_name_ne h e = get_node_set_name_ne h (append_cancel_right _ _ "-http" e)

  pub headless_ne_service :
      n.name ≢ m.name <> "-http" → get_node_set_name c n ≢ get_node_set_service_name c m
  unfolding get_node_set_name
  headless_ne_service h e =
      h (node_name_cancel c n.name (m.name <> "-http") (e ∙ service_name_assoc c m))

pub own_names_ne :
    (c : StroomCluster) (n : NodeSet) → get_node_set_name c n ≢ get_node_set_service_name c n
unfolding get_node_set_service_name
own_names_ne c n e = ne-append (get_node_set_name c n) e
