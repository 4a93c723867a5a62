-- ===== src/Cluster/Ingresses/Names.antt =====
-- internal/controller/stroomcluster.go: when the ingresses of a cluster have names of their own.
use text.Mathlib.TextLemmas.{append-nil, append_cancel_left}
use stroom_k8s_operator.Base.{
  ◌<>◌, ◌≡◌, refl, sym, ap, ◌∙◌, ◌≢◌, ◌⊎◌, ◌↔◌, inl, inr, Bool, true, false, not, ◌&&◌, List, [],
  ◌∷◌, All, Bool-cases, ◌!=◌, string_eq, ne_of_test,
}
use stroom_k8s_operator.Kube.Env.{Kind, Library}
use stroom_k8s_operator.Api.StroomCluster.{
  StroomCluster, NodeSet, get_base_name, processing_node_role, frontend_node_role,
}
use stroom_k8s_operator.Database.{DatabaseConnectionInfo}
use stroom_k8s_operator.DatabaseServer.Children.{Key}
use stroom_k8s_operator.Cluster.Ingresses.{
  default_ingresses, datafeed_ingresses, is_disabled, ingresses_of, create_ingresses,
}
use stroom_k8s_operator.Cluster.Plan.{Item, key, Distinct, ingress_items}

-- A node set with ingresses that serves the user interface, or that takes data.
abbrev pub serves : NodeSet → Bool
serves n = not (is_disabled n.ingress_enabled) && n.role != processing_node_role

abbrev pub takes_data : NodeSet → Bool
takes_data n = not (is_disabled n.ingress_enabled) && n.role != frontend_node_role

abbrev None : (NodeSet → Bool) → List NodeSet → Type 0
None p ns = All (λ m. p m ≡ false) ns

-- No two node sets of the list pass the test.
abbrev pub AtMostOne : (NodeSet → Bool) → List NodeSet → Type 0
AtMostOne p [] = Unit
AtMostOne p (n ∷ ns) = ((p n ≡ false) ⊎ None p ns) × AtMostOne p ns

module _ (L : Library) (c : StroomCluster) (info : DatabaseConnectionInfo) where
  abbrev route : Key
  route = (Kind.ingress, record { namespace = c.namespace; name = get_base_name c })

  abbrev feed : Key
  feed = (Kind.ingress, record { namespace = c.namespace; name = get_base_name c <> "-datafeed" })

  route_ne_feed : route ≢ feed
  unfolding string_eq
  route_ne_feed e = ne_of_test "" "-datafeed" refl (
      append_cancel_left (get_base_name c) "" "-datafeed"
        (append-nil (get_base_name c) ∙ ap (λ (k : Key). k.1.name) e))

  abbrev items : List NodeSet → List Item
  items ns = ingress_items L c info (ingresses_of c ns)

  -- No item of the list has the key.
  abbrev AllOther : Key → List Item → Type 0
  AllOther k ys = All (λ y. k ≢ key y) ys

  AllOther-route : (ns : List NodeSet) → AllOther route (items ns) ↔ None serves ns
  unfolding ingresses_of default_ingresses datafeed_ingresses
  AllOther-route [] = (λ h. h, λ h. h)
  AllOther-route (n ∷ ns) =
      let rest = AllOther-route ns in
      elim (Bool-cases (is_disabled n.ingress_enabled)) [
        | inl off ↦ rw off (λ h. (refl, rest.0 h), λ h. rest.1 h.1)
        | inr on' ↦ elim (Bool-cases (n.role != processing_node_role)) [
          | inl ui ↦ rw (on', ui) (λ h. absurd (h.0 refl), λ h. cc)
          | inr no_ui ↦ elim (Bool-cases (n.role != frontend_node_role)) [
            | inl data' ↦
                rw (on', no_ui, data') (λ h. (refl, rest.0 h.1), λ h. (route_ne_feed, rest.1 h.1))
            | inr no_data ↦ rw (on', no_ui, no_data) (λ h. (refl, rest.0 h), λ h. rest.1 h.1)
          ]
        ]
      ]

  AllOther-feed : (ns : List NodeSet) → AllOther feed (items ns) ↔ None takes_data ns
  unfolding ingresses_of default_ingresses datafeed_ingresses
  AllOther-feed [] = (λ h. h, λ h. h)
  AllOther-feed (n ∷ ns) =
      let rest = AllOther-feed ns in
      elim (Bool-cases (is_disabled n.ingress_enabled)) [
        | inl off ↦ rw off (λ h. (refl, rest.0 h), λ h. rest.1 h.1)
        | inr on' ↦ elim (Bool-cases (n.role != processing_node_role)) [
          | inl ui ↦ elim (Bool-cases (n.role != frontend_node_role)) [
            | inl data' ↦ rw (on', ui, data') (λ h. absurd (h.1.0 refl), λ h. cc)
            | inr no_data ↦
                rw (on', ui, no_data)
                  (λ h. (refl, rest.0 h.1), λ h. (λ e. route_ne_feed (sym e), rest.1 h.1))
          ]
          | inr no_ui ↦ elim (Bool-cases (n.role != frontend_node_role)) [
            | inl data' ↦ rw (on', no_ui, data') (λ h. absurd (h.0 refl), λ h. cc)
            | inr no_data ↦ rw (on', no_ui, no_data) (λ h. (refl, rest.0 h), λ h. rest.1 h.1)
          ]
        ]
      ]

  -- What is left where the node set passes the test itself.
  alone : (A : Type 0) → (true ≡ false) ⊎ A → A
  alone A (inl h) = absurd (cc)
  alone A (inr a) = a

  ingresses_of-Distinct :
      (ns : List NodeSet) → Distinct (items ns) ↔ (AtMostOne serves ns × AtMostOne takes_data ns)
  unfolding ingresses_of default_ingresses datafeed_ingresses
  ingresses_of-Distinct [] = (λ h. (tt, tt), λ h. tt)
  ingresses_of-Distinct (n ∷ ns) =
      let rest = ingresses_of-Distinct ns in
      elim (Bool-cases (is_disabled n.ingress_enabled)) [
        | inl off ↦
            rw off (
              λ h. ((inl refl, (rest.0 h).0), (inl refl, (rest.0 h).1)),
              λ h. rest.1 (h.0.1, h.1.1),
            )
        | inr on' ↦ elim (Bool-cases (n.role != processing_node_role)) [
          | inl ui ↦ elim (Bool-cases (n.role != frontend_node_role)) [
            | inl data' ↦
                rw (on', ui, data')
                  (
                    λ h. (
                      (inr ((AllOther-route ns).0 h.0.1), (rest.0 h.1.1).0),
                      (inr ((AllOther-feed ns).0 h.1.0), (rest.0 h.1.1).1),
                    ),
                    λ h. (
                      (route_ne_feed, (AllOther-route ns).1 (alone (None serves ns) h.0.0)),
                      (
                        (AllOther-feed ns).1 (alone (None takes_data ns) h.1.0),
                        rest.1 (h.0.1, h.1.1),
                      ),
                    ),
                  )
            | inr no_data ↦
                rw (on', ui, no_data)
                  (
                    λ h. (
                      (inr ((AllOther-route ns).0 h.0), (rest.0 h.1).0),
                      (inl refl, (rest.0 h.1).1),
                    ),
                    λ h. (
                      (AllOther-route ns).1 (alone (None serves ns) h.0.0),
                      rest.1 (h.0.1, h.1.1),
                    ),
                  )
          ]
          | inr no_ui ↦ elim (Bool-cases (n.role != frontend_node_role)) [
            | inl data' ↦
                rw (on', no_ui, data')
                  (
                    λ h. (
                      (inl refl, (rest.0 h.1).0),
                      (inr ((AllOther-feed ns).0 h.0), (rest.0 h.1).1),
                    ),
                    λ h. (
                      (AllOther-feed ns).1 (alone (None takes_data ns) h.1.0),
                      rest.1 (h.0.1, h.1.1),
                    ),
                  )
            | inr no_data ↦
                rw (on', no_ui, no_data)
                  (
                    λ h. ((inl refl, (rest.0 h).0), (inl refl, (rest.0 h).1)),
                    λ h. rest.1 (h.0.1, h.1.1),
                  )
          ]
        ]
      ]

  -- The ingresses of a cluster have names of their own exactly if at most one of its node sets with
  -- ingresses serves the user interface, and at most one of them takes data.
  pub create_ingresses-Distinct :
      Distinct (ingress_items L c info (create_ingresses c))
      ↔ (AtMostOne serves c.spec.node_sets × AtMostOne takes_data c.spec.node_sets)
  unfolding create_ingresses
  create_ingresses-Distinct = ingresses_of-Distinct c.spec.node_sets
