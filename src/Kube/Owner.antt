-- ===== src/Kube/Owner.antt =====
-- ctrl.SetControllerReference, as the operator calls it: an error is dropped.
use stroom_k8s_operator.Base.{◌≡◌, refl, inl, inr}
use stroom_k8s_operator.Base.State.{Result, ok, err, Result-cases}
use stroom_k8s_operator.Kube.Meta.{NamespacedName, ObjectMeta, OwnerReference}
use stroom_k8s_operator.Kube.Env.{Library}

abbrev pub kept : ObjectMeta → Result ObjectMeta → ObjectMeta
kept m (ok m') = m'
kept m (err e) = m

unfoldable pub controlled : Library → OwnerReference → ObjectMeta → ObjectMeta
controlled L owner m = kept m (L.set_controller_reference owner m)

-- `SetControllerReference` leaves the name and the namespace.
abbrev pub KeepsNames : Library → Type 0
KeepsNames L =
    (o : OwnerReference) (m m' : ObjectMeta)
    → L.set_controller_reference o m ≡ ok m'
    → (m'.name ≡ m.name) × (m'.namespace ≡ m.namespace)

module _ (L : Library) (names : KeepsNames L) where
  pub controlled-names :
      (o : OwnerReference) (m : ObjectMeta)
      → ((controlled L o m).name ≡ m.name) × ((controlled L o m).namespace ≡ m.namespace)
  unfolding controlled
  controlled-names o m = elim (Result-cases (L.set_controller_reference o m)) [
    | inl (m', set) ↦ rw (set, kept) (names o m m' set)
    | inr (e, refused) ↦ rw (refused, kept) (refl, refl)
  ]

  -- The objects are made under the names by which they are looked up.
  pub controlled-key :
      (o : OwnerReference) (m : ObjectMeta)
      → ◌≡◌ {A = NamespacedName}
          (record { namespace = (controlled L o m).namespace; name = (controlled L o m).name })
          (record { namespace = m.namespace; name = m.name })
  controlled-key o m = let (n, s) = controlled-names o m in rw (n, s)
