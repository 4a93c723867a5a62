-- ===== src/DatabaseServer/References.antt =====
-- internal/controller/databaseserver.go and database_connection.go: what the objects of a
-- DatabaseServer, and a connection to it, refer to.
use mathlib.Core.Option.{some-injective}
use stroom_k8s_operator.Base.{
  String, ◌<>◌, ◌≡◌, refl, sym, ap, ◌∙◌, ◌↔◌, some, ◌⊎◌, inl, inr, List, [], ◌∷◌, All, Any,
  string_eq,
}
use stroom_k8s_operator.Base.Dict.{Dict, lookup}
use stroom_k8s_operator.Kube.Core.{
  EnvValue, VolumeSource, VolumeMount, Container, ContainerPort, ServicePort, ConfigMap, Secret,
  Volume, PersistentVolumeClaim, StatefulSet, StatefulSetSpec, Service,
}
use stroom_k8s_operator.Kube.Env.{Env, Library}
use stroom_k8s_operator.Kube.Owner.{KeepsNames, controlled-names}
use stroom_k8s_operator.Api.Common.{DatabaseServerRef}
use stroom_k8s_operator.Api.DatabaseServer.{
  DatabaseServer, get_base_name, get_labels, get_secret_name, get_service_name, get_service_fqdn,
}
use stroom_k8s_operator.Database.{DatabaseConnectionInfo, managed_connection}
use stroom_k8s_operator.DatabaseServer.Resources.{
  database_service_user_name, get_init_config_name, create_secret, create_config_map,
  create_db_init_config_map, create_stateful_set, create_service,
}
use stroom_k8s_operator.Cluster.Services.Selectors.{Selects}
use stroom_k8s_operator.Cluster.StatefulSet.Mounts.{IsMounted}

abbrev pub HasKey : String → Dict String String → Type 0
HasKey key items = Any (λ p. p.0 ≡ key) items

-- A volume of the ConfigMap, or of the Secret, of that name.
abbrev pub IsConfig : VolumeSource → String → Type 0
IsConfig (VolumeSource.config_map found mode) name = found ≡ name
IsConfig _ name = ⊥

abbrev pub IsSecret : VolumeSource → String → Type 0
IsSecret (VolumeSource.secret found keys) name = found ≡ name
IsSecret _ name = ⊥

-- Some container mounts the volume or claim of that name.
abbrev pub IsMountedIn : StatefulSetSpec → String → Type 0
IsMountedIn s name =
    Any (λ (k : Container). Any (λ (m : VolumeMount). m.name ≡ name) k.volume_mounts)
      s.template.spec.containers

module _ (maps : List ConfigMap) (secrets : List Secret) where
  -- A volume of a ConfigMap or a Secret that is there, with the keys that it takes.
  abbrev pub IsFilled : VolumeSource → Type 0
  IsFilled (VolumeSource.config_map name mode) = Any (λ m. m.name ≡ name) maps
  IsFilled (VolumeSource.secret name keys) =
      Any (λ s. (s.name ≡ name) × All (λ k. HasKey k.key s.items) keys) secrets
  IsFilled _ = ⊥

  -- A value that is taken from a Secret that is there, and has the key.
  abbrev pub IsTaken : EnvValue → String → Type 0
  IsTaken (EnvValue.secret_key_ref r) key =
      (r.key ≡ key) × Any (λ s. (s.name ≡ r.name) × HasKey key s.items) secrets
  IsTaken _ key = ⊥

  -- A value that is given literally, or taken from a Secret that is there, and has the key.
  abbrev pub IsGiven : EnvValue → Type 0
  IsGiven (EnvValue.value text) = Unit
  IsGiven (EnvValue.field_ref path) = ⊥
  IsGiven (EnvValue.secret_key_ref r) = Any (λ s. (s.name ≡ r.name) × HasKey r.key s.items) secrets

  -- The volume has a file of the name.
  abbrev pub HasFile : VolumeSource → String → Type 0
  HasFile (VolumeSource.config_map name mode) file =
      Any (λ m. (m.name ≡ name) × HasKey file m.items) maps
  HasFile (VolumeSource.secret name keys) file = Any (λ k. k.path ≡ file) keys
  HasFile _ file = ⊥

  -- A mount of a volume or a claim, or of a file that a volume has.
  abbrev pub IsBound : StatefulSetSpec → VolumeMount → Type 0
  IsBound s m =
      ((m.sub_path ≡ "") × IsMounted s m)
      ⊎ Any (λ v. (v.name ≡ m.name) × HasFile v.source m.sub_path) s.template.spec.volumes

  -- Every ConfigMap and Secret is a volume's, and every volume and claim is mounted.
  abbrev pub IsUsed : StatefulSetSpec → Type 0
  IsUsed s =
      All (λ (m : ConfigMap). Any (λ v. IsConfig v.source m.name) s.template.spec.volumes) maps
      × All (λ (k : Secret). Any (λ v. IsSecret v.source k.name) s.template.spec.volumes) secrets
      × All (λ (v : Volume). IsMountedIn s v.name) s.template.spec.volumes
      × All (λ (p : PersistentVolumeClaim). IsMountedIn s p.name) s.volume_claim_templates

  -- All that the pods of a StatefulSet refer to is there, the service user's password included.
  abbrev pub Refers : StatefulSetSpec → Type 0
  Refers s =
      All (λ v. IsFilled v.source) s.template.spec.volumes
      × All
          (λ (k : Container).
            All (λ e. IsGiven e.value_from) k.env
            × Any
                (λ e. (e.name ≡ "MYSQL_PASSWORD") × IsTaken e.value_from database_service_user_name)
                k.env
            × All (IsBound s) k.volume_mounts)
          s.template.spec.containers
      × IsUsed s

module _ (L : Library) (names : KeepsNames L) (db : DatabaseServer) where
  create_config_map-name : (create_config_map L db).name ≡ get_base_name db
  unfolding create_config_map
  create_config_map-name = (controlled-names L names _ _).0

  create_db_init_config_map-name : (create_db_init_config_map L db).name ≡ get_init_config_name db
  unfolding create_db_init_config_map
  create_db_init_config_map-name = (controlled-names L names _ _).0

  create_service-names :
      ((create_service L db).name ≡ get_service_name db)
      × ((create_service L db).namespace ≡ db.namespace)
  unfolding create_service
  create_service-names = controlled-names L names _ _

  -- The pods of a DatabaseServer refer only to what the operator makes for the same server: each
  -- volume is of a ConfigMap or of the Secret that it creates, whose keys are there; each variable
  -- is a literal or a key of that Secret, and each container takes the password of the service user
  -- from its key there; and each mount is of a volume or a claim of the StatefulSet, or of a file
  -- that is a key of the volume's ConfigMap or a path of the Secret's volume. Each of the two
  -- ConfigMaps and the Secret is a volume, and a container mounts each volume and claim.
  -- `SetControllerReference` keeps the objects' names.
  pub create_stateful_set-Refers :
      (E : Env) (v : E.World)
      → Refers
          (create_config_map L db ∷ create_db_init_config_map L db ∷ [])
          ((create_secret E db v).0 ∷ [])
          (create_stateful_set L db).spec
  unfolding create_stateful_set create_secret create_config_map create_db_init_config_map
      get_secret_name
  create_stateful_set-Refers E v = (
    (
      inl create_config_map-name,
      (inr (inl create_db_init_config_map-name), (inl (refl, (inl refl, tt)), tt)),
    ),
    (
      (
        (tt, (tt, (inl (refl, inr (inl refl)), tt))),
        inr (inr (inl (refl, (refl, inl (refl, inr (inl refl)))))),
        (
          inr (inl (refl, inl (create_config_map-name, inl refl))),
          (
            inl (refl, inr (inr (inl refl))),
            (inl (refl, inl (inl refl)), (inr (inr (inr (inl (refl, inl refl)))), tt)),
          ),
        ),
      ),
      tt,
    ),
    (
      (inl (sym create_config_map-name), (inr (inl (sym create_db_init_config_map-name)), tt)),
      (inr (inr (inl refl)), tt),
      (inl (inl refl), (inl (inr (inl refl)), (inl (inr (inr (inr (inl refl)))), tt))),
      (inl (inr (inr (inl refl))), tt),
    ),
  )

  -- What a connection finds: the service under its host name, which has its port and governs the
  -- StatefulSet; a container that has the port; and the Secret.
  abbrev pub Serves : DatabaseConnectionInfo → Service → StatefulSet → Secret → Type 0
  Serves info service set secret =
      (info.host ≡ service.name <> "." <> service.namespace <> ".svc.cluster.local")
      × Any (λ (p : ServicePort). p.port ≡ info.port) service.spec.ports
      × (set.spec.service_name ≡ service.name)
      × Any (λ (k : Container). Any (λ (p : ContainerPort). p.container_port ≡ info.port) k.ports)
          set.spec.template.spec.containers
      × (secret.name ≡ info.secret_name)

  lookup-instance :
      (other : DatabaseServer)
      → lookup "app.kubernetes.io/instance" (get_labels other) ≡ some other.name
  unfolding get_labels lookup string_eq
  lookup-instance other = refl

  -- The service selects pods exactly if they are of a server with the same name.
  create_service-Selects :
      (other : DatabaseServer)
      → Selects
          (create_service L db).spec.selector
          (create_stateful_set L other).spec.template.labels
        ↔ (other.name ≡ db.name)
  unfolding create_service create_stateful_set get_labels lookup string_eq
  create_service-Selects other = (
    λ selects. some-injective _ _ (sym (lookup-instance other) ∙ selects.1.1.0),
    λ same. (refl, (refl, (lookup-instance other ∙ ap some same, tt))),
  )

  -- A connection to a DatabaseServer that the operator manages leads to what it makes for that
  -- server: the host is the name of the service in its namespace, the service has the port, on
  -- which a container of the pods listens, and selects the pods of a StatefulSet exactly if it is of
  -- a server with the same name; the StatefulSet names the service, and the Secret that the
  -- connection names is the one with the passwords. `SetControllerReference` keeps the objects'
  -- names.
  pub managed_connection-Serves :
      (E : Env) (v : E.World) (ref : DatabaseServerRef) (other : DatabaseServer)
      → Serves
          (managed_connection ref db)
          (create_service L db)
          (create_stateful_set L db)
          (create_secret E db v).0
        × (Selects
              (create_service L db).spec.selector
              (create_stateful_set L other).spec.template.labels
            ↔ (other.name ≡ db.name))
  unfolding managed_connection create_stateful_set create_secret get_service_fqdn create_service
  managed_connection-Serves E v ref other =
      let (name, namespace) = create_service-names in
      (
        (rw (name, namespace) refl, inl refl, sym name, inl (inl refl), refl),
        create_service-Selects other,
      )
