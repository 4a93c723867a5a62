-- ===== src/DatabaseServer/Names.antt =====
-- internal/controller/databaseserver.go: the names of the objects of a DatabaseServer.
use stroom_k8s_operator.Base.{◌≡◌}
use stroom_k8s_operator.Kube.Env.{Kind, Library, key_of}
pub use stroom_k8s_operator.Kube.Owner.{KeepsNames}
use stroom_k8s_operator.Kube.Owner.{controlled-key}
use stroom_k8s_operator.Api.DatabaseServer.{
  DatabaseServer, get_base_name, get_service_name, get_config_map_name, get_init_config_map_name,
}
use stroom_k8s_operator.DatabaseServer.Resources.{
  get_init_config_name, create_config_map, create_db_init_config_map, create_stateful_set,
  create_service,
}

module _ (L : Library) (names : KeepsNames L) where
  module _ (db : DatabaseServer) where
    pub create_config_map-key :
        key_of Kind.config_map (create_config_map L db)
        ≡ record { namespace = db.namespace; name = get_config_map_name db }
    unfolding create_config_map get_config_map_name
    create_config_map-key = controlled-key L names _ _

    pub create_db_init_config_map-key :
        key_of Kind.config_map (create_db_init_config_map L db)
        ≡ record { namespace = db.namespace; name = get_init_config_map_name db }
    unfolding create_db_init_config_map get_init_config_map_name get_init_config_name
    create_db_init_config_map-key = controlled-key L names _ _

    pub create_stateful_set-key :
        key_of Kind.stateful_set (create_stateful_set L db)
        ≡ record { namespace = db.namespace; name = get_base_name db }
    unfolding create_stateful_set
    create_stateful_set-key = controlled-key L names _ _

    pub create_service-key :
        key_of Kind.service (create_service L db)
        ≡ record { namespace = db.namespace; name = get_service_name db }
    unfolding create_service
    create_service-key = controlled-key L names _ _
