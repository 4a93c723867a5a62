-- ===== src/DatabaseServer/Secrets.antt =====
-- internal/controller/databaseserver.go and database_connection.go: the passwords.
use stroom_k8s_operator.Base.{String, ◌≡◌, refl, some, string_eq}
use stroom_k8s_operator.Base.Dict.{lookup}
use stroom_k8s_operator.Base.State.{ok}
use stroom_k8s_operator.Kube.Env.{Env, Kind}
use stroom_k8s_operator.Api.Common.{DatabaseServerRef}
use stroom_k8s_operator.Api.DatabaseServer.{DatabaseServer, get_secret_name}
use stroom_k8s_operator.Database.{managed_connection, data_source_name, open_database}
use stroom_k8s_operator.DatabaseServer.Resources.{
  database_service_user_name, generate_password, create_secret,
}

module _ (E : Env) where
  -- The password of the service user in the secret made at a world.
  abbrev pub service_password : E.World → String
  service_password v = (generate_password E (generate_password E v).1).0

  lookup-service :
      (db : DatabaseServer) (v : E.World)
      → lookup database_service_user_name (create_secret E db v).0.items ≡ some (service_password v)
  unfolding create_secret lookup string_eq
  lookup-service db v = refl

  -- Where the secret that `createSecret` made for a server is found, a connection to that server as
  -- the service user, opened in the server's namespace, logs in with the password generated for
  -- that user, which is the second that was generated.
  pub open_database-create_secret :
      (ref : DatabaseServerRef) (db : DatabaseServer) (name : String) (v w : E.World)
      → ref.user_name ≡ database_service_user_name
      → (E.get Kind.secret (record { namespace = db.namespace; name = get_secret_name db }) w).0
        ≡ ok (create_secret E db v).0
      → open_database E (managed_connection ref db) db.namespace name w
        ≡ E.sql_open
            (data_source_name E (managed_connection ref db) (service_password v) name)
            (E.get Kind.secret (record { namespace = db.namespace; name = get_secret_name db }) w).1
  unfolding open_database managed_connection
  open_database-create_secret ref db name v w service found =
      rw (found, service, lookup-service db v)
