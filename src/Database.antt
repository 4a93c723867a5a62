-- ===== src/Database.antt =====
-- internal/controller/database_connection.go and database_connection_info.go.
use stroom_k8s_operator.Base.{String, ◌<>◌, Option, none, some, ◌==◌, string_eq, if◌then◌else◌}
use stroom_k8s_operator.Base.Int.{ℤ, pos}
use stroom_k8s_operator.Base.Text.{itoa}
use stroom_k8s_operator.Base.Dict.{lookup}
use stroom_k8s_operator.Base.State.{Result, ok, err, M, pure, on}
use stroom_k8s_operator.Kube.Env.{Env, Kind}
use stroom_k8s_operator.Api.Common.{ResourceRef, DatabaseServerRef, is_zero, namespaced_name}
use stroom_k8s_operator.Api.DatabaseServer.{DatabaseServer, get_service_fqdn, get_secret_name}

abbrev pub database_port : ℤ
database_port = pos 3306

pub record DatabaseConnectionInfo : Type 0 where
  pub database_server : Option DatabaseServer
  pub host : String
  pub port : ℤ
  pub secret_name : String
  pub user_name : String

-- The reference with the owner's namespace where it names none, as `GetDatabaseConnectionInfo`
-- leaves it in its argument.
unfoldable pub with_owner_namespace : ResourceRef → String → ResourceRef
with_owner_namespace ref owner_namespace =
    if ref.namespace == "" then record ref { namespace = owner_namespace } else ref

unfoldable pub external_connection : DatabaseServerRef → DatabaseConnectionInfo
external_connection ref = record {
  database_server = none;
  host = ref.server_address.host;
  port = ref.server_address.port;
  secret_name = ref.server_address.secret_name;
  user_name = ref.user_name;
}

unfoldable pub managed_connection : DatabaseServerRef → DatabaseServer → DatabaseConnectionInfo
managed_connection ref db = record {
  database_server = some db;
  host = get_service_fqdn db;
  port = database_port;
  secret_name = get_secret_name db;
  user_name = ref.user_name;
}

unfoldable pub to_jdbc_connection_string : DatabaseConnectionInfo → String → String
to_jdbc_connection_string info database_name =
    "jdbc:mysql://"
    <> info.host
    <> ":"
    <> itoa info.port
    <> "/"
    <> database_name
    <> "?serverTimezone=UTC&useUnicode=yes&characterEncoding=UTF-8"

module _ (E : Env) where
  open E use {World}

  unfoldable pub get_database_connection_info :
      DatabaseServerRef → String → M World (Result DatabaseConnectionInfo)
  unfolding is_zero external_connection managed_connection with_owner_namespace
  get_database_connection_info ref owner_namespace =
      if is_zero ref.server_ref
      then pure (ok (external_connection ref))
      else on
          (E.get Kind.database_server
            (namespaced_name (with_owner_namespace ref.server_ref owner_namespace)))
          (λ e. pure (err e)) (λ db. pure (ok (managed_connection ref db)))

  unfoldable pub data_source_name : DatabaseConnectionInfo → String → String → String
  data_source_name info password database_name =
      info.user_name
      <> ":"
      <> password
      <> "@tcp("
      <> info.host
      <> ":"
      <> itoa info.port
      <> ")/"
      <> database_name

  abbrev password_of : Option String → String
  password_of none = ""
  password_of (some p) = p

  unfoldable pub open_database : DatabaseConnectionInfo → String → String → M World (Result E.Db)
  unfolding data_source_name lookup
  open_database info secret_namespace database_name =
      on (E.get Kind.secret (record { namespace = secret_namespace; name = info.secret_name }))
        (λ e. pure (err e))
        (λ s.
          E.sql_open
            (data_source_name info (password_of (lookup info.user_name s.items)) database_name))

  -- `CloseDatabase` drops an error.
  abbrev pub close_database : E.Db → M World (Result (Unit {0}))
  close_database db = E.sql_close db
