-- ===== src/Manager/Main.antt =====
-- cmd/main.go.
use stroom_k8s_operator.Base.{ℕ, String, Bool, false}
use stroom_k8s_operator.Base.State.{Err, Result, err, M, pure, on}
use stroom_k8s_operator.Manager.Runtime.{Runtime, Group, Options}
use stroom_k8s_operator.Manager.Setup

-- The values of the flags.
pub record Flags : Type 0 where
  pub probe_addr : String
  pub enable_leader_election : Bool

abbrev pub default_flags : Flags
default_flags = record { probe_addr = ":8081"; enable_leader_election = false }

-- How the program ends: by a return of `main`, by os.Exit, or by the panic of utilruntime.Must.
pub data Exit : Type 0 where
  returned : Exit
  exited : ℕ → Exit
  panicked : Err → Exit

-- The options of the manager, for the values of the flags.
abbrev pub options : Flags → Options
options flags = record {
  health_probe_bind_address = flags.probe_addr;
  leader_election = flags.enable_leader_election;
  leader_election_id = "81fe7dea.gchq.github.io";
}

module _ (R : Runtime) where
  open R use {World, Mgr}

  -- An error is what the function panics with.
  unfoldable pub init : M World (Result (Unit {0}))
  init =
      on (R.add_to_scheme Group.client_go) (λ e. pure (err e))
        (λ _.
          on (R.add_to_scheme Group.metrics) (λ e. pure (err e))
            (λ _. R.add_to_scheme Group.stroom))

  -- `if err != nil { os.Exit(1) }`
  abbrev pub or_exit {ℓ} : {A : Type ℓ} → M World (Result A) → (A → M World Exit) → M World Exit
  or_exit m next = on m (λ e. pure (exited 1)) next

  -- `main` from the manager on.
  unfoldable pub run_manager : Mgr → M World Exit
  unfolding Setup.stroom_cluster Setup.database_server Setup.stroom_task_autoscaler
      Setup.database_backup
  run_manager mgr = or_exit (Setup.stroom_cluster R mgr) (λ _.
      or_exit (Setup.database_server R mgr) (λ _. or_exit (Setup.stroom_task_autoscaler R mgr) (λ _.
        or_exit (Setup.database_backup R mgr) (λ _.
          or_exit (R.add_healthz_check mgr "healthz") (λ _.
            or_exit (R.add_readyz_check mgr "readyz")
              (λ _. or_exit (R.start mgr) (λ _. pure returned)))))))

  -- `main` after the flags are parsed and the logger is set.
  unfoldable pub main : Flags → M World Exit
  unfolding run_manager
  main flags = or_exit (R.new_manager (options flags)) run_manager

  -- Go runs `init` before `main`.
  unfoldable pub program : Flags → M World Exit
  unfolding init main
  program flags = on init (λ e. pure (panicked e)) (λ _. main flags)
