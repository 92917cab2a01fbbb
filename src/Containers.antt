-- ===== src/Containers.antt =====
-- internal/containers: the two retry policies, and the life of a container in a test. A delay is in
-- milliseconds, the call that is tried and the sleep are parameters of the number of attempts before,
-- and what is slept is part of the outcome. That `PingUntilReady` fails its test is the error here.
pub mod Retries
pub mod Lifecycle
use sqlc_gen_unison.Strings.{trim_space, to_lower}
use sqlc_gen_unison.Base.{
  ℕ, zero, suc, ◌-◌, ◌*◌, Bool, not, Text, codes, text_eq, Option, none, some, List, [], ◌∷◌,
  Result, ok, err, ltb, if◌then◌else◌,
}

-- A call gives its result and its error, as in Go, where both may be there. `dropped` are the results that
-- came with an error, which the next attempt overwrites or the caller is handed beside the last error.
pub record Outcome (E C : Type 0) : Type 0 where
  pub result : C
  pub error : Option E
  pub waits : List ℕ
  pub dropped : List C

abbrev pub start_attempts : ℕ
start_attempts = 5

abbrev pub start_initial_delay : ℕ
start_initial_delay = 1000

abbrev pub ready_attempts : ℕ
ready_attempts = 10

abbrev pub ready_initial_delay : ℕ
ready_initial_delay = 100

abbrev pub ready_max_delay : ℕ
ready_max_delay = 2000

-- The last attempt: what it gives is returned.
abbrev pub give_up : {E C : Type 0} → C × Option E → Outcome E C
give_up (c, none) = record { result = c; error = none; waits = []; dropped = [] }
give_up (c, some e) = record { result = c; error = some e; waits = []; dropped = c ∷ [] }

module _ {E C : Type 0} (call : ℕ → C × Option E) (sleep : ℕ → Option E) (next : ℕ → ℕ) where
  -- The loop that both policies have: `left` attempts may follow this one.
  unfoldable pub retry_from : ℕ → ℕ → ℕ → Outcome E C
  retry_from zero attempt delay = give_up (call attempt)
  retry_from (suc left) attempt delay =
      let later = retry_from left (suc attempt) (next delay) in
      let (c, error) = call attempt in
      elim error [
        | none ↦ record { result = c; error = none; waits = []; dropped = [] }
        | some e ↦ elim (sleep attempt) [
          | some interrupted ↦ record {
            result = c;
            error = some interrupted;
            waits = delay ∷ [];
            dropped = c ∷ [];
          }
          | none ↦ record {
            result = later.result;
            error = later.error;
            waits = delay ∷ later.waits;
            dropped = c ∷ later.dropped;
          }
        ]
      ]

abbrev pub doubled : ℕ → ℕ
doubled delay = delay * 2

abbrev pub capped : ℕ → ℕ
capped delay = if ltb ready_max_delay (delay * 2) then ready_max_delay else delay * 2

module _ {E C : Type 0} (call : ℕ → C × Option E) (sleep : ℕ → Option E) where
  -- One attempt and four more.
  unfoldable pub start_with_retry : Outcome E C
  start_with_retry = retry_from call sleep doubled (start_attempts - 1) 0 start_initial_delay

  -- One attempt and nine more.
  unfoldable pub ping_until_ready : Outcome E C
  ping_until_ready = retry_from call sleep capped (ready_attempts - 1) 0 ready_initial_delay

abbrev pub env_var : Text
env_var = codes "RUN_CONTAINER_TESTS"

-- `Running`, of the variable's value.
unfoldable pub running : Text → Bool
unfolding trim_space to_lower text_eq
running value = text_eq (trim_space (to_lower value)) (codes "true")

pub data Skip : Type 0 where
  not_running short : Skip

unfoldable pub skip_if_not_running : Bool → Bool → Option Skip
skip_if_not_running is_running is_short =
    if not is_running then some not_running else if is_short then some short else none

-- What a database's server and driver are run with; the deadline is in minutes.
pub record Database : Type 0 where
  pub image : Text
  pub driver_name : Text
  pub credential : Text
  pub startup_deadline : ℕ
  pub ready_log : Text
  pub ready_log_occurrence : ℕ
  pub dsn_params : Text

abbrev pub postgres : Database
postgres = record {
  image = codes "postgres:17-alpine";
  driver_name = codes "pgx";
  credential = codes "unisontest";
  startup_deadline = 2;
  ready_log = codes "database system is ready to accept connections";
  ready_log_occurrence = 2;
  dsn_params = codes "sslmode=disable";
}

abbrev pub mysql : Database
mysql = record {
  image = codes "mysql:8.0";
  driver_name = codes "mysql";
  credential = codes "unisontest";
  startup_deadline = 2;
  ready_log = codes "port: 3306 ";
  ready_log_occurrence = 1;
  dsn_params = codes "parseTime=true";
}

-- How a test's function ends: skipped, failed by a check, or with what its body gives.
pub data Verdict (E A : Type 0) : Type 0 where
  skipped : Skip → Verdict E A
  failed : E → Verdict E A
  finished : A → Verdict E A

-- A registered cleanup: they run when the test is over, the last one first.
pub data Cleanup (C D : Type 0) : Type 0 where
  terminate : C → Cleanup C D
  close : D → Cleanup C D

pub record Test (E C D A : Type 0) : Type 0 where
  pub verdict : Verdict E A
  pub cleanups : List (Cleanup C D)

-- The containers' and the drivers' side.
pub record Servers (E C D : Type 0) : Type 0 where
  pub start : Database → ℕ → C × Option E
  pub start_sleep : ℕ → Option E
  pub connection_string : C → Text → Result E Text
  pub open_pool : Text → Text → Result E D
  pub ping : D → ℕ → Option E
  pub ping_sleep : ℕ → Option E

-- A ping gives an error only.
abbrev pub pinging : {E C D : Type 0} → Servers E C D → D → ℕ → Unit {0} × Option E
pinging servers db n = (tt, servers.ping db n)

module _ {E C D A : Type 0} where
  -- `Run` of internal/containers: `fn` gets the cleanups that are registered before it. Beside the test
  -- stand the containers that came with an error: no cleanup is registered for them.
  unfoldable pub run_container :
      Bool → Bool → Outcome E C → (C → List (Cleanup C D) → Test E C D A) → Test E C D A × List C
  unfolding skip_if_not_running
  run_container is_running is_short started fn = elim (skip_if_not_running is_running is_short) [
    | some why ↦ (record { verdict = skipped why; cleanups = [] }, [])
    | none ↦ elim started.error [
      | some e ↦ (record { verdict = failed e; cleanups = [] }, started.dropped)
      | none ↦ (fn started.result (terminate started.result ∷ []), started.dropped)
    ]
  ]

  module _ (servers : Servers E C D) (body : D → A) (database : Database) where
    -- The function that `Run` of pgtest and of mysqltest hand to it.
    unfoldable pub with_pool : C → List (Cleanup C D) → Test E C D A
    unfolding ping_until_ready
    with_pool container cleanups = elim (servers.connection_string container database.dsn_params) [
      | err e ↦ record { verdict = failed e; cleanups = cleanups }
      | ok dsn ↦ elim (servers.open_pool database.driver_name dsn) [
        | err e ↦ record { verdict = failed e; cleanups = cleanups }
        | ok db ↦ elim (ping_until_ready (pinging servers db) servers.ping_sleep).error [
          | some e ↦ record { verdict = failed e; cleanups = close db ∷ cleanups }
          | none ↦ record { verdict = finished (body db); cleanups = close db ∷ cleanups }
        ]
      ]
    ]

    unfoldable pub run_database : Bool → Bool → Test E C D A × List C
    unfolding run_container start_with_retry with_pool
    run_database is_running is_short =
        run_container is_running is_short
          (start_with_retry (servers.start database) servers.start_sleep) with_pool

  -- `Run` of pgtest.
  unfoldable pub run_postgres : Servers E C D → (D → A) → Bool → Bool → Test E C D A × List C
  unfolding run_database
  run_postgres servers body = run_database servers body postgres

  -- `Run` of mysqltest.
  unfoldable pub run_mysql : Servers E C D → (D → A) → Bool → Bool → Test E C D A × List C
  unfolding run_database
  run_mysql servers body = run_database servers body mysql
