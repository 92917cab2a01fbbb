-- ===== src/Tests/Containers.antt =====
-- internal/containers/containers.go on a server that answers the third time.
use sqlc_gen_unison.Base.{
  some, ℕ, zero, suc, ◌≤◌, ◌≡◌, refl, true, false, text_eq, Option, none, [], ◌∷◌, Text, codes, ok,
}
use sqlc_gen_unison.Strings.{trim_space, trim_left, trim_right, is_space, to_lower, lower}
use sqlc_gen_unison.Containers.{
  retry_from, start_with_retry, ping_until_ready, running, skip_if_not_running, mysql, finished,
  terminate, close, Servers, run_container, with_pool, run_database, run_postgres,
}
use sqlc_gen_unison.Containers.Lifecycle.{Life, run_database-Life}
use sqlc_gen_unison.Containers.Retries.{
  IsFirst, total_wait, start_with_retry-IsFirst, retries_total_wait,
}

-- The first attempt leaves a container beside its error.
abbrev third : ℕ → Text × Option Text
third zero = (codes "half", some (codes "refused"))
third (suc zero) = ([], some (codes "refused"))
third (suc (suc n)) = (codes "container", none)

abbrev undisturbed : ℕ → Option Text
undisturbed n = none

start_with_retry-third : start_with_retry third undisturbed ≡ record {
  result = codes "container";
  error = none;
  waits = 1000 ∷ 2000 ∷ [];
  dropped = codes "half" ∷ [] ∷ [];
}
unfolding start_with_retry retry_from
start_with_retry-third = refl

start_with_retry-IsFirst_example :
    (k : ℕ) × IsFirst third 0 4 (start_with_retry third undisturbed) k
start_with_retry-IsFirst_example = start_with_retry-IsFirst third undisturbed (λ n. refl)

retries_total_wait_example :
    (total_wait (start_with_retry third undisturbed).waits ≤ 15000)
    × (total_wait (ping_until_ready third undisturbed).waits ≤ 11100)
retries_total_wait_example = retries_total_wait third undisturbed

-- A server that starts the third time, and answers at once.
abbrev servers : Servers Text Text Text
servers = record {
  start = λ database n. third n;
  start_sleep = undisturbed;
  connection_string = λ c params. ok (codes "postgres://localhost");
  open_pool = λ driver dsn. ok dsn;
  ping = λ db n. none;
  ping_sleep = undisturbed;
}

run_postgres-servers : run_postgres servers (λ db. db) true false ≡ (
  record {
    verdict = finished (codes "postgres://localhost");
    cleanups = close (codes "postgres://localhost") ∷ terminate (codes "container") ∷ [];
  },
  codes "half" ∷ [] ∷ [],
)
unfolding run_postgres run_database run_container with_pool skip_if_not_running start_with_retry
    ping_until_ready retry_from
run_postgres-servers = refl

running-spelled : running (codes " True ") ≡ true
unfolding running trim_space trim_left trim_right is_space to_lower lower text_eq
running-spelled = refl

run_database-Life_example :
    Life servers (λ db. db) mysql true false (run_database servers (λ db. db) mysql true false)
run_database-Life_example = run_database-Life servers (λ db. db) mysql true false
