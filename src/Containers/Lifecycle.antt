-- ===== src/Containers/Lifecycle.antt =====
-- internal/containers, `Run` with pgtest and mysqltest: what is started is taken down, in order.
use sqlc_gen_unison.Base.{
  ◌⊎◌, List, err, ℕ, zero, suc, ◌≡◌, refl, sym, subst, inl, inr, Bool, Option, none, some, [], ◌∷◌,
  Text, Option-cases, ok, Result-cases,
}
use sqlc_gen_unison.Containers.{
  Outcome, give_up, pinging, ready_initial_delay, start_initial_delay, doubled, capped, retry_from,
  start_with_retry, ping_until_ready, Skip, skip_if_not_running, Database, skipped, failed,
  finished, terminate, close, Test, Servers, run_container, with_pool, run_database,
}

module _ {E C : Type 0} (call : ℕ → C × Option E) (sleep : ℕ → Option E) (next : ℕ → ℕ) where
  give_up-none :
      (r : C × Option E) → (give_up r).error ≡ none → (r.1 ≡ none) × ((give_up r).result ≡ r.0)
  give_up-none (c, none) h = (refl, refl)
  give_up-none (c, some e) h = cc

  -- What is returned without an error is the success of some attempt.
  retry_from-none :
      (left attempt delay : ℕ)
      → (retry_from call sleep next left attempt delay).error ≡ none
      → (n : ℕ) × ((call n).1 ≡ none)
        × ((retry_from call sleep next left attempt delay).result ≡ (call n).0)
  unfolding retry_from
  retry_from-none zero attempt delay h =
      let (e, r) = give_up-none (call attempt) h in (attempt, e, r)
  retry_from-none (suc left) attempt delay h = elim (Option-cases (call attempt).1) [
    | inl e ↦ (attempt, e, rw (retry_from, e) refl)
    | inr (x, e) ↦ elim (Option-cases (sleep attempt)) [
      | inl f ↦
          let (n, k, r) =
            retry_from-none left (suc attempt) (next delay) (rw (retry_from, e, f) at h) in
          (n, k, rw (retry_from, e, f) r)
      | inr (w, f) ↦ cc (rw (retry_from, e, f) at h)
    ]
  ]

module _ {E C D A : Type 0} (servers : Servers E C D) (body : D → A) (database : Database)
    (is_running is_short : Bool) where
  abbrev pub started : Outcome E C
  started = start_with_retry (servers.start database) servers.start_sleep

  abbrev pub answered : D → Outcome E (Unit {0})
  answered db = ping_until_ready (pinging servers db) servers.ping_sleep

  -- Starting has succeeded with this container, which some attempt gave without an error.
  abbrev pub IsStarted : C → Type 0
  IsStarted c =
      (started.error ≡ none)
      × ((n : ℕ) × ((servers.start database n).1 ≡ none) × (c ≡ (servers.start database n).0))

  -- A pool is opened at the container's own address.
  abbrev pub IsOpened : C → D → Type 0
  IsOpened c db =
      (dsn : Text) × (servers.connection_string c database.dsn_params ≡ ok dsn)
      × (servers.open_pool database.driver_name dsn ≡ ok db)

  -- The address is not known, or no pool is opened at it.
  abbrev pub IsUnopened : C → E → Type 0
  IsUnopened c e =
      (servers.connection_string c database.dsn_params ≡ err e)
      ⊎ ((dsn : Text) × (servers.connection_string c database.dsn_params ≡ ok dsn)
          × (servers.open_pool database.driver_name dsn ≡ err e))

  -- The lives that a test can have, with the cleanups in the order in which they run, and the containers
  -- that came with an error. An end after a container was started has the evidence of what failed.
  pub data Life : Test E C D A × List C → Type 0 where
    skips :
        (why : Skip)
        → skip_if_not_running is_running is_short ≡ some why
        → Life (record { verdict = skipped why; cleanups = [] }, [])
    starts_nothing :
        (e : E)
        → skip_if_not_running is_running is_short ≡ none
        → started.error ≡ some e
        → Life (record { verdict = failed e; cleanups = [] }, started.dropped)
    opens_nothing :
        (c : C) (e : E)
        → IsStarted c
        → IsUnopened c e
        → Life (record { verdict = failed e; cleanups = terminate c ∷ [] }, started.dropped)
    is_not_answered :
        (c : C) (db : D) (e : E)
        → IsStarted c
        → IsOpened c db
        → (answered db).error ≡ some e
        → Life
            (record { verdict = failed e; cleanups = close db ∷ terminate c ∷ [] }, started.dropped)
    runs :
        (c : C) (db : D)
        → skip_if_not_running is_running is_short ≡ none
        → IsStarted c
        → IsOpened c db
        → (n : ℕ) × (servers.ping db n ≡ none)
        → Life (
          record { verdict = finished (body db); cleanups = close db ∷ terminate c ∷ [] },
          started.dropped,
        )

  abbrev Lives : Test E C D A → Type 0
  Lives t = Life (t, started.dropped)

  with_pool-Life :
      (c : C)
      → skip_if_not_running is_running is_short ≡ none
      → IsStarted c
      → Lives (with_pool servers body database c (terminate c ∷ []))
  unfolding with_pool ping_until_ready
  with_pool-Life c wanted begun =
      elim (Result-cases (servers.connection_string c database.dsn_params)) [
        | inr (e, h) ↦ subst Lives (sym (rw (with_pool, h) refl)) (opens_nothing c e begun (inl h))
        | inl (dsn, h) ↦ elim (Result-cases (servers.open_pool database.driver_name dsn)) [
          | inr (e, k) ↦
              subst Lives (sym (rw (with_pool, h, k) refl))
                (opens_nothing c e begun (inr (dsn, h, k)))
          | inl (db, k) ↦ elim (Option-cases (answered db).error) [
            | inr (e, l) ↦
                subst Lives (sym (rw (with_pool, h, k, l) refl))
                  (is_not_answered c db e begun (dsn, h, k) l)
            | inl l ↦
                let (n, p, _) =
                  retry_from-none (pinging servers db) servers.ping_sleep capped 9 0
                    ready_initial_delay l in
                subst Lives (sym (rw (with_pool, h, k, l) refl))
                  (runs c db wanted begun (dsn, h, k) (n, p))
          ]
        ]
      ]

  -- A test over a database's container is skipped, where containers were not asked for or a short run was,
  -- and has started none; or starting has failed; or it has the container that some attempt started, and
  -- terminates it at the end, after closing the pool, if one was opened: also where no address is known, no
  -- pool is opened, or no ping is answered. Its body runs only on a pool that has answered. No cleanup is
  -- registered for a container that came with an error.
  pub run_database-Life : Life (run_database servers body database is_running is_short)
  unfolding run_database run_container start_with_retry
  run_database-Life = elim (Option-cases (skip_if_not_running is_running is_short)) [
    | inr (why, h) ↦ subst Life (sym (rw (run_database, run_container, h) refl)) (skips why h)
    | inl h ↦ elim (Option-cases started.error) [
      | inr (e, k) ↦
          subst Life (sym (rw (run_database, run_container, h, k) refl)) (starts_nothing e h k)
      | inl k ↦
          let (n, s, r) =
            retry_from-none (servers.start database) servers.start_sleep doubled 4 0
              start_initial_delay k in
          subst Life (sym (rw (run_database, run_container, h, k) refl))
            (with_pool-Life started.result h (k, (n, s, r)))
    ]
  ]
