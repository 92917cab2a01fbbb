-- ===== src/Containers/Retries.antt =====
-- internal/containers/containers.go: which attempt a policy returns, and how long it may wait.
use sqlc_gen_unison.Base.{
  ℕ, zero, suc, ◌+◌, ◌≤◌, ◌<◌, ◌≡◌, refl, sym, ap, subst, ◌∙◌, Option, none, List, [], ◌∷◌, some,
  arith, length, Option-cases, inl, inr,
}
use sqlc_gen_unison.Containers.{
  Outcome, give_up, start_initial_delay, ready_initial_delay, retry_from, doubled, capped,
  start_with_retry, ping_until_ready,
}

abbrev pub total_wait : List ℕ → ℕ
total_wait [] = 0
total_wait (d ∷ ds) = d + total_wait ds

-- All the delays of a policy that has `left` more attempts.
abbrev pub ladder : (ℕ → ℕ) → ℕ → ℕ → ℕ
ladder next zero delay = 0
ladder next (suc left) delay = delay + ladder next left (next delay)

not_below_zero : (j : ℕ) → j < 0 → ⊥
not_below_zero j h = elim h [ ]

module _ {E C : Type 0} (call : ℕ → C × Option E) where
  abbrev pub Fails : ℕ → Type 0
  Fails attempt = (e : E) × ((call attempt).1 ≡ some e)

  -- The outcome of attempt `first + k`, where those before have failed, and `left` were allowed.
  pub record IsFirst (first left : ℕ) (o : Outcome E C) (k : ℕ) : Type 0 where
    pub allowed : k ≤ left
    pub result : o.result ≡ (call (first + k)).0
    pub error : o.error ≡ (call (first + k)).1
    pub earlier : (j : ℕ) → j < k → Fails (first + j)
    pub gave_up : (e : E) → o.error ≡ some e → k ≡ left
    pub slept : length o.waits ≡ k

  give_up-eq :
      (r : C × Option E)
      → ((give_up r).result ≡ r.0) × ((give_up r).error ≡ r.1) × ((give_up r).waits ≡ [])
  give_up-eq (c, none) = (refl, refl, refl)
  give_up-eq (c, some e) = (refl, refl, refl)

  module _ (sleep : ℕ → Option E) (awake : (n : ℕ) → sleep n ≡ none) (next : ℕ → ℕ) where
    retry_from_ok :
        (left attempt delay : ℕ)
        → (call attempt).1 ≡ none
        → retry_from call sleep next (suc left) attempt delay
          ≡ record { result = (call attempt).0; error = none; waits = []; dropped = [] }
    unfolding retry_from
    retry_from_ok left attempt delay h = rw (retry_from, h) refl

    retry_from_err :
        (left attempt delay : ℕ) (x : E)
        → (call attempt).1 ≡ some x
        → retry_from call sleep next (suc left) attempt delay ≡ record {
          result = (retry_from call sleep next left (suc attempt) (next delay)).result;
          error = (retry_from call sleep next left (suc attempt) (next delay)).error;
          waits = delay ∷ (retry_from call sleep next left (suc attempt) (next delay)).waits;
          dropped =
              (call attempt).0
              ∷ (retry_from call sleep next left (suc attempt) (next delay)).dropped;
        }
    unfolding retry_from
    retry_from_err left attempt delay x h = rw (retry_from, h, awake attempt) refl

    earlier_suc :
        (attempt k : ℕ)
        → Fails attempt
        → ((j : ℕ) → j < k → Fails (suc attempt + j))
        → (j : ℕ) → j < suc k
        → Fails (attempt + j)
    earlier_suc attempt k f h zero l = subst Fails (omega arith) f
    earlier_suc attempt k f h (suc j) l = subst Fails (omega arith) (h j (omega arith))

    retry_from-IsFirst :
        (left attempt delay : ℕ)
        → (k : ℕ) × IsFirst attempt left (retry_from call sleep next left attempt delay) k
    retry_from-IsFirst zero attempt delay =
        unfold retry_from in
        let (result, error, waits) = give_up-eq (call attempt) in
        let here : attempt ≡ attempt + 0 = omega arith in
        (
          0,
          record {
            allowed = omega arith;
            result = result ∙ ap (λ n. (call n).0) here;
            error = error ∙ ap (λ n. (call n).1) here;
            earlier = λ j h. absurd (not_below_zero j h);
            gave_up = λ e h. refl;
            slept = ap length waits;
          },
        )
    retry_from-IsFirst (suc left) attempt delay = elim (Option-cases (call attempt).1) [
      | inl e ↦
          let here : attempt ≡ attempt + 0 = omega arith in
          (
            0,
            subst (λ o. IsFirst attempt (suc left) o 0) (sym (retry_from_ok left attempt delay e))
                (record {
                  allowed = omega arith;
                  result = ap (λ n. (call n).0) here;
                  error = sym e ∙ ap (λ n. (call n).1) here;
                  earlier = λ j h. absurd (not_below_zero j h);
                  gave_up = λ x h. cc;
                  slept = refl;
                }),
          )
      | inr (x, e) ↦
          let (k, v) = retry_from-IsFirst left (suc attempt) (next delay) in
          let later : suc attempt + k ≡ attempt + suc k = omega arith in
          (
            suc k,
            subst (λ o. IsFirst attempt (suc left) o (suc k))
                (sym (retry_from_err left attempt delay x e))
                (record {
                  allowed = omega (arith, v.allowed);
                  result = v.result ∙ ap (λ n. (call n).0) later;
                  error = v.error ∙ ap (λ n. (call n).1) later;
                  earlier = earlier_suc attempt k (x, e) v.earlier;
                  gave_up = λ y h. ap suc (v.gave_up y h);
                  slept = ap suc v.slept;
                }),
          )
    ]

  module _ (sleep : ℕ → Option E) (next : ℕ → ℕ) where
    retry_from-ladder :
        (left attempt delay : ℕ)
        → total_wait (retry_from call sleep next left attempt delay).waits ≤ ladder next left delay
    unfolding retry_from
    retry_from-ladder zero attempt delay =
        let (_, _, waits) = give_up-eq (call attempt) in rw waits (omega arith)
    retry_from-ladder (suc left) attempt delay = elim (Option-cases (call attempt).1) [
      | inl e ↦ rw (retry_from, e) (omega arith)
      | inr (x, e) ↦ elim (Option-cases (sleep attempt)) [
        | inl s ↦
            rw (retry_from, e, s) (omega (arith, retry_from-ladder left (suc attempt) (next delay)))
        | inr (w, s) ↦ rw (retry_from, e, s) (omega arith)
      ]
    ]

module _ {E C : Type 0} (call : ℕ → C × Option E) (sleep : ℕ → Option E) where
  -- Unless a sleep is interrupted, starting returns the first attempt that succeeds, and the error of
  -- the fifth if none does, having slept once between any two attempts.
  pub start_with_retry-IsFirst :
      ((n : ℕ) → sleep n ≡ none) → (k : ℕ) × IsFirst call 0 4 (start_with_retry call sleep) k
  unfolding start_with_retry
  start_with_retry-IsFirst awake =
      retry_from-IsFirst call sleep awake doubled 4 0 start_initial_delay

  -- Starting sleeps for at most fifteen seconds in all, and waiting for the first answer for at most
  -- 11.1, whatever the attempts and the sleeps give.
  pub retries_total_wait :
      (total_wait (start_with_retry call sleep).waits ≤ 15000)
      × (total_wait (ping_until_ready call sleep).waits ≤ 11100)
  unfolding start_with_retry ping_until_ready
  retries_total_wait = (
    retry_from-ladder call sleep doubled 4 0 start_initial_delay,
    retry_from-ladder call sleep capped 9 0 ready_initial_delay,
  )
