-- ===== src/Heartbeat/Maintained.antt =====
-- A lease that is beaten in time stays current, whatever goes on in between.
use safe_fs_ops.Prelude.{
  ℕ, zero, suc, ◌+◌, ◌*◌, ◌≤◌, ◌<◌, String, ◌≡◌, ◌≢◌, refl, Bool, true, false, ◌&&◌, ◌==◌, Option,
  none, List, [], ◌∷◌, arith, inl, inr, ltb, Bool-cases, Option-cases, text_discrete, differ, subst,
  sym,
}
use safe_fs_ops.Table.Keys.{has, select-All}
use safe_fs_ops.Platform.{Platform}
use safe_fs_ops.Database.{Database, BatchPhase, LeaseRecord, ok}
use safe_fs_ops.Lease.{lease_name, lease_row, lease_is_current, acquire}
use safe_fs_ops.Lease.Rows.{IsValid, Stamped, lease_is_current_lem}
use safe_fs_ops.Lease.Acquire.{acquire_live}
use safe_fs_ops.Lease.Holding.{heartbeat_extends}
use safe_fs_ops.Journal.Batch.{transition_batch}
use safe_fs_ops.Journal.Steps.{Step, transitions}
use safe_fs_ops.Journal.Frame.Steps.{Step-others}
use safe_fs_ops.Heartbeat.{Heartbeat, heartbeat_once, run_round, fresh, interval}

-- The rounds of the thread wait for less than the ttl, from a hundredth of a second on; for a ttl
-- that is not longer than that they do not.
pub interval_lem :
    (ttl : ℕ) → (10000 < ttl → interval ttl < 3 * ttl) × (ttl ≤ 10000 → 3 * ttl ≤ interval ttl)
unfolding interval
interval_lem ttl = (λ more. ground arith, λ less. ground arith)

module _ ⦃p : Platform⦄ where
  -- What happens while the lease is kept: a round of the thread, a caller who tries to acquire the
  -- lease, and a move of a batch by the holder.
  pub data Event : Type 0 where
    round : ℕ → Event
    attempt : String → ℕ → Option String → String → ℕ → Event
    move : String → BatchPhase → Option String → String → ℕ → Event

  unfoldable pub happens : LeaseRecord → ℕ → Event → Heartbeat × Database → Heartbeat × Database
  happens lease ttl (round now) (h, db) = run_round lease ttl now h db
  happens lease ttl (attempt owner ttl' token drawn now) (h, db) =
      (h, (acquire lease.name owner ttl' token drawn now db).1)
  happens lease ttl (move id phase message payload now) (h, db) =
      (h, (transition_batch id lease phase message payload now db).1)

  unfoldable pub all_happen :
      LeaseRecord → ℕ → List Event → Heartbeat × Database → Heartbeat × Database
  unfolding happens
  all_happen lease ttl [] state = state
  all_happen lease ttl (event ∷ rest) state =
      all_happen lease ttl rest (happens lease ttl event state)

  -- Every round and every attempt comes before the lease expires, which the rounds put off.
  unfoldable pub timely : ℕ → ℕ → List Event → Bool
  timely ttl expiry [] = true
  timely ttl expiry (round now ∷ rest) = ltb now expiry && timely ttl (now + ttl) rest
  timely ttl expiry (attempt owner ttl' token drawn now ∷ rest) =
      ltb now expiry && timely ttl expiry rest
  timely ttl expiry (move id phase message payload now ∷ rest) = timely ttl expiry rest

  unfoldable pub last_expiry : ℕ → ℕ → List Event → ℕ
  last_expiry ttl expiry [] = expiry
  last_expiry ttl expiry (round now ∷ rest) = last_expiry ttl (now + ttl) rest
  last_expiry ttl expiry (attempt owner ttl' token drawn now ∷ rest) = last_expiry ttl expiry rest
  last_expiry ttl expiry (move id phase message payload now ∷ rest) = last_expiry ttl expiry rest

  -- The lease is current until an instant, on a well-formed table.
  abbrev pub Held : LeaseRecord → ℕ → Database → Type 0
  Held lease expiry db = IsValid db.leases × ((t : ℕ) → lease_is_current lease t db ≡ ltb t expiry)

  -- No round has failed, and the lease is held.
  Alive : LeaseRecord → ℕ → Heartbeat × Database → Type 0
  Alive lease expiry (h, db) = (h.error ≡ none) × (h.stop ≡ false) × Held lease expiry db

  other_name : (s : String) → (k : String) × (k ≢ s)
  unfolding text_discrete
  other_name s = elim (Bool-cases (s == "")) [
    | inl empty ↦ ("x", let d = differ "x" "" refl in ground arith)
    | inr named ↦ ("", ground arith)
  ]

  heartbeat_once-Held :
      (lease : LeaseRecord) (ttl now : ℕ) (db : Database)
      → IsValid db.leases
      → ttl ≢ 0
      → lease_is_current lease now db ≡ true
      → let (answer, db') = heartbeat_once lease ttl now db in
        (answer ≡ ok tt) × Held lease (now + ttl) db'
  unfolding heartbeat_once
  heartbeat_once-Held lease ttl now db v pos cur =
      let (k, other) = other_name lease.name in
      let (beat, is, _, _, _, _, valid) = heartbeat_extends lease ttl now db 0 k v pos cur other in
      (ground arith, (valid, λ t. (heartbeat_extends lease ttl now db t k v pos cur other).4))

  attempt_refused :
      (lease : LeaseRecord) (owner : String) (ttl : ℕ) (token : Option String) (fresh : String)
      (now : ℕ) (db : Database)
      → IsValid db.leases
      → lease_is_current lease now db ≡ true
      → (acquire lease.name owner ttl token fresh now db).1 ≡ db
  unfolding acquire
  attempt_refused lease owner zero token fresh now db v cur = refl
  attempt_refused lease owner (suc ttl) token fresh now db v cur =
      elim (Option-cases (lease_row lease.name db)) [
        | inl gone ↦ absurd (ground (arith, lease_is_current_lem lease now db v.unique))
        | inr (r, found) ↦
            let (a, h, x, ea, eh, ex) =
              select-All Stamped (has lease_name lease.name) db.leases r v.stamped found in
            let live : now < x =
              ground (arith, lease_is_current_lem lease now db v.unique, p.isoformat_order now x) in
            ground (
              arith,
              acquire_live lease.name owner (suc ttl) token fresh now db r a h x (omega arith) found
                  ea eh ex live,
            )
      ]

  move-Held :
      (lease : LeaseRecord) (id : String) (phase : BatchPhase) (message : Option String)
      (payload : String) (now expiry : ℕ) (db : Database)
      → Held lease expiry db
      → Held lease expiry (transition_batch id lease phase message payload now db).1
  unfolding lease_is_current
  move-Held lease id phase message payload now expiry db (v, held) =
      let step : Step db (transition_batch id lease phase message payload now db).1 =
        transitions id lease phase message payload now in
      let kept = Step-others step in
      let same : (transition_batch id lease phase message payload now db).1.leases ≡ db.leases =
        ground arith in
      rw same (v, held)

  -- A lease that is held on a well-formed table, and beaten by rounds that each come before it
  -- expires, stays current: after any sequence of such rounds, of attempts of others to acquire it
  -- before it expires, and of moves of batches, no round has failed, the thread still runs, and the
  -- lease is current until its ttl after the last round.
  pub all_happen-last_expiry :
      (lease : LeaseRecord) (ttl expiry : ℕ) (events : List Event) (db : Database)
      → ttl ≢ 0
      → IsValid db.leases
      → ((t : ℕ) → lease_is_current lease t db ≡ ltb t expiry)
      → timely ttl expiry events ≡ true
      → let (h, db') = all_happen lease ttl events (fresh, db) in
        (h.error ≡ none)
        × (h.stop ≡ false)
        × (IsValid db'.leases
            × ((t : ℕ) → lease_is_current lease t db' ≡ ltb t (last_expiry ttl expiry events)))
  unfolding Alive all_happen happens timely last_expiry run_round
  all_happen-last_expiry lease ttl expiry [] db pos v held in_time = (refl, refl, (v, held))
  all_happen-last_expiry lease ttl expiry (round now ∷ rest) db pos v held in_time =
      let (beat, (v', held')) =
        heartbeat_once-Held lease ttl now db v pos (ground (arith, held now)) in
      let done =
        all_happen-last_expiry lease ttl (now + ttl) rest (heartbeat_once lease ttl now db).1 pos v'
          held' (ground arith) in
      let went : run_round lease ttl now fresh db ≡ (fresh, (heartbeat_once lease ttl now db).1) =
        ground arith in
      subst
        (λ state. Alive lease (last_expiry ttl (now + ttl) rest) (all_happen lease ttl rest state))
        (sym went) done
  all_happen-last_expiry lease ttl expiry (attempt owner ttl' token text now ∷ rest) db pos v held
        in_time =
      let same = attempt_refused lease owner ttl' token text now db v (ground (arith, held now)) in
      subst
        (λ db'. Alive lease (last_expiry ttl expiry rest) (all_happen lease ttl rest (fresh, db')))
        (sym same) (all_happen-last_expiry lease ttl expiry rest db pos v held (ground arith))
  all_happen-last_expiry lease ttl expiry (move id phase message payload now ∷ rest) db pos v held
        in_time =
      let (v', held') = move-Held lease id phase message payload now expiry db (v, held) in
      all_happen-last_expiry lease ttl expiry rest
        (transition_batch id lease phase message payload now db).1 pos v' held' (ground arith)
