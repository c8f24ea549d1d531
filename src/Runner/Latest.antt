-- ===== src/Runner/Latest.antt =====
-- The actions that the runner takes up: for each action of the current attempt, its latest record.
use safe_fs_ops.Prelude.{
  String, ◌≡◌, refl, Bool, ◌&&◌, none, some, List, [], ◌∷◌, ◌++◌, arith, ◌==◌, if◌then◌else◌,
  is_some, inl, inr, Bool-cases,
}
use safe_fs_ops.Table.{select}
use safe_fs_ops.Table.Keys.{has, Unique}
use safe_fs_ops.Database.{RecoveryActionRow}
use safe_fs_ops.Planning.Latest.{last_of}
use safe_fs_ops.Runner.{
  dict_get, dict_set, Seen, see_action, see_actions, gather,
  latest_current_attempt_recovery_actions,
}

abbrev pub action_key : RecoveryActionRow → String
action_key r = r.action_id

-- The dict and the order that a list of rows stands for.
abbrev entries : List RecoveryActionRow → List (String × RecoveryActionRow)
entries [] = []
entries (r ∷ rest) = (r.action_id, r) ∷ entries rest

abbrev keys : List RecoveryActionRow → List String
keys [] = []
keys (r ∷ rest) = r.action_id ∷ keys rest

abbrev seen_of : List RecoveryActionRow → Seen
seen_of rows = record { latest = entries rows; order = keys rows }

-- A record replaces the one of its action, or comes last.
put : RecoveryActionRow → List RecoveryActionRow → List RecoveryActionRow
put action [] = action ∷ []
put action (r ∷ rest) =
    let later = put action rest in
    if r.action_id == action.action_id then action ∷ rest else r ∷ later

dict_get-entries :
    (key : String) (rows : List RecoveryActionRow)
    → dict_get key (entries rows) ≡ select (has action_key key) rows
unfolding dict_get select
dict_get-entries key [] = refl
dict_get-entries key (r ∷ rest) = ground (arith, dict_get-entries key rest)

dict_set-entries :
    (action : RecoveryActionRow) (rows : List RecoveryActionRow)
    → dict_set action.action_id action (entries rows) ≡ entries (put action rows)
unfolding dict_set put
dict_set-entries action [] = refl
dict_set-entries action (r ∷ rest) = ground (arith, dict_set-entries action rest)

keys-put :
    (action : RecoveryActionRow) (rows : List RecoveryActionRow)
    → keys (put action rows) ≡ (
        if is_some (select (has action_key action.action_id) rows)
        then keys rows
        else keys rows ++ action.action_id ∷ [])
unfolding put select
keys-put action [] = refl
keys-put action (r ∷ rest) = ground (arith, keys-put action rest)

select-put :
    (key : String) (action : RecoveryActionRow) (rows : List RecoveryActionRow)
    → select (has action_key key) (put action rows)
      ≡ (if action.action_id == key then some action else select (has action_key key) rows)
unfolding put select
select-put key action [] = refl
select-put key action (r ∷ rest) = ground (arith, select-put key action rest)

put-Unique :
    (action : RecoveryActionRow) (rows : List RecoveryActionRow)
    → Unique action_key rows
    → Unique action_key (put action rows)
unfolding put select
put-Unique action [] u = (refl, tt)
put-Unique action (r ∷ rest) (fresh, u) = elim (Bool-cases (r.action_id == action.action_id)) [
  | inl same ↦ rw same (ground arith, u)
  | inr other ↦
      rw other (ground (arith, select-put r.action_id action rest), put-Unique action rest u)
]

gather-skip :
    (key : String) (v : RecoveryActionRow) (rest : List RecoveryActionRow)
    (latest : List (String × RecoveryActionRow))
    → select (has action_key key) rest ≡ none
    → gather (keys rest) ((key, v) ∷ latest) ≡ gather (keys rest) latest
unfolding gather dict_get select
gather-skip key v [] latest e = refl
gather-skip key v (r ∷ rest) latest e =
    let later = gather-skip key v rest latest (ground arith) in ground arith

gather-keys :
    (rows : List RecoveryActionRow)
    → Unique action_key rows
    → gather (keys rows) (entries rows) ≡ some rows
unfolding gather dict_get
gather-keys [] u = refl
gather-keys (r ∷ rest) (fresh, u) =
    ground (arith, gather-skip r.action_id r rest (entries rest) fresh, gather-keys rest u)

see_action-put :
    (action : RecoveryActionRow) (rows : List RecoveryActionRow)
    → see_action action (seen_of rows) ≡ seen_of (put action rows)
unfolding see_action
see_action-put action rows = ground (
  arith,
  dict_get-entries action.action_id rows,
  dict_set-entries action rows,
  keys-put action rows,
)

abbrev of_attempt : String → String → RecoveryActionRow → Bool
of_attempt attempt key r = r.recovery_attempt_id == attempt && has action_key key r

-- Where the loop gets to: a list of rows, one for each action, that finds the last record of each.
see_actions_lem :
    (attempt : String) (rows actions : List RecoveryActionRow)
    → Unique action_key rows
    → (found : List RecoveryActionRow) × (see_actions attempt (seen_of rows) actions
        ≡ seen_of found)
      × Unique action_key found
      × ((key : String)
          → select (has action_key key) found
            ≡ last_of (of_attempt attempt key) (select (has action_key key) rows) actions)
unfolding see_actions last_of
see_actions_lem attempt rows [] u = (rows, refl, u, λ key. refl)
see_actions_lem attempt rows (action ∷ rest) u =
    elim (Bool-cases (action.recovery_attempt_id == attempt)) [
      | inl current ↦
          let (found, is, one, finds) =
            see_actions_lem attempt (put action rows) rest (put-Unique action rows u) in
          (
            found,
            ground (arith, see_action-put action rows),
            one,
            λ key. ground (arith, finds key, select-put key action rows),
          )
      | inr other ↦
          let (found, is, one, finds) = see_actions_lem attempt rows rest u in
          (found, ground arith, one, λ key. ground (arith, finds key))
    ]

-- The runner takes up each action of the current attempt once, with the last record of that action
-- in the order of the journal, and it never looks up a missing one.
pub latest_current_attempt_recovery_actions-last_of :
    (attempt : String) (actions : List RecoveryActionRow)
    → (found : List RecoveryActionRow) × (latest_current_attempt_recovery_actions
          (some attempt)
          actions
        ≡ some found)
      × Unique action_key found
      × ((key : String)
          → select (has action_key key) found
            ≡ last_of (λ r. r.recovery_attempt_id == attempt && has action_key key r) none actions)
unfolding latest_current_attempt_recovery_actions select
latest_current_attempt_recovery_actions-last_of attempt actions =
    let (found, is, one, finds) = see_actions_lem attempt [] actions tt in
    (found, ground (arith, gather-keys found one), one, finds)
