-- ===== src/Runner/Actions.antt =====
-- `_latest_current_attempt_recovery_actions` of recovery_runner.py, on the rows of recovery
-- actions. A dict is the list of its entries in the order in which their keys were first set.
use safe_fs_ops.Prelude.{
  String, Option, none, some, List, [], ◌∷◌, ◌++◌, ◌==◌, if◌then◌else◌, is_some,
}
use safe_fs_ops.Database.{RecoveryActionRow}

-- `latest_by_action_id.get(key)`
unfoldable pub dict_get : {A : Type 0} → String → List (String × A) → Option A
dict_get key [] = none
dict_get key ((k, v) ∷ rest) = let found = dict_get key rest in if k == key then some v else found

-- `latest_by_action_id[key] = value`
unfoldable pub dict_set : {A : Type 0} → String → A → List (String × A) → List (String × A)
dict_set key value [] = (key, value) ∷ []
dict_set key value ((k, v) ∷ rest) =
    let later = dict_set key value rest in if k == key then (key, value) ∷ rest else (k, v) ∷ later

-- The state of the loop: `latest_by_action_id` and `action_order`.
pub record Seen : Type 0 where
  pub latest : List (String × RecoveryActionRow)
  pub order : List String

unfoldable pub see_action : RecoveryActionRow → Seen → Seen
unfolding dict_get dict_set
see_action action seen = record {
  latest = dict_set action.action_id action seen.latest;
  order =
      if is_some (dict_get action.action_id seen.latest)
      then seen.order
      else seen.order ++ action.action_id ∷ [];
}

unfoldable pub see_actions : String → Seen → List RecoveryActionRow → Seen
unfolding see_action
see_actions attempt seen [] = seen
see_actions attempt seen (action ∷ rest) =
    see_actions attempt
      (if action.recovery_attempt_id == attempt then see_action action seen else seen) rest

abbrev joined : {A : Type 0} → Option A → Option (List A) → Option (List A)
joined none rest = none
joined (some a) none = none
joined (some a) (some rest) = some (a ∷ rest)

-- The final generator; `none` is KeyError.
unfoldable pub gather : {A : Type 0} → List String → List (String × A) → Option (List A)
unfolding dict_get
gather [] latest = some []
gather (key ∷ order) latest = let rest = gather order latest in joined (dict_get key latest) rest

unfoldable pub latest_current_attempt_recovery_actions :
    Option String → List RecoveryActionRow → Option (List RecoveryActionRow)
unfolding see_actions gather
latest_current_attempt_recovery_actions none actions = some []
latest_current_attempt_recovery_actions (some attempt) actions =
    let seen = see_actions attempt (record { latest = []; order = [] }) actions in
    gather seen.order seen.latest
