-- ===== src/Planning/Safety.antt =====
-- What a proof of file_recovery_planning.py rests on: a file is overwritten only from a recorded
-- backup and over a recorded state, and left alone only if it is as it was.
use safe_fs_ops.Prelude.{
  String, ◌≡◌, refl, true, false, Option, none, some, List, arith, ◌⊎◌, inl, inr, Option-cases,
  Bool-cases, sym, ◌∙◌,
}
use safe_fs_ops.Json.{Json, Fields, Attempt, Attempt-cases, answer, Paths}
use safe_fs_ops.Planning.Files.{
  Checkpoint, latest_checkpoint, is_snapshot_payload, matches_expected_after,
  failure_stage_is_before_mutation, failure_snapshot_payload, failure_observed_after_payload,
  expected_current, snapshot_if, agreeing, payload_of, first_of, recorded_after, seen_at_failure,
  seen_by_checkpoint, seen_before,
}

module _ ⦃p : Paths⦄ where
  -- The snapshot was recorded as the state after the mutation; or it was seen at the failure, then
  -- or in a checkpoint, and is what was expected after the mutation; or the failure came before the
  -- mutation.
  abbrev pub Recorded : List Checkpoint → String → String → Json → Fields → Type 0
  Recorded checkpoints key path failure current =
      ((c : Checkpoint) × (latest_checkpoint "after" key path checkpoints ≡ some c)
        × (c.payload ≡ current))
      ⊎ (((e : Checkpoint) × (latest_checkpoint "expected_after" key path checkpoints ≡ some e)
            × (matches_expected_after current e.payload path ≡ answer true)
            × ((failure_observed_after_payload failure ≡ some current)
                ⊎ (payload_of (latest_checkpoint "failure" key path checkpoints) ≡ some current)))
          ⊎ ((failure_stage_is_before_mutation failure ≡ true)
              × (failure_snapshot_payload failure ≡ some current)))

  snapshot_if_inv :
      (given : Option Fields) (path : String) (current : Fields)
      → snapshot_if given path ≡ answer (some current)
      → (given ≡ some current) × (is_snapshot_payload current path ≡ answer true)
  snapshot_if_inv none path current e = absurd (ground arith)
  snapshot_if_inv (some payload) path current e =
      elim (Attempt-cases (is_snapshot_payload payload path)) [
        | inl (true, is) ↦ (ground arith, ground arith)
        | inl (false, is) ↦ absurd (ground arith)
        | inr raised ↦ absurd (ground arith)
      ]

  agreeing_inv :
      (given : Option Fields) (expected : Option Checkpoint) (path : String) (current : Fields)
      → agreeing given expected path ≡ answer (some current)
      → (e : Checkpoint) × (expected ≡ some e)
        × (given ≡ some current)
        × (matches_expected_after current e.payload path ≡ answer true)
  agreeing_inv none expected path current e = absurd (ground arith)
  agreeing_inv (some payload) none path current e = absurd (ground arith)
  agreeing_inv (some payload) (some c) path current e =
      elim (Attempt-cases (matches_expected_after payload c.payload path)) [
        | inl (true, is) ↦ (c, refl, ground arith, ground arith)
        | inl (false, is) ↦ absurd (ground arith)
        | inr raised ↦ absurd (ground arith)
      ]

  matches_expected_after-is_snapshot_payload :
      (snapshot expected : Fields) (path : String)
      → matches_expected_after snapshot expected path ≡ answer true
      → is_snapshot_payload snapshot path ≡ answer true
  unfolding matches_expected_after
  matches_expected_after-is_snapshot_payload snapshot expected path e =
      elim (Attempt-cases (is_snapshot_payload snapshot path)) [
        | inl (true, is) ↦ is
        | inl (false, is) ↦ absurd (ground arith)
        | inr raised ↦ absurd (ground arith)
      ]

  first_of_inv :
      (here later : Attempt (Option Fields)) (current : Fields)
      → first_of here later ≡ answer (some current)
      → (here ≡ answer (some current)) ⊎ (later ≡ answer (some current))
  unfolding first_of
  first_of_inv here later current e = elim (Attempt-cases here) [
    | inl (some payload, is) ↦ inl (ground arith)
    | inl (none, is) ↦ inr (ground arith)
    | inr raised ↦ absurd (ground arith)
  ]

  seen_Recorded :
      (checkpoints : List Checkpoint) (key path : String) (failure : Json) (given : Option Fields)
      (current : Fields)
      → ((given ≡ failure_observed_after_payload failure)
          ⊎ (given ≡ payload_of (latest_checkpoint "failure" key path checkpoints)))
      → agreeing given (latest_checkpoint "expected_after" key path checkpoints) path
        ≡ answer (some current)
      → (is_snapshot_payload current path ≡ answer true)
        × Recorded checkpoints key path failure current
  seen_Recorded checkpoints key path failure given current from e =
      let (c, there, is, agree) =
        agreeing_inv given (latest_checkpoint "expected_after" key path checkpoints) path current
          e in
      (
        matches_expected_after-is_snapshot_payload current c.payload path agree,
        inr (
            inl (
              c,
              there,
              agree,
              elim from [ inl same ↦ inl (sym same ∙ is) | inr same ↦ inr (sym same ∙ is) ],
            )),
      )

  seen_before_inv :
      (checkpoints : List Checkpoint) (key path : String) (failure : Json) (current : Fields)
      → seen_before path failure ≡ answer (some current)
      → (is_snapshot_payload current path ≡ answer true)
        × Recorded checkpoints key path failure current
  seen_before_inv checkpoints key path failure current e =
      elim (Bool-cases (failure_stage_is_before_mutation failure)) [
        | inr later ↦ absurd (ground arith)
        | inl before ↦
            let (there, is) =
              snapshot_if_inv (failure_snapshot_payload failure) path current (ground arith) in
            (is, inr (inr (before, there)))
      ]

  pub expected_current_inv :
      (checkpoints : List Checkpoint) (key path : String) (failure : Json) (current : Fields)
      → expected_current checkpoints key path failure ≡ answer (some current)
      → (is_snapshot_payload current path ≡ answer true)
        × Recorded checkpoints key path failure current
  unfolding expected_current
  expected_current_inv checkpoints key path failure current e =
      elim (first_of_inv (recorded_after checkpoints key path) _ current e) [
        | inl after ↦
            let (there, is) =
              snapshot_if_inv (payload_of (latest_checkpoint "after" key path checkpoints)) path
                current after in
            elim (Option-cases (latest_checkpoint "after" key path checkpoints)) [
              | inl missing ↦ absurd (ground arith)
              | inr (c, found) ↦ (is, inl (c, found, ground arith))
            ]
        | inr e1 ↦ elim (first_of_inv (seen_at_failure checkpoints key path failure) _ current e1) [
          | inl seen ↦
              seen_Recorded checkpoints key path failure (failure_observed_after_payload failure)
                current (inl refl) seen
          | inr e2 ↦ elim (first_of_inv (seen_by_checkpoint checkpoints key path) _ current e2) [
            | inl seen ↦
                seen_Recorded checkpoints key path failure
                  (payload_of (latest_checkpoint "failure" key path checkpoints)) current (inr refl)
                  seen
            | inr before ↦ seen_before_inv checkpoints key path failure current before
          ]
        ]
      ]
