-- ===== src/Commit/Completed.antt =====
-- `completed_artifact_sha256` of futures_fund/reconcile_commit.py: which artifacts a completed cycle binds.
use gpt_market_neutral_crypt.Prelude.{
  ℕ, ◌≤◌, ◌≡◌, true, false, Option, none, some, List, [], ◌∷◌, String, arith, sym, ap, ◌∙◌, inl,
  inr, Bool-cases, Option-cases, str_eq, eq_iff, ltb, lookup, if◌then◌else◌,
}
use gpt_market_neutral_crypt.Commit.{
  Artifact, Artifacts, Canonical, Others, Manifest, Complete, CompleteFile, present, Protocol, Disk,
}
use gpt_market_neutral_crypt.Commit.Completion.{
  artifact_sha, read_values, manifest_values, verify_completion_manifest, marker_complete,
  cycle_is_complete,
}

module _ (sha : Canonical) (o : Others) where
  -- The hash that a manifest lists for an artifact, where the file still has it.
  listed : Artifacts → String → Option Manifest → Option String
  listed files artifact none = none
  listed files artifact (some m) =
      elim (lookup artifact m.artifact_sha256) as (λ _. Option String) [
        | none ↦ none
        | some expected ↦ elim (lookup artifact files) as (λ _. Option String) [
          | none ↦ none
          | some v ↦ if str_eq (artifact_sha sha v) expected then some expected else none
        ]
      ]

  abbrev manifest_of : CompleteFile → Option Manifest
  manifest_of (present c) = c.manifest
  manifest_of _ = none

  -- `completed_artifact_sha256`
  pub completed_artifact_sha256 : Disk → ℕ → String → String → Option String
  unfolding listed
  completed_artifact_sha256 d cycle cadence artifact = elim d.protocol as (λ _. Option String) [
    | none ↦ none
    | some p ↦
        if ltb cycle p.first_cycle
        then none
        else if cycle_is_complete sha o d cycle cadence true
        then listed d.files artifact (manifest_of d.complete)
        else none
  ]

  -- A cycle that the protocol covers and that is complete has a manifest that verifies.
  pub complete-manifest :
      (d : Disk) (p : Protocol) (cycle : ℕ) (cadence : String) (c : Complete)
      → d.protocol ≡ some p
      → ltb cycle p.first_cycle ≡ false
      → d.complete ≡ present c
      → cycle_is_complete sha o d cycle cadence true ≡ true
      → verify_completion_manifest sha o d cycle c cadence ≡ true
  unfolding cycle_is_complete marker_complete
  complete-manifest d p cycle cadence c known late there h = ground (arith, known, late, there)

  -- A manifest whose files were read lists the hashes that they have.
  read_values-lookup :
      (files : Artifacts) (names : List (String × String)) (values : Artifacts)
      (artifact expected : String)
      → read_values sha o files names ≡ some values
      → lookup artifact names ≡ some expected
      → (v : Artifact) × (lookup artifact files ≡ some v) × (artifact_sha sha v ≡ expected)
  unfolding read_values lookup
  read_values-lookup files [] values artifact expected h there = absurd (ground arith)
  read_values-lookup files ((name, listed_sha) ∷ rest) values artifact expected h there =
      elim (Option-cases (lookup name files)) [
        | inl lost ↦ absurd (ground arith)
        | inr (v, found) ↦ elim (Option-cases (read_values sha o files rest)) [
          | inl lost ↦ absurd (ground arith)
          | inr (later, read) ↦ elim (Bool-cases (str_eq artifact name)) [
            | inl same ↦
                let this : artifact ≡ name = (eq_iff artifact name).0 same in
                (
                  v,
                  ap (λ (x : String). lookup x files) this ∙ found,
                  ground (arith, eq_iff (artifact_sha sha v) listed_sha),
                )
            | inr other ↦ read_values-lookup files rest later artifact expected read (ground arith)
          ]
        ]
      ]

  verified-values :
      (d : Disk) (cycle : ℕ) (c : Complete) (cadence : String) (m : Manifest)
      → c.manifest ≡ some m
      → verify_completion_manifest sha o d cycle c cadence ≡ true
      → (values : Artifacts) × (read_values sha o d.files m.artifact_sha256 ≡ some values)
  unfolding verify_completion_manifest manifest_values
  verified-values d cycle c cadence m has h =
      elim (Option-cases (read_values sha o d.files m.artifact_sha256)) [
        | inl lost ↦ absurd (ground arith)
        | inr found ↦ found
      ]

  listed-lookup :
      (files : Artifacts) (m : Manifest) (values : Artifacts) (artifact : String)
      → read_values sha o files m.artifact_sha256 ≡ some values
      → listed files artifact (some m) ≡ lookup artifact m.artifact_sha256
  unfolding listed
  listed-lookup files m values artifact read =
      elim (Option-cases (lookup artifact m.artifact_sha256)) [
        | inl lost ↦ ground arith
        | inr (expected, there) ↦
            let (v, found, same) =
              read_values-lookup files m.artifact_sha256 values artifact expected read there in
            let equal : str_eq (artifact_sha sha v) expected ≡ true =
              (eq_iff (artifact_sha sha v) expected).1 same in
            ground (arith, there, found, equal)
      ]

  -- In a complete cycle that the protocol covers, the artifacts that are bound are exactly those that the manifest lists,
  -- each with the listed hash, which its file has.
  pub completed_artifact_sha256_lem :
      (d : Disk) (p : Protocol) (cycle : ℕ) (cadence artifact : String) (c : Complete)
      (m : Manifest)
      → d.protocol ≡ some p
      → p.first_cycle ≤ cycle
      → d.complete ≡ present c
      → c.manifest ≡ some m
      → cycle_is_complete sha o d cycle cadence true ≡ true
      → (completed_artifact_sha256 d cycle cadence artifact ≡ lookup artifact m.artifact_sha256)
        × ((expected : String)
            → completed_artifact_sha256 d cycle cadence artifact ≡ some expected
            → (v : Artifact) × (lookup artifact d.files ≡ some v) × (artifact_sha sha v ≡ expected))
  unfolding completed_artifact_sha256
  completed_artifact_sha256_lem d p cycle cadence artifact c m known late there has complete =
      let after : ltb cycle p.first_cycle ≡ false = ground (arith, late) in
      let verified = complete-manifest d p cycle cadence c known after there complete in
      let (values, read) = verified-values d cycle c cadence m has verified in
      let same : completed_artifact_sha256 d cycle cadence artifact
          ≡ lookup artifact m.artifact_sha256 =
        ground (arith, known, after, complete)
        ∙ ap (listed d.files artifact) (ap manifest_of there ∙ has)
        ∙ listed-lookup d.files m values artifact read in
      (
        same,
        λ expected found.
            read_values-lookup d.files m.artifact_sha256 values artifact expected read
              (sym same ∙ found),
      )
