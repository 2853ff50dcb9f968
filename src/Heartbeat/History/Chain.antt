-- ===== src/Heartbeat/History/Chain.antt =====
-- What `verify_heartbeat_history` of futures_fund/heartbeat.py accepts.
use gpt_market_neutral_crypt.Prelude.{
  ◌≤◌, ◌≡◌, ◌≢◌, refl, ◌⊎◌, inl, inr, Bool, true, false, ◌||◌, not, Option, none, some, List, [],
  ◌∷◌, String, arith, sym, ap, ◌∙◌, All, Outcome, value, raise_if, >>=-eq-value, >>=-eq-value,
  opt_eq, opt_eq_iff, Bool-cases, eq_iff, value-injective, ◌>>=◌, ◌>>◌, subst,
}
use gpt_market_neutral_crypt.Ledger.{jsonl_rows}
use gpt_market_neutral_crypt.Heartbeat.{
  HeartbeatRecord, HeartbeatDisk, HeartbeatCanonical, HeartbeatOthers,
}
use gpt_market_neutral_crypt.Heartbeat.Records.{
  record_eq_iff, record_identity, version_of, is_hashed, identity_eq, sort_by,
}
use gpt_market_neutral_crypt.Heartbeat.Completion.{
  record_sha, hash_holds, verify_heartbeat_completion,
}
use gpt_market_neutral_crypt.Heartbeat.History.{
  official, history_key, identified, sorted_official, seen_identity, allowed_commit, is_allowed,
  is_last, head_sha, check_hashed, check_row, verify_from, verify_heartbeat_history,
}

-- No row has the identity.
abbrev pub NewIdentity : String × String → List HeartbeatRecord → Type 0
NewIdentity id rows = All (λ (x : HeartbeatRecord). record_identity x ≢ value id) rows

pub identity_eq_iff : (a b : String × String) → identity_eq a b ≡ true → a ≡ b
identity_eq_iff (a, k) (b, l) h = ground (arith, eq_iff a b, eq_iff k l)

pub identity_eq_self : (a : String × String) → identity_eq a a ≡ true
identity_eq_self (a, k) = ground (arith, (eq_iff a a).1 refl, (eq_iff k k).1 refl)

module _ (sha : HeartbeatCanonical) (o : HeartbeatOthers) where
  -- A hashed row carries its own hash and that of the row before it, and its generation is intact, but for the last row
  -- where it is the allowed one; a legacy row stands before all hashed ones.
  abbrev IsLink :
      (HeartbeatRecord → Outcome Bool)
      → Option HeartbeatRecord
      → Bool
      → Option HeartbeatRecord
      → List HeartbeatRecord
      → HeartbeatRecord
      → Type 0
  IsLink intact allow hashed previous later r =
      ((2 ≤ version_of r)
        × (version_of r ≤ 4)
        × (r.record_sha256 ≡ some (record_sha sha o r))
        × (r.previous_heartbeat_sha256 ≡ head_sha sha o previous)
        × ((intact r ≡ value true) ⊎ ((allow ≡ some r) × (later ≡ []))))
      ⊎ ((version_of r ≤ 1) × (hashed ≡ false))

  abbrev pub IsHistory :
      (HeartbeatRecord → Outcome Bool)
      → Option HeartbeatRecord
      → Bool
      → Option HeartbeatRecord
      → List HeartbeatRecord
      → Type 0
  IsHistory intact allow hashed previous [] = Unit
  IsHistory intact allow hashed previous (r ∷ rows) =
      ((id : String × String) × (record_identity r ≡ value id) × NewIdentity id rows)
      × IsLink intact allow hashed previous rows r
      × IsHistory intact allow (hashed || is_hashed (version_of r)) (some r) rows

  -- The parts of a loop that goes on.
  pub verify_from-parts :
      (intact : HeartbeatRecord → Outcome Bool) (allow : Option HeartbeatRecord)
      (seen : List (String × String)) (hashed : Bool) (previous : Option HeartbeatRecord)
      (r : HeartbeatRecord) (rows : List HeartbeatRecord) (b : Bool)
      → verify_from sha o intact allow seen hashed previous (r ∷ rows) ≡ value b
      → (id : String × String) × (hit later : Bool) × (record_identity r ≡ value id)
        × (seen_identity id seen ≡ false)
        × (check_row sha o intact allow hashed previous rows r ≡ value hit)
        × (verify_from sha o intact allow
              (id ∷ seen)
              (hashed || is_hashed (version_of r))
              (some r)
              rows
            ≡ value later)
        × (b ≡ (hit || later))
  unfolding verify_from
  verify_from-parts intact allow seen hashed previous r rows b h =
      let (id, named, h1) = >>=-eq-value (record_identity r) _ h in
      let (_, fresh, h2) = >>=-eq-value (raise_if (seen_identity id seen)) _ h1 in
      let (hit, checked, h3) =
        >>=-eq-value (check_row sha o intact allow hashed previous rows r) _ h2 in
      let (later, rest, h4) =
        >>=-eq-value
          (verify_from sha o intact allow (id ∷ seen) (hashed || is_hashed (version_of r)) (some r)
            rows)
          _ h3 in
      (id, hit, later, named, ground arith, checked, rest, sym (value-injective h4))

  verify_from-NewIdentity :
      (intact : HeartbeatRecord → Outcome Bool) (allow : Option HeartbeatRecord)
      (seen : List (String × String)) (hashed : Bool) (previous : Option HeartbeatRecord)
      (rows : List HeartbeatRecord) (b : Bool) (id : String × String)
      → seen_identity id seen ≡ true
      → verify_from sha o intact allow seen hashed previous rows ≡ value b
      → NewIdentity id rows
  unfolding seen_identity
  verify_from-NewIdentity intact allow seen hashed previous [] b id s h = tt
  verify_from-NewIdentity intact allow seen hashed previous (r ∷ rows) b id s h =
      let (other, hit, later, named, fresh, _, rest, _) =
        verify_from-parts intact allow seen hashed previous r rows b h in
      (
        λ same.
            absurd
              (ground (arith, ap (λ x. seen_identity x seen) (value-injective (sym named ∙ same)))),
        verify_from-NewIdentity intact allow (other ∷ seen) (hashed || is_hashed (version_of r))
            (some r) rows later id (ground arith) rest,
      )

  -- The allowed row, which is the last.
  allowed-exact :
      (allow : Option HeartbeatRecord) (later : List HeartbeatRecord) (r : HeartbeatRecord)
      → is_allowed allow r ≡ true
      → is_last later ≡ true
      → (allow ≡ some r) × (later ≡ [])
  allowed-exact none later r a l = absurd (ground arith)
  allowed-exact (some p) (x ∷ later) r a l = absurd (ground arith)
  allowed-exact (some p) [] r a l = (ap some (sym ((record_eq_iff r p).0 a)), refl)

  check_hashed-parts :
      (intact : HeartbeatRecord → Outcome Bool) (allow previous : Option HeartbeatRecord)
      (later : List HeartbeatRecord) (r : HeartbeatRecord) (b : Bool)
      → check_hashed sha o intact allow previous later r ≡ value b
      → (r.record_sha256 ≡ some (record_sha sha o r))
        × (r.previous_heartbeat_sha256 ≡ head_sha sha o previous)
        × ((intact r ≡ value true) ⊎ ((allow ≡ some r) × (later ≡ [])))
  unfolding check_hashed
  check_hashed-parts intact allow previous later r b h =
      let (_, own, h1) = >>=-eq-value (raise_if (not (hash_holds sha o r))) _ h in
      let (_, linked, h2) =
        >>=-eq-value (raise_if (not (opt_eq r.previous_heartbeat_sha256 (head_sha sha o previous))))
          _ h1 in
      (
        (opt_eq_iff _ _).0 (ground arith),
        (opt_eq_iff _ _).0 (ground arith),
        elim (Bool-cases (opt_eq r.commit_id (allowed_commit allow))) [
          | inl pending ↦ inr (allowed-exact allow later r (ground arith) (ground arith))
          | inr other ↦
              let h3 : (intact r >>= λ holds. raise_if (not holds) >> value false) ≡ value b =
                ground (arith, other, h2) in
              let (holds, verified, h4) = >>=-eq-value (intact r) _ h3 in
              let true_there : holds ≡ true = ground arith in inl (verified ∙ ap value true_there)
        ],
      )

  check_row-IsLink :
      (intact : HeartbeatRecord → Outcome Bool) (allow : Option HeartbeatRecord) (hashed : Bool)
      (previous : Option HeartbeatRecord) (later : List HeartbeatRecord) (r : HeartbeatRecord)
      (b : Bool)
      → check_row sha o intact allow hashed previous later r ≡ value b
      → IsLink intact allow hashed previous later r
  unfolding check_row
  check_row-IsLink intact allow hashed previous later r b h =
      elim (Bool-cases (is_hashed (version_of r))) [
        | inl new ↦
            let (own, linked, whole) =
              check_hashed-parts intact allow previous later r b (ground (arith, new, h)) in
            inl (ground arith, ground arith, own, linked, whole)
        | inr old ↦ inr (ground (arith, old, h), ground (arith, old, h))
      ]

  verify_from-IsHistory :
      (intact : HeartbeatRecord → Outcome Bool) (allow : Option HeartbeatRecord)
      (seen : List (String × String)) (hashed : Bool) (previous : Option HeartbeatRecord)
      (rows : List HeartbeatRecord) (b : Bool)
      → verify_from sha o intact allow seen hashed previous rows ≡ value b
      → IsHistory intact allow hashed previous rows
  unfolding seen_identity
  verify_from-IsHistory intact allow seen hashed previous [] b h = tt
  verify_from-IsHistory intact allow seen hashed previous (r ∷ rows) b h =
      let (id, hit, later, named, _, checked, rest, _) =
        verify_from-parts intact allow seen hashed previous r rows b h in
      let self = identity_eq_self id in
      (
        (
          id,
          named,
          verify_from-NewIdentity intact allow (id ∷ seen) (hashed || is_hashed (version_of r))
              (some r) rows later id (ground arith) rest,
        ),
        check_row-IsLink intact allow hashed previous rows r hit checked,
        verify_from-IsHistory intact allow (id ∷ seen) (hashed || is_hashed (version_of r)) (some r)
            rows later rest,
      )

  -- A ledger that verifies: its official rows in the order of their times, no two of one identity. Every hashed row carries
  -- its own hash and the hash of the row before it, and its generation is intact, except that the last row may be the row
  -- that is allowed to be pending. No legacy row stands behind a hashed one.
  pub verify_heartbeat_history-IsHistory :
      (d : HeartbeatDisk) (allow : Option HeartbeatRecord)
      → verify_heartbeat_history sha o d allow ≡ value tt
      → (rows : List HeartbeatRecord) × (jsonl_rows d.rows ≡ value rows)
        × IsHistory
            (verify_heartbeat_completion sha o d)
            allow
            false
            none
            (sort_by history_key (official rows))
  unfolding verify_heartbeat_history sorted_official
  verify_heartbeat_history-IsHistory d allow h =
      let (rows, read, h1) = >>=-eq-value (jsonl_rows d.rows) _ h in
      let (history, sorted, h2) = >>=-eq-value (sorted_official rows) _ h1 in
      let (_, _, same) = >>=-eq-value (identified (official rows)) _ sorted in
      let (b, verified, _) =
        >>=-eq-value
          (verify_from sha o (verify_heartbeat_completion sha o d) allow [] false none history) _
          h2 in
      (
        rows,
        read,
        subst (λ x. IsHistory (verify_heartbeat_completion sha o d) allow false none x)
            (sym (value-injective same))
            (verify_from-IsHistory (verify_heartbeat_completion sha o d) allow [] false none history
              b verified),
      )
