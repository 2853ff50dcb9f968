-- ===== src/Heartbeat/History/Fresh.antt =====
-- The ledger of futures_fund/heartbeat.py with a row that is about to be written.
use gpt_market_neutral_crypt.Prelude.{
  ◌≡◌, ◌≢◌, refl, inl, inr, Bool, false, ◌||◌, ◌&&◌, not, Option, none, some, List, [], ◌∷◌, String,
  arith, sym, ap, ◌∙◌, subst, In, if◌then◌else◌, Outcome, value, >>=-eq-value, opt_eq, opt_eq_iff,
  Bool-cases, value-injective, is_text,
}
use gpt_market_neutral_crypt.Ledger.{jsonl_rows}
use gpt_market_neutral_crypt.Heartbeat.{
  HeartbeatRecord, HeartbeatDisk, HeartbeatCanonical, HeartbeatOthers,
}
use gpt_market_neutral_crypt.Heartbeat.Records.{is_official, is_hashed, version_of}
use gpt_market_neutral_crypt.Heartbeat.Records.Sorting.{sort_by-In}
use gpt_market_neutral_crypt.Heartbeat.Completion.{verify_heartbeat_completion}
use gpt_market_neutral_crypt.Heartbeat.History.{
  official, history_key, identified, sorted_official, has_commit, check_hashed, check_row,
  verify_from, verify_heartbeat_history,
}
use gpt_market_neutral_crypt.Heartbeat.History.Chain.{verify_from-parts}

-- No row carries the commit id.
abbrev pub NewCommit : String → List HeartbeatRecord → Type 0
NewCommit commit_id rows = (x : HeartbeatRecord) → In x rows → x.commit_id ≢ some commit_id

official-In : (x : HeartbeatRecord) (rows : List HeartbeatRecord) → In x (official rows) → In x rows
unfolding official
official-In x [] h = h
official-In x (r ∷ rows) h = elim (Bool-cases (is_official r)) [
  | inl own ↦ elim (subst (λ b. In x (if b then r ∷ official rows else official rows)) own h) [
    | inl same ↦ inl same
    | inr later ↦ inr (official-In x rows later)
  ]
  | inr other ↦ inr (
      official-In x rows
        (subst (λ b. In x (if b then r ∷ official rows else official rows)) other h))
]

has_commit-NewCommit :
    (commit_id : String) (rows : List HeartbeatRecord)
    → NewCommit commit_id rows
    → has_commit (some commit_id) rows ≡ false
unfolding has_commit
has_commit-NewCommit commit_id [] n = refl
has_commit-NewCommit commit_id (r ∷ rows) n =
    let other = n r (inl refl) in
    let rest = has_commit-NewCommit commit_id rows (λ x there. n x (inr there)) in
    ground (arith, rest, opt_eq_iff r.commit_id (some commit_id))

module _ (sha : HeartbeatCanonical) (o : HeartbeatOthers)
    (intact : HeartbeatRecord → Outcome Bool) where
  check_row-fresh :
      (p : HeartbeatRecord) (hashed : Bool) (previous : Option HeartbeatRecord)
      (later : List HeartbeatRecord) (r : HeartbeatRecord) (b : Bool)
      → r.commit_id ≢ p.commit_id
      → check_row sha o intact none hashed previous later r ≡ value b
      → check_row sha o intact (some p) hashed previous later r ≡ value b
  unfolding check_row check_hashed
  check_row-fresh p hashed previous later r b new h =
      let other : opt_eq r.commit_id p.commit_id ≡ false =
        ground (arith, opt_eq_iff r.commit_id p.commit_id) in
      elim (Bool-cases (opt_eq r.commit_id none)) [
        | inl bad ↦ ground (arith, h, bad, other)
        | inr good ↦ ground (arith, h, good, other)
      ]

  verify_from-fresh :
      (p : HeartbeatRecord) (commit_id : String) (seen : List (String × String)) (hashed : Bool)
      (previous : Option HeartbeatRecord) (rows : List HeartbeatRecord) (b : Bool)
      → p.commit_id ≡ some commit_id
      → NewCommit commit_id rows
      → verify_from sha o intact none seen hashed previous rows ≡ value b
      → verify_from sha o intact (some p) seen hashed previous rows ≡ value b
  unfolding verify_from
  verify_from-fresh p commit_id seen hashed previous [] b own new h = h
  verify_from-fresh p commit_id seen hashed previous (r ∷ rows) b own new h =
      let (id, hit, later, named, fresh, checked, rest, same) =
        verify_from-parts sha o intact none seen hashed previous r rows b h in
      let row =
        check_row-fresh p hashed previous rows r hit (λ x. new r (inl refl) (x ∙ own)) checked in
      let others =
        verify_from-fresh p commit_id (id ∷ seen) (hashed || is_hashed (version_of r)) (some r) rows
          later own (λ x there. new x (inr there)) rest in
      rw (named, fresh, row, others) (ap value (sym same))

module _ (sha : HeartbeatCanonical) (o : HeartbeatOthers) where
  -- A history that verifies does so too with a new row pending.
  pub verify_heartbeat_history-fresh :
      (d : HeartbeatDisk) (p : HeartbeatRecord) (commit_id : String)
      → p.commit_id ≡ some commit_id
      → ((rows : List HeartbeatRecord) → jsonl_rows d.rows ≡ value rows → NewCommit commit_id rows)
      → verify_heartbeat_history sha o d none ≡ value tt
      → verify_heartbeat_history sha o d (some p) ≡ value tt
  unfolding verify_heartbeat_history sorted_official
  verify_heartbeat_history-fresh d p commit_id own new h =
      let intact = verify_heartbeat_completion sha o d in
      let (rows, read, h1) = >>=-eq-value (jsonl_rows d.rows) _ h in
      let (history, sorted, h2) = >>=-eq-value (sorted_official rows) _ h1 in
      let (_, named, same) = >>=-eq-value (identified (official rows)) _ sorted in
      let ordered = value-injective same in
      let (b, verified, _) =
        >>=-eq-value (verify_from sha o intact none [] false none history) _ h2 in
      let free : NewCommit commit_id history =
        subst (λ x. NewCommit commit_id x) (value-injective same)
          (λ x there.
            new rows read x
              (official-In x rows ((sort_by-In history_key x (official rows)).0 there))) in
      let absent : has_commit p.commit_id history ≡ false =
        ap (λ (x : Option String). has_commit x history) own
        ∙ has_commit-NewCommit commit_id history free in
      let pending =
        verify_from-fresh sha o intact p commit_id [] false none history b own free verified in
      let flat : ((is_text p.commit_id && (has_commit p.commit_id history && not b)) ≡ false) =
        ground (arith, absent) in
      rw (read, named, ordered, pending, flat) refl
