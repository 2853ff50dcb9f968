-- ===== src/Heartbeat/History/Linked.antt =====
-- What the hashes of a heartbeat ledger of futures_fund/heartbeat.py fix.
use gpt_market_neutral_crypt.Prelude.{
  ◌≤◌, ◌≡◌, inl, inr, Bool, false, Option, none, some, List, [], ◌∷◌, ◌++◌, arith, sym, ap, ◌∙◌,
  subst, Outcome, value, value-injective, ◌||◌,
}
use gpt_market_neutral_crypt.Ledger.{jsonl_rows}
use gpt_market_neutral_crypt.Heartbeat.{
  HeartbeatRecord, HeartbeatDisk, HeartbeatCanonical, HeartbeatOthers,
}
use gpt_market_neutral_crypt.Heartbeat.Records.{version_of, is_hashed, sort_by}
use gpt_market_neutral_crypt.Heartbeat.Completion.{verify_heartbeat_completion}
use gpt_market_neutral_crypt.Heartbeat.History.{official, history_key, verify_heartbeat_history}
use gpt_market_neutral_crypt.Heartbeat.History.Chain.{IsHistory, verify_heartbeat_history-IsHistory}

module _ (sha : HeartbeatCanonical) (o : HeartbeatOthers) where
  IsHistory-previous :
      (intact : HeartbeatRecord → Outcome Bool) (allow : Option HeartbeatRecord) (hashed : Bool)
      (previous : Option HeartbeatRecord) (older later : List HeartbeatRecord)
      (y x : HeartbeatRecord)
      → 2 ≤ version_of x
      → IsHistory sha o intact allow hashed previous (older ++ y ∷ x ∷ later)
      → x.previous_heartbeat_sha256 ≡ some (sha.of_record y)
  IsHistory-previous intact allow hashed previous [] later y x new (_, _, (_, link, _)) =
      elim link [
        | inl (_, _, _, linked, _) ↦ linked
        | inr (old, _) ↦ absurd (omega (arith, new, old))
      ]
  IsHistory-previous intact allow hashed previous (w ∷ older) later y x new (_, _, rest) =
      IsHistory-previous intact allow (hashed || is_hashed (version_of w)) (some w) older later y x
        new rest

  -- The row stands directly behind another in the verified order of a ledger.
  abbrev pub Behind : HeartbeatDisk → HeartbeatRecord → HeartbeatRecord → Type 0
  Behind d y x =
      (rows older later : List HeartbeatRecord) × (jsonl_rows d.rows ≡ value rows)
      × (sort_by history_key (official rows) ≡ older ++ y ∷ x ∷ later)

  Behind-previous :
      (d : HeartbeatDisk) (allow : Option HeartbeatRecord) (y x : HeartbeatRecord)
      → verify_heartbeat_history sha o d allow ≡ value tt
      → 2 ≤ version_of x
      → Behind d y x
      → x.previous_heartbeat_sha256 ≡ some (sha.of_record y)
  Behind-previous d allow y x verified new (rows, older, later, read, order) =
      let (rows', read', history) = verify_heartbeat_history-IsHistory sha o d allow verified in
      let same : rows' ≡ rows = value-injective (sym read' ∙ read) in
      let intact = verify_heartbeat_completion sha o d in
      IsHistory-previous intact allow false none older later y x new (
        subst (λ z. IsHistory sha o intact allow false none z)
          (ap (λ z. sort_by history_key (official z)) same ∙ order) history)

  -- A hashed row fixes the row before it: two ledgers that verify, on whatever disks and whatever is pending, have the same
  -- row directly before a row of version 2 or more that stands in both. The hashes of the two rows before it do not collide.
  pub verify_heartbeat_history-predecessor :
      (d e : HeartbeatDisk) (allow admit : Option HeartbeatRecord) (y z x : HeartbeatRecord)
      → (sha.of_record y ≡ sha.of_record z → y ≡ z)
      → verify_heartbeat_history sha o d allow ≡ value tt
      → verify_heartbeat_history sha o e admit ≡ value tt
      → 2 ≤ version_of x
      → Behind d y x
      → Behind e z x
      → y ≡ z
  verify_heartbeat_history-predecessor d e allow admit y z x collision_free first second new before
        after =
      let same : some (sha.of_record y) ≡ some (sha.of_record z) =
        sym (Behind-previous d allow y x first new before)
        ∙ Behind-previous e admit z x second new after in
      collision_free (ground (arith, same))
