-- ===== src/Heartbeat/Recovery/Invariants.antt =====
-- What all writes of a recovery of futures_fund/heartbeat.py keep.
use gpt_market_neutral_crypt.Prelude.{List, [], ◌∷◌, All, Outcome, value, raised}
use gpt_market_neutral_crypt.Heartbeat.{
  HeartbeatRecord, HeartbeatDisk, HeartbeatCanonical, HeartbeatOthers,
}
use gpt_market_neutral_crypt.Heartbeat.Writes.{HeartbeatWrite, put, carry_on, put_all}

module _ (sha : HeartbeatCanonical) (o : HeartbeatOthers) (P : HeartbeatDisk → Type 0) where
  carry_on_invariant :
      (later : HeartbeatDisk → Outcome (Unit {0}) × HeartbeatDisk)
      (x : Outcome (Unit {0}) × HeartbeatDisk)
      → ((d : HeartbeatDisk) → P d → P (later d).1)
      → P x.1
      → P (carry_on sha o later x).1
  unfolding carry_on
  carry_on_invariant later (raised, d) keeps h = h
  carry_on_invariant later (value _, d) keeps h = keeps d h

  -- What every single write keeps, the writes keep, wherever they end.
  pub put_all_invariant :
      (Q : HeartbeatWrite → Type 0) (r : HeartbeatRecord)
      → ((w : HeartbeatWrite) (d : HeartbeatDisk) → Q w → P d → P (put sha o r w d).1)
      → (ws : List HeartbeatWrite) → All Q ws
      → (d : HeartbeatDisk) → P d
      → P (put_all sha o r ws d).1
  unfolding put_all
  put_all_invariant Q r keeps [] all d h = h
  put_all_invariant Q r keeps (w ∷ ws) all d h =
      carry_on_invariant (put_all sha o r ws) (put sha o r w d)
        (put_all_invariant Q r keeps ws all.1) (keeps w d all.0 h)
