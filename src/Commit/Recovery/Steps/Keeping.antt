-- ===== src/Commit/Recovery/Steps/Keeping.antt =====
-- The writes of the recovery of futures_fund/reconcile_commit.py that leave one another's results.
use gpt_market_neutral_crypt.Prelude.{
  ℕ, ◌≡◌, some, List, String, sym, ap, subst, ◌∙◌, value, assign, lookup-assign_ne,
}
use gpt_market_neutral_crypt.Events.{Event, Line}
use gpt_market_neutral_crypt.Ledger.{LedgerRow, EquityRow, RowLine}
use gpt_market_neutral_crypt.Ledger.Rows.{file_of}
use gpt_market_neutral_crypt.Commit.{Artifact, Canonical, Others, Disk}
use gpt_market_neutral_crypt.Commit.Writes.{
  Write, save_account, save_output, save_equity, save_ledger, save_event, save_complete, stop,
  write,
}
use gpt_market_neutral_crypt.Commit.Recovery.Steps.{Apart, Ready, Done, Wrote, write-Wrote}

-- What a write of the body leaves as it was.
abbrev pub Around : Disk → Disk → Type 0
Around d d' =
    (d'.complete ≡ d.complete)
    × (d'.others ≡ d.others)
    × (d'.transaction ≡ d.transaction)
    × (d'.heartbeat_pending ≡ d.heartbeat_pending)
    × (d'.protocol ≡ d.protocol)

module _ (sha : Canonical) (o : Others) where
  module _ (cadence : String) (cycle : ℕ) where
    kept_account :
        (w : Write) (d : Disk) (a : String)
        → Apart w (save_account a)
        → Done sha o w d
        → Done sha o w (record d { account = some a })
    kept_account (save_account b) d a apart h = absurd apart
    kept_account (save_output n v) d a apart h = h
    kept_account (save_equity r) d a apart h = h
    kept_account (save_ledger r) d a apart h = h
    kept_account (save_event e) d a apart h = h
    kept_account (save_complete c) d a apart h = absurd h
    kept_account stop d a apart h = absurd h

    kept_output :
        (w : Write) (d : Disk) (n : String) (v : Artifact)
        → Apart w (save_output n v)
        → Done sha o w d
        → Done sha o w (record d { files = assign n v d.files })
    kept_output (save_account b) d n v apart h = h
    kept_output (save_output m x) d n v apart (ok, h) =
        (ok, lookup-assign_ne n m v d.files apart ∙ h)
    kept_output (save_equity r) d n v apart h = h
    kept_output (save_ledger r) d n v apart h = h
    kept_output (save_event e) d n v apart h = h
    kept_output (save_complete c) d n v apart h = absurd h
    kept_output stop d n v apart h = absurd h

    kept_equity :
        (w : Write) (d : Disk) (r : EquityRow) (lines : List (RowLine EquityRow))
        → Apart w (save_equity r)
        → Done sha o w d
        → Done sha o w (record d { equity = lines })
    kept_equity (save_account b) d r lines apart h = h
    kept_equity (save_output m x) d r lines apart h = h
    kept_equity (save_equity s) d r lines apart h = absurd apart
    kept_equity (save_ledger s) d r lines apart h = h
    kept_equity (save_event e) d r lines apart h = h
    kept_equity (save_complete c) d r lines apart h = absurd h
    kept_equity stop d r lines apart h = absurd h

    kept_ledger :
        (w : Write) (d : Disk) (r : LedgerRow) (lines : List (RowLine LedgerRow))
        → Apart w (save_ledger r)
        → Done sha o w d
        → Done sha o w (record d { ledger = lines })
    kept_ledger (save_account b) d r lines apart h = h
    kept_ledger (save_output m x) d r lines apart h = h
    kept_ledger (save_equity s) d r lines apart h = h
    kept_ledger (save_ledger s) d r lines apart h = absurd apart
    kept_ledger (save_event e) d r lines apart h = h
    kept_ledger (save_complete c) d r lines apart h = absurd h
    kept_ledger stop d r lines apart h = absurd h

    kept_event :
        (w : Write) (d : Disk) (e : Event) (lines : List Line)
        → Apart w (save_event e)
        → Done sha o w d
        → Done sha o w (record d { events = lines })
    kept_event (save_account b) d e lines apart h = h
    kept_event (save_output m x) d e lines apart h = h
    kept_event (save_equity s) d e lines apart h = h
    kept_event (save_ledger s) d e lines apart h = h
    kept_event (save_event f) d e lines apart h = absurd apart
    kept_event (save_complete c) d e lines apart h = absurd h
    kept_event stop d e lines apart h = absurd h

    -- A write of another target keeps it done.
    pub write-Done_kept :
        (w x : Write) (d d' : Disk)
        → Ready x d
        → Apart w x
        → Done sha o w d
        → write sha o cadence cycle x d ≡ (value tt, d')
        → Done sha o w d'
    write-Done_kept w x d d' ready apart done h =
        go x ready apart (write-Wrote sha o cadence cycle x d d' h)
      where
        go :
            (x : Write) → Ready x d → Apart w x → Wrote sha o cadence cycle x d d' → Done sha o w d'
        go (save_account a) ready apart h =
            subst (Done sha o w) (sym h) (kept_account w d a apart done)
        go (save_output n v) ready apart (_, h) =
            subst (Done sha o w) (sym h) (kept_output w d n v apart done)
        go (save_equity r) ready apart (rows, _, h) =
            subst (Done sha o w) (sym h) (kept_equity w d r (file_of rows) apart done)
        go (save_ledger r) ready apart (rows, _, h) =
            subst (Done sha o w) (sym h) (kept_ledger w d r (file_of rows) apart done)
        go (save_event e) ready apart (lines, _, h) =
            subst (Done sha o w) (sym h) (kept_event w d e lines apart done)
        go (save_complete c) ready apart h = absurd ready
        go stop ready apart h = absurd h

    pub write-Around :
        (x : Write) (d d' : Disk)
        → Ready x d
        → write sha o cadence cycle x d ≡ (value tt, d')
        → Around d d'
    write-Around x d d' ready h = go x ready (write-Wrote sha o cadence cycle x d d' h)
      where
        same : (d'' : Disk) → d' ≡ d'' → Around d'' d'
        same d'' h = (
          ap (λ (y : Disk). y.complete) h,
          ap (λ (y : Disk). y.others) h,
          ap (λ (y : Disk). y.transaction) h,
          ap (λ (y : Disk). y.heartbeat_pending) h,
          ap (λ (y : Disk). y.protocol) h,
        )

        go : (x : Write) → Ready x d → Wrote sha o cadence cycle x d d' → Around d d'
        go (save_account a) ready h = same (record d { account = some a }) h
        go (save_output n v) ready (_, h) = same (record d { files = assign n v d.files }) h
        go (save_equity r) ready (rows, _, h) = same (record d { equity = file_of rows }) h
        go (save_ledger r) ready (rows, _, h) = same (record d { ledger = file_of rows }) h
        go (save_event e) ready (lines, _, h) = same (record d { events = lines }) h
        go (save_complete c) ready h = absurd ready
        go stop ready h = absurd h

    pub write-Ready_kept :
        (w x : Write) (d d' : Disk)
        → Ready x d
        → write sha o cadence cycle x d ≡ (value tt, d')
        → Ready w d
        → Ready w d'
    write-Ready_kept w x d d' ready h = go w (write-Around x d d' ready h)
      where
        go : (w : Write) → Around d d' → Ready w d → Ready w d'
        go (save_event e) (clear, others, _, _, _) (c, k, free) = (clear ∙ c, k, rw others free)
        go (save_complete c) _ r = absurd r
        go (save_account a) _ r = tt
        go (save_output n v) _ r = tt
        go (save_equity r) _ _ = tt
        go (save_ledger r) _ _ = tt
        go stop _ r = tt
