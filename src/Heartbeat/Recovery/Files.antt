-- ===== src/Heartbeat/Recovery/Files.antt =====
-- The writes of a heartbeat recovery in futures_fund/heartbeat.py that go to files of the generation's directory.
use gpt_market_neutral_crypt.Prelude.{
  ◌≡◌, refl, ◌∙◌, ap, Option, none, some, List, [], ◌∷◌, ◌++◌, String, All, value,
}
use gpt_market_neutral_crypt.Events.{Event}
use gpt_market_neutral_crypt.Heartbeat.{
  Payload, HeartbeatRecord, HeartbeatTransaction, HeartbeatDisk, Directory, HeartbeatCanonical,
  HeartbeatOthers,
}
use gpt_market_neutral_crypt.Heartbeat.Records.{record_identity}
use gpt_market_neutral_crypt.Heartbeat.Writes.{
  HeartbeatWrite, put_account, put_state, put_provenance, put_heartbeat, put_event, put_payload,
  index_heartbeat, chain_event, put_complete, put, put_all, carry_on, in_directory, in_named,
  payload_write, payload_of, heartbeat_completion, heartbeat_publication,
}

-- The write goes to a file of the directory, and is not the marker.
abbrev IsFileWrite : HeartbeatWrite → Type 0
IsFileWrite (put_state _) = Unit
IsFileWrite (put_provenance _) = Unit
IsFileWrite (put_heartbeat _) = Unit
IsFileWrite (put_event _) = Unit
IsFileWrite (put_payload _) = Unit
IsFileWrite _ = ⊥

-- Two disks that differ in the directories at most.
abbrev pub SameBut : HeartbeatDisk → HeartbeatDisk → Type 0
SameBut d d1 =
    (d1.account ≡ d.account)
    × (d1.rows ≡ d.rows)
    × (d1.events ≡ d.events)
    × (d1.transaction ≡ d.transaction)

module _ (sha : HeartbeatCanonical) (o : HeartbeatOthers) where
  in_directory-passes :
      (r : HeartbeatRecord) (id : String × String) (d : HeartbeatDisk)
      (change : Directory → Directory)
      → record_identity r ≡ value id
      → (d1 : HeartbeatDisk) × (in_directory sha o d r change ≡ (value tt, d1)) × SameBut d d1
  unfolding in_directory in_named
  in_directory-passes r id d change named = (
    (in_named sha o d change (value id)).1,
    ap (in_named sha o d change) named,
    (refl, refl, refl, refl),
  )

  file-passes :
      (r : HeartbeatRecord) (id : String × String) (d : HeartbeatDisk) (w : HeartbeatWrite)
      → record_identity r ≡ value id
      → IsFileWrite w
      → (d1 : HeartbeatDisk) × (put sha o r w d ≡ (value tt, d1)) × SameBut d d1
  unfolding put
  file-passes r id d (put_account a) named file = absurd file
  file-passes r id d (put_state a) named file =
      in_directory-passes r id d (λ f. record f { account_state = some a }) named
  file-passes r id d (put_provenance p) named file =
      in_directory-passes r id d (λ f. record f { runtime_provenance = some p }) named
  file-passes r id d (put_heartbeat x) named file =
      in_directory-passes r id d (λ f. record f { heartbeat = some x }) named
  file-passes r id d (put_event e) named file =
      in_directory-passes r id d (λ f. record f { account_event = some e }) named
  file-passes r id d (put_payload p) named file =
      in_directory-passes r id d (λ f. record f { heartbeat_payload = some p }) named
  file-passes r id d (index_heartbeat x) named file = absurd file
  file-passes r id d (chain_event e) named file = absurd file
  file-passes r id d (put_complete c) named file = absurd file

  files-pass :
      (r : HeartbeatRecord) (id : String × String) (d : HeartbeatDisk)
      (ws rest : List HeartbeatWrite)
      → record_identity r ≡ value id
      → All IsFileWrite ws
      → (d1 : HeartbeatDisk) × (put_all sha o r (ws ++ rest) d ≡ put_all sha o r rest d1)
        × SameBut d d1
  unfolding put_all carry_on
  files-pass r id d [] rest named files = (d, refl, (refl, refl, refl, refl))
  files-pass r id d (w ∷ ws) rest named (file, files) =
      let (d1, first, same) = file-passes r id d w named file in
      let (d2, later, same') = files-pass r id d1 ws rest named files in
      (
        d2,
        ap (carry_on sha o (put_all sha o r (ws ++ rest))) first ∙ later,
        (same'.0 ∙ same.0, same'.1 ∙ same.1, same'.2 ∙ same.2, same'.3 ∙ same.3),
      )

  -- The writes that are left when the account and the files are written.
  abbrev pub last_writes : HeartbeatTransaction → HeartbeatRecord → Event → List HeartbeatWrite
  last_writes t r e =
      index_heartbeat r
      ∷ chain_event e
      ∷ put_complete (heartbeat_completion sha o t 4 r e (payload_of sha o t 4))
      ∷ []

  payload_write-IsFileWrite : (p : Option Payload) → All IsFileWrite (payload_write sha o p)
  unfolding payload_write
  payload_write-IsFileWrite none = tt
  payload_write-IsFileWrite (some p) = (tt, tt)

  -- The account and the files of the directory are always written.
  pub publication-passes :
      (t : HeartbeatTransaction) (r : HeartbeatRecord) (id : String × String) (e : Event)
      (account : String) (d : HeartbeatDisk)
      → record_identity r ≡ value id
      → (d1 : HeartbeatDisk) × (put_all sha o r (heartbeat_publication sha o t 4 r e account) d
          ≡ put_all sha o r (last_writes t r e) d1)
        × SameBut (record d { account = some account }) d1
  unfolding heartbeat_publication put_all put carry_on
  publication-passes t r id e account d named =
      files-pass r id (record d { account = some account })
        (put_state t.account
          ∷ put_provenance t.runtime_provenance
          ∷ put_heartbeat r
          ∷ put_event e
          ∷ payload_write sha o (payload_of sha o t 4))
        (last_writes t r e) named
        (tt, (tt, (tt, (tt, payload_write-IsFileWrite (payload_of sha o t 4)))))
