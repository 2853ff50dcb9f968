-- ===== src/Heartbeat/Records.antt =====
-- Rows of futures_fund/heartbeat.py: identity, order and equality.
pub mod Sorting
use Prim.Native.Nat.{Ordering}
use Prim.Native.String
use gpt_market_neutral_crypt.Prelude.{
  ℕ, ◌≡◌, ◌↔◌, refl, Bool, true, false, ◌||◌, ◌&&◌, not, Option, none, some, List, [], ◌∷◌, String,
  str_eq, eq_iff, opt_eq, opt_eq_iff, leb, ◌==◌, if◌then◌else◌, Outcome, value, raised, ◌>>=◌, ◌>>◌,
  raise_if, arith,
}
use gpt_market_neutral_crypt.Events.References.{version_eq, version_eq_iff, both}
use gpt_market_neutral_crypt.Heartbeat.{Payload, HeartbeatRecord}

bool_eq : Bool → Bool → Bool
bool_eq true b = b
bool_eq false b = not b

unfoldable pub payload_eq : Payload → Payload → Bool
unfolding bool_eq
payload_eq a b =
    opt_eq a.ts b.ts
    && (opt_eq a.schedule_slot b.schedule_slot
        && (opt_eq a.kind b.kind
            && (bool_eq a.paper_only b.paper_only && str_eq a.measures b.measures)))

-- `==` of two rows.
unfoldable pub record_eq : HeartbeatRecord → HeartbeatRecord → Bool
unfolding payload_eq
record_eq a b =
    payload_eq a.payload b.payload
    && (version_eq a.heartbeat_schema_version b.heartbeat_schema_version
        && (opt_eq a.commit_id b.commit_id
            && (opt_eq a.previous_heartbeat_sha256 b.previous_heartbeat_sha256
                && (opt_eq a.account_state_sha256 b.account_state_sha256
                    && (opt_eq a.runtime_provenance_sha256 b.runtime_provenance_sha256
                        && (opt_eq a.account_event_sha256 b.account_event_sha256
                            && (opt_eq a.base_account_sha256 b.base_account_sha256
                                && (opt_eq a.previous_account_event_id b.previous_account_event_id
                                    && (opt_eq a.previous_account_event_sha256
                                          b.previous_account_event_sha256
                                        && (opt_eq a.generation_root_sha256 b.generation_root_sha256
                                            && opt_eq a.record_sha256 b.record_sha256))))))))))

bool_eq_iff : (a b : Bool) → (bool_eq a b ≡ true) ↔ (a ≡ b)
unfolding bool_eq
bool_eq_iff a b = (λ h. ground arith, λ h. ground arith)

pub payload_eq_iff : (a b : Payload) → (payload_eq a b ≡ true) ↔ (a ≡ b)
unfolding payload_eq
payload_eq_iff a b =
    let fields = both (opt_eq a.ts b.ts) _ (opt_eq_iff _ _) (
      both (opt_eq a.schedule_slot b.schedule_slot) _ (opt_eq_iff _ _) (
        both (opt_eq a.kind b.kind) _ (opt_eq_iff _ _)
          (both (bool_eq a.paper_only b.paper_only) _ (bool_eq_iff _ _) (eq_iff _ _)))) in
    (
      λ h. λ i. record {
        ts = (fields.0 h).0 i;
        schedule_slot = (fields.0 h).1.0 i;
        kind = (fields.0 h).1.1.0 i;
        paper_only = (fields.0 h).1.1.1.0 i;
        measures = (fields.0 h).1.1.1.1 i;
      },
      λ h. fields.1 (
        λ i. (h i).ts,
        (λ i. (h i).schedule_slot, (λ i. (h i).kind, (λ i. (h i).paper_only, λ i. (h i).measures))),
      ),
    )

pub record_eq_iff : (a b : HeartbeatRecord) → (record_eq a b ≡ true) ↔ (a ≡ b)
unfolding record_eq
record_eq_iff a b =
    let later = both (opt_eq a.base_account_sha256 b.base_account_sha256) _ (opt_eq_iff _ _) (
      both (opt_eq a.previous_account_event_id b.previous_account_event_id) _ (opt_eq_iff _ _) (
        both (opt_eq a.previous_account_event_sha256 b.previous_account_event_sha256) _
          (opt_eq_iff _ _)
          (both (opt_eq a.generation_root_sha256 b.generation_root_sha256) _ (opt_eq_iff _ _)
            (opt_eq_iff a.record_sha256 b.record_sha256)))) in
    let fields = both (payload_eq a.payload b.payload) _ (payload_eq_iff _ _) (
      both (version_eq a.heartbeat_schema_version b.heartbeat_schema_version) _ (version_eq_iff _ _)
        (both (opt_eq a.commit_id b.commit_id) _ (opt_eq_iff _ _) (
          both (opt_eq a.previous_heartbeat_sha256 b.previous_heartbeat_sha256) _ (opt_eq_iff _ _) (
            both (opt_eq a.account_state_sha256 b.account_state_sha256) _ (opt_eq_iff _ _) (
              both (opt_eq a.runtime_provenance_sha256 b.runtime_provenance_sha256) _
                (opt_eq_iff _ _)
                (both (opt_eq a.account_event_sha256 b.account_event_sha256) _ (opt_eq_iff _ _)
                  later)))))) in
    (
      λ h.
          let f = fields.0 h in
          λ i. record {
            payload = f.0 i;
            heartbeat_schema_version = f.1.0 i;
            commit_id = f.1.1.0 i;
            previous_heartbeat_sha256 = f.1.1.1.0 i;
            account_state_sha256 = f.1.1.1.1.0 i;
            runtime_provenance_sha256 = f.1.1.1.1.1.0 i;
            account_event_sha256 = f.1.1.1.1.1.1.0 i;
            base_account_sha256 = f.1.1.1.1.1.1.1.0 i;
            previous_account_event_id = f.1.1.1.1.1.1.1.1.0 i;
            previous_account_event_sha256 = f.1.1.1.1.1.1.1.1.1.0 i;
            generation_root_sha256 = f.1.1.1.1.1.1.1.1.1.1.0 i;
            record_sha256 = f.1.1.1.1.1.1.1.1.1.1.1 i;
          },
      λ h. fields.1 (
        λ i. (h i).payload,
        (
          λ i. (h i).heartbeat_schema_version,
          (
            λ i. (h i).commit_id,
            (
              λ i. (h i).previous_heartbeat_sha256,
              (
                λ i. (h i).account_state_sha256,
                (
                  λ i. (h i).runtime_provenance_sha256,
                  (
                    λ i. (h i).account_event_sha256,
                    (
                      λ i. (h i).base_account_sha256,
                      (
                        λ i. (h i).previous_account_event_id,
                        (
                          λ i. (h i).previous_account_event_sha256,
                          (λ i. (h i).generation_root_sha256, λ i. (h i).record_sha256),
                        ),
                      ),
                    ),
                  ),
                ),
              ),
            ),
          ),
        ),
      ),
    )

-- `a or b`, where an empty text counts as no text.
unfoldable pub or_text : Option String → Option String → Option String
or_text none b = b
or_text (some s) b = if str_eq s "" then b else some s

unfoldable pub non_empty : Option String → Outcome String
non_empty none = raised
non_empty (some s) = if str_eq s "" then raised else value s

-- `_record_identity`
unfoldable pub record_identity : HeartbeatRecord → Outcome (String × String)
unfolding or_text non_empty
record_identity r = do
  slot ← non_empty (or_text r.payload.schedule_slot r.payload.ts)
  kind ← non_empty r.payload.kind
  value (slot, kind)

-- `kind == "token_free_funding_heartbeat"`
abbrev pub is_official : HeartbeatRecord → Bool
is_official r = opt_eq r.payload.kind (some "token_free_funding_heartbeat")

-- `int(….get("heartbeat_schema_version", 0))`
abbrev pub version_of : HeartbeatRecord → ℕ
version_of r = elim r.heartbeat_schema_version [ none ↦ 0 | some v ↦ v ]

-- `… in HASHED_HEARTBEAT_VERSIONS`
abbrev pub is_hashed : ℕ → Bool
is_hashed v = leb 2 v && leb v 4

abbrev pub identity_eq : String × String → String × String → Bool
identity_eq (a, k) (b, l) = str_eq a b && str_eq k l

-- `<=` of two pairs of texts.
unfoldable pub key_le : String × String → String × String → Bool
key_le (a, k) (b, l) = elim (Prim.Native.String.compare a b) [
  | Ordering.lt ↦ true
  | Ordering.gt ↦ false
  | Ordering.eq ↦ elim (Prim.Native.String.compare k l) [ Ordering.gt ↦ false | _ ↦ true ]
]

abbrev pub str_of : Option String → String
str_of none = ""
str_of (some s) = s

-- A stable insertion by a key, before the rows whose key is no smaller.
unfoldable pub insert_by :
    (HeartbeatRecord → String × String)
    → HeartbeatRecord
    → List HeartbeatRecord
    → List HeartbeatRecord
insert_by key r [] = r ∷ []
insert_by key r (x ∷ rows) =
    if key_le (key r) (key x) then r ∷ x ∷ rows else x ∷ insert_by key r rows

unfoldable pub sort_by :
    (HeartbeatRecord → String × String) → List HeartbeatRecord → List HeartbeatRecord
unfolding insert_by
sort_by key [] = []
sort_by key (r ∷ rows) = insert_by key r (sort_by key rows)
