-- ===== src/Events/References/Equality.antt =====
-- `==` of two events, as futures_fund/state_transaction.py compares them, decides their equality.
use gpt_market_neutral_crypt.Prelude.{
  ◌≡◌, ◌↔◌, refl, subst, true, some, none, arith, opt_eq, opt_eq_iff, Option, ℕ, Bool, false, ◌&&◌,
  ◌==◌,
}
use gpt_market_neutral_crypt.Events.{
  Event, EventKind, reconcile, heartbeat, other_kind, Origin, root_account_anchor, account_event,
  other_origin, Stamp, unparsed, naive, aware,
}

unfoldable pub kind_eq : EventKind → EventKind → Bool
kind_eq reconcile reconcile = true
kind_eq heartbeat heartbeat = true
kind_eq other_kind other_kind = true
kind_eq _ _ = false

origin_eq : Origin → Origin → Bool
origin_eq root_account_anchor root_account_anchor = true
origin_eq account_event account_event = true
origin_eq other_origin other_origin = true
origin_eq _ _ = false

stamp_eq : Stamp → Stamp → Bool
stamp_eq unparsed unparsed = true
stamp_eq naive naive = true
stamp_eq (aware s) (aware t) = s == t
stamp_eq _ _ = false

unfoldable pub version_eq : Option ℕ → Option ℕ → Bool
version_eq none none = true
version_eq (some a) (some b) = a == b
version_eq _ _ = false

-- `==` of two events.
unfoldable pub event_eq : Event → Event → Bool
unfolding kind_eq origin_eq stamp_eq version_eq
event_eq a b =
    version_eq a.schema_version b.schema_version
    && (opt_eq a.event_id b.event_id
        && (kind_eq a.kind b.kind
            && (stamp_eq a.event_ts b.event_ts
                && (origin_eq a.lineage_origin b.lineage_origin
                    && (opt_eq a.previous_event_id b.previous_event_id
                        && (opt_eq a.previous_event_sha256 b.previous_event_sha256
                            && (opt_eq a.base_account_sha256 b.base_account_sha256
                                && (opt_eq a.account_state_sha256 b.account_state_sha256
                                    && (opt_eq a.generation_root_sha256 b.generation_root_sha256
                                        && opt_eq a.event_sha256 b.event_sha256)))))))))

pub both :
    {P Q : Type 0} (x y : Bool) → (x ≡ true) ↔ P → (y ≡ true) ↔ Q → ((x && y) ≡ true) ↔ (P × Q)
both true y p q = (λ h. (p.0 refl, q.0 h), λ h. q.1 h.1)
both false y p q = (λ h. cc, λ h. p.1 h.0)

kind_eq_iff : (a b : EventKind) → (kind_eq a b ≡ true) ↔ (a ≡ b)
unfolding kind_eq
kind_eq_iff a b = (λ h. ground arith, λ h. ground arith)

origin_eq_iff : (a b : Origin) → (origin_eq a b ≡ true) ↔ (a ≡ b)
unfolding origin_eq
origin_eq_iff a b = (λ h. ground arith, λ h. ground arith)

stamp_eq_iff : (a b : Stamp) → (stamp_eq a b ≡ true) ↔ (a ≡ b)
unfolding stamp_eq
stamp_eq_iff a b = (λ h. ground arith, λ h. ground arith)

pub version_eq_iff : (a b : Option ℕ) → (version_eq a b ≡ true) ↔ (a ≡ b)
unfolding version_eq
version_eq_iff a b = (λ h. ground arith, λ h. ground arith)

abbrev SameFields : Event → Event → Type 0
SameFields a b =
    (a.schema_version ≡ b.schema_version)
    × ((a.event_id ≡ b.event_id)
        × ((a.kind ≡ b.kind)
            × ((a.event_ts ≡ b.event_ts)
                × ((a.lineage_origin ≡ b.lineage_origin)
                    × ((a.previous_event_id ≡ b.previous_event_id)
                        × ((a.previous_event_sha256 ≡ b.previous_event_sha256)
                            × ((a.base_account_sha256 ≡ b.base_account_sha256)
                                × ((a.account_state_sha256 ≡ b.account_state_sha256)
                                    × ((a.generation_root_sha256 ≡ b.generation_root_sha256)
                                        × (a.event_sha256 ≡ b.event_sha256))))))))))

same_fields : (a b : Event) → SameFields a b → a ≡ b
same_fields a b h = λ i. record {
  schema_version = h.0 i;
  event_id = h.1.0 i;
  kind = h.1.1.0 i;
  event_ts = h.1.1.1.0 i;
  lineage_origin = h.1.1.1.1.0 i;
  previous_event_id = h.1.1.1.1.1.0 i;
  previous_event_sha256 = h.1.1.1.1.1.1.0 i;
  base_account_sha256 = h.1.1.1.1.1.1.1.0 i;
  account_state_sha256 = h.1.1.1.1.1.1.1.1.0 i;
  generation_root_sha256 = h.1.1.1.1.1.1.1.1.1.0 i;
  event_sha256 = h.1.1.1.1.1.1.1.1.1.1 i;
}

fields_same : (a b : Event) → a ≡ b → SameFields a b
fields_same a b h =
    subst (λ x. SameFields a x) h
      (refl, (refl, (refl, (refl, (refl, (refl, (refl, (refl, (refl, (refl, refl))))))))))

pub event_eq_iff : (a b : Event) → (event_eq a b ≡ true) ↔ (a ≡ b)
unfolding event_eq
event_eq_iff a b =
    let texts = both (opt_eq a.previous_event_id b.previous_event_id) _ (opt_eq_iff _ _) (
      both (opt_eq a.previous_event_sha256 b.previous_event_sha256) _ (opt_eq_iff _ _) (
        both (opt_eq a.base_account_sha256 b.base_account_sha256) _ (opt_eq_iff _ _) (
          both (opt_eq a.account_state_sha256 b.account_state_sha256) _ (opt_eq_iff _ _) (
            both (opt_eq a.generation_root_sha256 b.generation_root_sha256)
              (opt_eq a.event_sha256 b.event_sha256) (opt_eq_iff _ _) (opt_eq_iff _ _))))) in
    let fields = both (version_eq a.schema_version b.schema_version) _ (version_eq_iff _ _) (
      both (opt_eq a.event_id b.event_id) _ (opt_eq_iff _ _) (
        both (kind_eq a.kind b.kind) _ (kind_eq_iff _ _) (
          both (stamp_eq a.event_ts b.event_ts) _ (stamp_eq_iff _ _)
            (both (origin_eq a.lineage_origin b.lineage_origin) _ (origin_eq_iff _ _) texts)))) in
    (λ h. same_fields a b (fields.0 h), λ h. fields.1 (fields_same a b h))
