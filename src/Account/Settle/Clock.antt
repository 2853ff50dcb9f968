-- ===== src/Account/Settle/Clock.antt =====
-- The funding clock of futures_fund/account.py: no settlement is applied twice.
use gpt_market_neutral_crypt.Prelude.{
  ℕ, ◌≤◌, ◌<◌, ◌≡◌, ◌≢◌, refl, Bool, true, false, Option, none, some, List, [], ◌∷◌, String, arith,
  inl, inr, sym, ap, subst, ◌∙◌, value, raised, >>=-eq-value, Outcome-cases, value-injective, All,
  leb, ltb, not, ◌||◌, ◌&&◌, raise_if,
}
use gpt_market_neutral_crypt.Time.{Instant}
use gpt_market_neutral_crypt.Account.{Arithmetic, Position, PaperAccount, lookup}
use gpt_market_neutral_crypt.Account.Settle.{
  Staged, FundingEvent, off_clock, clock_or, stage_events, stage_symbol, stage_symbols, seen_before,
  bad_price, apply_staged, sum_from, held_without_clock, missing, stage, observed, settle_funding,
  settle_funding_events,
}

raise_if-false : (b : Bool) (u : Unit {0}) → raise_if b ≡ value u → b ≡ false
raise_if-false true u h = cc
raise_if-false false u h = refl

on_clock :
    (clock : Option Instant) (start c : Instant)
    → off_clock clock start ≡ false
    → clock ≡ some c
    → start ≡ c
on_clock none start c h e = cc
on_clock (some d) start c h e = ground arith

module _ {R : Type 0} (n : Arithmetic R) where
  apply_staged-clock :
      (end : Instant) (staged : Staged R) (a a' : PaperAccount R)
      → apply_staged n end staged a ≡ value a'
      → a'.last_funding_ts ≡ some end
  unfolding apply_staged
  apply_staged-clock end staged a a' h =
      let new_cash = n.plus a.cash (sum_from n n.nought staged) in
      let (u, ok, last) =
        >>=-eq-value (raise_if (not (n.is_finite new_cash) || n.lt new_cash n.nought)) _ h in
      ap (λ (x : PaperAccount R). x.last_funding_ts) (sym (value-injective last))

  -- A settlement that succeeds starts at the account's clock, if that is set, does not run
  -- backwards, and sets the clock to its end.
  settle_funding-clock :
      (start end : Instant) (rates : List (String × R)) (intervals : List (String × ℕ))
      (marks : List (String × R)) (a a' : PaperAccount R)
      → settle_funding n start end rates intervals marks a ≡ value a'
      → (a'.last_funding_ts ≡ some end)
        × (start ≤ end)
        × ((c : Instant) → a.last_funding_ts ≡ some c → start ≡ c)
  unfolding settle_funding
  settle_funding-clock start end rates intervals marks a a' h =
      let (_, held, h1) = >>=-eq-value (raise_if (held_without_clock a)) _ h in
      let (u, forward, h2) = >>=-eq-value (raise_if (ltb end start)) _ h1 in
      let (v, clock, h3) = >>=-eq-value (raise_if (off_clock a.last_funding_ts start)) _ h2 in
      let (_, _, h4) =
        >>=-eq-value
          (raise_if (
            missing a.positions rates
            || missing a.positions intervals
            || missing a.positions marks))
          _ h3 in
      let (staged, _, h5) =
        >>=-eq-value (stage n start end rates intervals marks a.positions) _ h4 in
      let fwd : ltb end start ≡ false = raise_if-false (ltb end start) u forward in
      (
        apply_staged-clock end staged a a' h5,
        ground arith,
        λ c e. on_clock a.last_funding_ts start c (raise_if-false _ v clock) e,
      )

  -- Settling again from the start of a window that is settled raises, whatever the rates, marks
  -- and end, unless the window was empty.
  pub settle_funding-replay :
      (start end end' : Instant) (rates rates' : List (String × R))
      (intervals intervals' : List (String × ℕ)) (marks marks' : List (String × R))
      (a a' : PaperAccount R)
      → start ≢ end
      → settle_funding n start end rates intervals marks a ≡ value a'
      → settle_funding n start end' rates' intervals' marks' a' ≡ raised
  settle_funding-replay start end end' rates rates' intervals intervals' marks marks' a a' ne h =
      elim (Outcome-cases (settle_funding n start end' rates' intervals' marks' a')) [
        | inl e ↦ e
        | inr (a'', e) ↦
            let first = settle_funding-clock start end rates intervals marks a a' h in
            let again = settle_funding-clock start end' rates' intervals' marks' a' a'' e in
            absurd (ne (again.2 end first.0))
      ]

  -- The events lie behind `previous`, up to `end`.
  abbrev pub Within : Instant → Instant → List (FundingEvent R) → Type 0
  Within previous end events =
      All (λ (e : FundingEvent R). (previous < e.timestamp) × (e.timestamp ≤ end)) events

  stage_events-Within :
      (previous end : Instant) (sym : String) (p : Position R) (seen : List Instant)
      (events : List (FundingEvent R)) (staged : Staged R)
      → stage_events n previous end sym p seen events ≡ value staged
      → Within previous end events
  unfolding stage_events
  stage_events-Within previous end sym p seen [] staged h = tt
  stage_events-Within previous end sym p seen (e ∷ events) staged h =
      let (_, fresh, h1) = >>=-eq-value (raise_if (seen_before n e.timestamp seen)) _ h in
      let (u, inside, h2) =
        >>=-eq-value (raise_if (not (ltb previous e.timestamp && leb e.timestamp end))) _ h1 in
      let (_, _, h3) = >>=-eq-value (raise_if (bad_price n e.rate e.mark)) _ h2 in
      let (later, rest, _) =
        >>=-eq-value (stage_events n previous end sym p (e.timestamp ∷ seen) events) _ h3 in
      let within =
        raise_if-false (not (ltb previous e.timestamp && leb e.timestamp end)) u inside in
      (
        (ground arith, ground arith),
        stage_events-Within previous end sym p (e.timestamp ∷ seen) events later rest,
      )

  -- The events that the call gives for a position.
  abbrev pub EventsOf :
      List (String × List (FundingEvent R)) → Instant → Instant → String × Position R → Type 0
  EventsOf events previous end held =
      (given : List (FundingEvent R)) × (lookup held.0 events ≡ some given)
      × Within previous end given

  stage_symbol-EventsOf :
      (previous end : Instant) (sym : String) (p : Position R)
      (found : Option (List (FundingEvent R))) (staged : Staged R)
      → stage_symbol n previous end sym p found ≡ value staged
      → (given : List (FundingEvent R)) × (found ≡ some given) × Within previous end given
  unfolding stage_symbol
  stage_symbol-EventsOf previous end sym p none staged h = cc
  stage_symbol-EventsOf previous end sym p (some events) staged h =
      (events, refl, stage_events-Within previous end sym p [] events staged h)

  stage_symbols-EventsOf :
      (previous end : Instant) (events : List (String × List (FundingEvent R)))
      (positions : List (String × Position R)) (staged : Staged R)
      → stage_symbols n previous end events positions ≡ value staged
      → All (EventsOf events previous end) positions
  unfolding stage_symbols
  stage_symbols-EventsOf previous end events [] staged h = tt
  stage_symbols-EventsOf previous end events ((sym, p) ∷ rest) staged h =
      let (here, first, h1) =
        >>=-eq-value (stage_symbol n previous end sym p (lookup sym events)) _ h in
      let (later, others, _) = >>=-eq-value (stage_symbols n previous end events rest) _ h1 in
      (
        stage_symbol-EventsOf previous end sym p (lookup sym events) here first,
        stage_symbols-EventsOf previous end events rest later others,
      )

  -- A settlement of historical events that succeeds has used, for every held symbol, only events
  -- later than the account's clock (`end` where it is not set) and no later than `end`, and sets the clock to `end`.
  settle_funding_events-clock :
      (events : List (String × List (FundingEvent R))) (end : Instant)
      (intervals : List (String × ℕ)) (a a' : PaperAccount R)
      → settle_funding_events n events end intervals a ≡ value a'
      → (a'.last_funding_ts ≡ some end)
        × All (EventsOf events (clock_or end a.last_funding_ts) end) a.positions
  unfolding settle_funding_events
  settle_funding_events-clock events end intervals a a' h =
      let previous = clock_or end a.last_funding_ts in
      let (_, _, h1) = >>=-eq-value (raise_if (held_without_clock a)) _ h in
      let (_, _, h2) = >>=-eq-value (raise_if (ltb end previous)) _ h1 in
      let (_, _, h3) = >>=-eq-value (raise_if (missing a.positions events)) _ h2 in
      let (kept, _, h4) = >>=-eq-value (observed n intervals a.positions) _ h3 in
      let (staged, read, h5) =
        >>=-eq-value (stage_symbols n previous end events a.positions) _ h4 in
      let (settled, applied, last) = >>=-eq-value (apply_staged n end staged a) _ h5 in
      (
        ap (λ (x : PaperAccount R). x.last_funding_ts) (sym (value-injective last))
            ∙ apply_staged-clock end staged a settled applied,
        stage_symbols-EventsOf previous end events a.positions staged read,
      )

  -- Of two settlements of historical events in a row that succeed, the second uses, for every
  -- symbol then held, only events later than the first one's end and no later than its own.
  pub settle_funding_events-disjoint :
      (events events' : List (String × List (FundingEvent R))) (end end' : Instant)
      (intervals intervals' : List (String × ℕ)) (a a' a'' : PaperAccount R)
      → settle_funding_events n events end intervals a ≡ value a'
      → settle_funding_events n events' end' intervals' a' ≡ value a''
      → All (EventsOf events' end end') a'.positions
  settle_funding_events-disjoint events events' end end' intervals intervals' a a' a'' h h' =
      let first = settle_funding_events-clock events end intervals a a' h in
      let second = settle_funding_events-clock events' end' intervals' a' a'' h' in
      subst (λ (c : Option Instant). All (EventsOf events' (clock_or end' c) end') a'.positions)
        first.0 second.1
