-- ===== src/Account/Fills/Proved.antt =====
-- The full-fill proof that `apply_fills` of futures_fund/account.py asks for before it changes
-- anything.
use gpt_market_neutral_crypt.Prelude.{
  ◌≡◌, refl, ◌⊎◌, inl, inr, ap, Bool, true, false, ◌&&◌, ◌||◌, not, Option, some, none, List, [],
  ◌∷◌, String, value, raise_if, >>=-eq-value, All, arith,
}
use gpt_market_neutral_crypt.Account.{
  Arithmetic, Position, Role, alpha, hedge, lookup, absolute, signed_qty,
}
use gpt_market_neutral_crypt.Account.Fills.{
  Book, Execution, or_default, same_role, is_close, check_one, check_lifecycles, covered,
  all_finite, check_targets,
}

module _ {R : Type 0} (n : Arithmetic R) where
  -- At its mark, the order leaves the position's quantity, up to a relative billionth; or it keeps the position's direction
  -- and role, and takes nothing off its size, up to the absolute tolerance.
  abbrev pub KeepsLifecycle : Book R → String → R → Position R → R → Type 0
  KeepsLifecycle b s notional p mark =
      let desired = n.over notional mark in
      let current = signed_qty n p in
      (is_close n n.billionth desired current ≡ true)
      ⊎ ((n.lt n.nought (n.times desired current) ≡ true)
          × (n.lt (absolute n desired) (n.minus (absolute n current) n.tiny) ≡ false)
          × (or_default p.seat_role (lookup s b.roles) ≡ p.seat_role))

  -- An order on a held symbol with a positive mark is proved complete, or keeps the position's lifecycle.
  abbrev ProvedAt : Execution R → Book R → String → R → Option (Position R) → Option R → Type 0
  ProvedAt x b s notional (some p) (some mark) =
      (n.lt n.nought mark ≡ false)
      ⊎ (lookup s x.completed ≡ some true)
      ⊎ KeepsLifecycle b s notional p mark
  ProvedAt x b s notional _ _ = Unit

  abbrev pub IsProved : Execution R → Book R → List (String × Position R) → String × R → Type 0
  IsProved x b positions (s, notional) =
      ProvedAt x b s notional (lookup s positions) (lookup s x.marks)

  completed-true : (m : Option Bool) → or_default false m ≡ true → m ≡ some true
  completed-true none h = absurd (ground arith)
  completed-true (some c) h = ap some h

  same_role-eq : (a b : Role) → same_role a b ≡ true → a ≡ b
  same_role-eq alpha alpha h = refl
  same_role-eq hedge hedge h = refl
  same_role-eq alpha hedge h = absurd (ground arith)
  same_role-eq hedge alpha h = absurd (ground arith)

  -- The test in front of a fill, by its five conditions.
  proved_cases :
      (marked close same_sign smaller role completed : Bool) (u : Unit {0})
      → raise_if
          (marked && ((not close && (not same_sign || smaller || not role)) && not completed))
        ≡ value u
      → (marked ≡ false)
        ⊎ (completed ≡ true)
        ⊎ (close ≡ true)
        ⊎ ((same_sign ≡ true) × (smaller ≡ false) × (role ≡ true))
  proved_cases false close same_sign smaller role completed u h = inl refl
  proved_cases true close same_sign smaller role true u h = inr (inl refl)
  proved_cases true true same_sign smaller role false u h = inr (inr (inl refl))
  proved_cases true false true false true false u h = inr (inr (inr (refl, refl, refl)))
  proved_cases true false false smaller role false u h = absurd (ground arith)
  proved_cases true false true true role false u h = absurd (ground arith)
  proved_cases true false true false false false u h = absurd (ground arith)

  check_one-ProvedAt :
      (x : Execution R) (b : Book R) (s : String) (notional : R) (held : Option (Position R))
      (mark : Option R) (u : Unit {0})
      → check_one n x b s notional held mark ≡ value u
      → ProvedAt x b s notional held mark
  unfolding check_one
  check_one-ProvedAt x b s notional none none u h = tt
  check_one-ProvedAt x b s notional none (some k) u h = tt
  check_one-ProvedAt x b s notional (some p) none u h = tt
  check_one-ProvedAt x b s notional (some p) (some mark) u h =
      let desired = n.over notional mark in
      let current = signed_qty n p in
      let role = or_default p.seat_role (lookup s b.roles) in
      elim (proved_cases (n.lt n.nought mark) (is_close n n.billionth desired current)
        (n.lt n.nought (n.times desired current))
        (n.lt (absolute n desired) (n.minus (absolute n current) n.tiny))
        (same_role role p.seat_role) (or_default false (lookup s x.completed)) u h) [
          | inl no_mark ↦ inl no_mark
          | inr (inl completed) ↦ inr (inl (completed-true (lookup s x.completed) completed))
          | inr (inr (inl close)) ↦ inr (inr (inl close))
          | inr (inr (inr (sign, size, same))) ↦
              inr (inr (inr (sign, size, same_role-eq role p.seat_role same)))
        ]

  check_lifecycles-IsProved :
      (x : Execution R) (b : Book R) (positions : List (String × Position R))
      (net : List (String × R)) (u : Unit {0})
      → check_lifecycles n x b positions net ≡ value u
      → All (IsProved x b positions) net
  unfolding check_lifecycles
  check_lifecycles-IsProved x b positions [] u h = tt
  check_lifecycles-IsProved x b positions ((s, notional) ∷ net) u h =
      let (v, first, rest) =
        >>=-eq-value (check_one n x b s notional (lookup s positions) (lookup s x.marks)) _ h in
      (
        check_one-ProvedAt x b s notional (lookup s positions) (lookup s x.marks) v first,
        check_lifecycles-IsProved x b positions net u rest,
      )

  pub check_targets-IsProved :
      (x : Execution R) (b : Book R) (positions : List (String × Position R))
      (targets : List (String × R)) (u : Unit {0})
      → check_targets n x b positions (some targets) ≡ value u
      → All (IsProved x b positions) b.net
  unfolding check_targets
  check_targets-IsProved x b positions targets u h =
      let (_, _, h1) =
        >>=-eq-value (raise_if (not (covered n targets b.net && covered n b.net targets))) _ h in
      let (_, _, h2) = >>=-eq-value (raise_if (not (all_finite n targets))) _ h1 in
      check_lifecycles-IsProved x b positions b.net u h2
