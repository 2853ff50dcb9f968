-- ===== src/Account/Fills/Filling/Complete.antt =====
-- What a success of `apply_fills` in futures_fund/account.py shows about the fills' completeness.
use gpt_market_neutral_crypt.Prelude.{
  ◌≡◌, some, List, [], ◌++◌, String, Outcome, value, >>=-eq-value, All, ap, sym, ◌∙◌,
}
use gpt_market_neutral_crypt.Account.{Arithmetic, PaperAccount}
use gpt_market_neutral_crypt.Account.Fills.{
  Trade, Book, Execution, consolidate, with_dropped, check_targets,
}
use gpt_market_neutral_crypt.Account.Fills.Proved.{IsProved, check_targets-IsProved}
use gpt_market_neutral_crypt.Account.Fills.Filling.{apply_fills}

module _ {R : Type 0} (n : Arithmetic R) (frictions : String → R → R → Outcome (R × R)) where
  -- Where fills with explicit targets succeed, each order on a held symbol with a positive mark is proved complete, or it
  -- leaves the position's quantity, or it keeps the position's direction and role and takes nothing off its size (each up to
  -- the tolerances). The orders are those of the consolidated book and a zero for each position that it drops.
  pub apply_fills-IsProved :
      (trades : List (Trade R)) (x : Execution R) (targets : List (String × R))
      (a a' : PaperAccount R)
      → x.targets ≡ some targets
      → apply_fills n frictions trades x a ≡ value a'
      → (named : Book R) × (consolidate n trades (record { net = []; roles = []; theses = [] })
          ≡ value named)
        × All (IsProved n x named a.positions) (named.net ++ with_dropped n named.net a.positions)
  unfolding apply_fills
  apply_fills-IsProved trades x targets a a' explicit h =
      let (named, read, h1) =
        >>=-eq-value (consolidate n trades (record { net = []; roles = []; theses = [] })) _ h in
      let book = record named { net = named.net ++ with_dropped n named.net a.positions } in
      let (u, checked, h2) = >>=-eq-value (check_targets n x book a.positions x.targets) _ h1 in
      (
        named,
        read,
        check_targets-IsProved n x book a.positions targets u
            (ap (check_targets n x book a.positions) (sym explicit) ∙ checked),
      )
