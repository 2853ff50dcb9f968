-- ===== src/Account/Fills/Filling/Keys.antt =====
-- `apply_fills` of futures_fund/account.py keeps every position under its symbol.
use gpt_market_neutral_crypt.Prelude.{
  ◌≡◌, refl, inl, inr, Bool, true, false, Option, none, some, List, [], ◌∷◌, ◌++◌, String,
  Bool-cases, sym, subst, ◌∙◌, arith, if◌then◌else◌, ◌&&◌, not, Outcome, value, >>=-eq-value,
  value-injective,
}
use gpt_market_neutral_crypt.Account.{
  Arithmetic, Position, PaperAccount, lookup, assign, absolute, signed_qty, roll_seat_lifecycle,
}
use gpt_market_neutral_crypt.Account.Keys.{
  IsKeyed, assign_thesis-symbol, assign-IsKeyed, lookup-symbol,
}
use gpt_market_neutral_crypt.Account.Reconcile.Keyed.{reconcile_opposite-IsKeyed}
use gpt_market_neutral_crypt.Account.Fills.{
  Trade, Book, Execution, same_role, same_direction, is_close, consolidate, with_dropped,
  check_targets,
}
use gpt_market_neutral_crypt.Account.Fills.Filling.{
  Goal, goal_of, open_new, increase, keep, roll_held, order_of, reduce, fill_held, change_held,
  fill_one, fill_all, apply_fills,
}

module _ {R : Type 0} (n : Arithmetic R) (frictions : String → R → R → Outcome (R × R)) where
  roll-symbol :
      (a : PaperAccount R) (p : Position R) (g : Goal R)
      → (roll_seat_lifecycle n a p g.mark g.ts g.opening g.role g.thesis).1.symbol ≡ p.symbol
  unfolding roll_seat_lifecycle
  roll-symbol a p g = assign_thesis-symbol g.thesis _

  roll-positions :
      (a : PaperAccount R) (p : Position R) (g : Goal R)
      → (roll_seat_lifecycle n a p g.mark g.ts g.opening g.role g.thesis).0.positions ≡ a.positions
  unfolding roll_seat_lifecycle
  roll-positions a p g = refl

  same_account :
      (a a' : PaperAccount R) → value a ≡ value a' → IsKeyed a.positions → IsKeyed a'.positions
  same_account a a' h k = subst (λ (x : PaperAccount R). IsKeyed x.positions) (value-injective h) k

  keep-IsKeyed :
      (g : Goal R) (p : Position R) (a : PaperAccount R)
      → p.symbol ≡ g.sym
      → IsKeyed a.positions
      → IsKeyed (keep n frictions g p a).positions
  unfolding keep
  keep-IsKeyed g p a s k =
      assign-IsKeyed g.sym _ a.positions (assign_thesis-symbol g.thesis _ ∙ s) k

  open_new-IsKeyed :
      (g : Goal R) (a a' : PaperAccount R)
      → IsKeyed a.positions
      → open_new n frictions g a ≡ value a'
      → IsKeyed a'.positions
  unfolding open_new
  open_new-IsKeyed g a a' k h = elim (Bool-cases (is_close n n.tiny g.target n.nought)) [
    | inl t ↦ same_account a a' (ground arith) k
    | inr f ↦
        let (costs, paid, last) =
          >>=-eq-value (frictions g.sym (n.minus g.target n.nought) g.mark) _
            (rw (open_new, f) at h) in
        subst (λ (x : PaperAccount R). IsKeyed x.positions) (value-injective last)
          (assign-IsKeyed g.sym _ a.positions (assign_thesis-symbol g.thesis _) k)
  ]

  increase-IsKeyed :
      (g : Goal R) (delta fee slip : R) (p : Position R) (a : PaperAccount R)
      → p.symbol ≡ g.sym
      → IsKeyed a.positions
      → IsKeyed (increase n frictions g delta fee slip p a).positions
  unfolding increase
  increase-IsKeyed g delta fee slip p a s k =
      assign-IsKeyed g.sym _ a.positions (assign_thesis-symbol g.thesis _ ∙ s) k

  roll_held-IsKeyed :
      (g : Goal R) (held : Option (Position R)) (a : PaperAccount R)
      → lookup g.sym a.positions ≡ held
      → IsKeyed a.positions
      → IsKeyed (roll_held n frictions g held a).positions
  unfolding roll_held
  roll_held-IsKeyed g none a h k = k
  roll_held-IsKeyed g (some p) a h k =
      assign-IsKeyed g.sym _ a.positions (roll-symbol a p g ∙ lookup-symbol g.sym a.positions p k h)
        k

  reduce-IsKeyed :
      (g : Goal R) (role_reduction : Bool) (fee slip : R) (p : Position R) (a : PaperAccount R)
      → p.symbol ≡ g.sym
      → IsKeyed a.positions
      → IsKeyed (reduce n frictions g role_reduction fee slip p a).positions
  unfolding reduce
  reduce-IsKeyed g true fee slip p a s k =
      roll_held-IsKeyed g _ _ refl
        (reconcile_opposite-IsKeyed n (order_of n frictions g fee slip p.seat_role none) p a s k)
  reduce-IsKeyed g false fee slip p a s k =
      reconcile_opposite-IsKeyed n (order_of n frictions g fee slip g.role g.thesis) p a s k

  if_IsKeyed :
      (b : Bool) (x y : PaperAccount R)
      → IsKeyed x.positions
      → IsKeyed y.positions
      → IsKeyed (if b then x else y).positions
  if_IsKeyed true x y kx ky = kx
  if_IsKeyed false x y kx ky = ky

  fill_held-IsKeyed :
      (g : Goal R) (role_reduction : Bool) (p : Position R) (a a' : PaperAccount R)
      → p.symbol ≡ g.sym
      → IsKeyed a.positions
      → fill_held n frictions g role_reduction p a ≡ value a'
      → IsKeyed a'.positions
  unfolding fill_held
  fill_held-IsKeyed g role_reduction p a a' s k h =
      elim (Bool-cases (is_close n n.tiny g.target (signed_qty n p))) [
        | inl t ↦ same_account (keep n frictions g p a) a' (ground arith) (keep-IsKeyed g p a s k)
        | inr f ↦
            let (costs, paid, last) =
              >>=-eq-value (frictions g.sym (n.minus g.target (signed_qty n p)) g.mark) _
                (rw (fill_held, f) at h) in
            subst (λ (x : PaperAccount R). IsKeyed x.positions) (value-injective last)
              (if_IsKeyed _ _ _ (reduce-IsKeyed g role_reduction costs.0 costs.1 p a s k)
                (increase-IsKeyed g _ costs.0 costs.1 p a s k))
      ]

  change_held-IsKeyed :
      (g : Goal R) (p : Position R) (a a' : PaperAccount R)
      → p.symbol ≡ g.sym
      → IsKeyed a.positions
      → change_held n frictions g p a ≡ value a'
      → IsKeyed a'.positions
  unfolding change_held
  change_held-IsKeyed g p a a' s k h =
      let role_change =
        same_direction p.direction g.direction && not (same_role p.seat_role g.role) in
      let reduction = role_change && n.lt (absolute n g.target) (absolute n (signed_qty n p)) in
      let rolled = roll_seat_lifecycle n a p g.mark g.ts g.opening g.role g.thesis in
      let named = roll-symbol a p g ∙ s in
      elim (Bool-cases (role_change && not reduction)) [
        | inl t ↦
            fill_held-IsKeyed g false rolled.1
              (record rolled.0 { positions = assign g.sym rolled.1 a.positions }) a' named
              (assign-IsKeyed g.sym rolled.1 a.positions named k)
              (ground (arith, roll-positions a p g))
        | inr f ↦ fill_held-IsKeyed g reduction p a a' s k (ground arith)
      ]

  goal_of-sym :
      (x : Execution R) (b : Book R) (s : String) (notional mark : R) (held : Option (Position R))
      → (goal_of n frictions x b s notional mark held).sym ≡ s
  unfolding goal_of
  goal_of-sym x b s notional mark held = refl

  fill_one-IsKeyed :
      (x : Execution R) (b : Book R) (s : String) (notional : R) (mark : Option R)
      (held : Option (Position R)) (a a' : PaperAccount R)
      → lookup s a.positions ≡ held
      → IsKeyed a.positions
      → fill_one n frictions x b s notional mark held a ≡ value a'
      → IsKeyed a'.positions
  unfolding fill_one
  fill_one-IsKeyed x b s notional none none a a' l k h = same_account a a' (ground arith) k
  fill_one-IsKeyed x b s notional none (some p) a a' l k h = absurd (ground arith)
  fill_one-IsKeyed x b s notional (some mark) none a a' l k h =
      elim (Bool-cases (n.is_finite mark && n.lt n.nought mark)) [
        | inl t ↦
            open_new-IsKeyed (goal_of n frictions x b s notional mark none) a a' k (ground arith)
        | inr f ↦ same_account a a' (ground arith) k
      ]
  fill_one-IsKeyed x b s notional (some mark) (some p) a a' l k h =
      elim (Bool-cases (n.is_finite mark && n.lt n.nought mark)) [
        | inl t ↦
            let goal = goal_of n frictions x b s notional mark (some p) in
            change_held-IsKeyed goal p a a'
              (lookup-symbol s a.positions p k l ∙ sym (goal_of-sym x b s notional mark (some p))) k
              (ground arith)
        | inr f ↦ absurd (ground arith)
      ]

  fill_all-IsKeyed :
      (x : Execution R) (b : Book R) (net : List (String × R)) (a a' : PaperAccount R)
      → IsKeyed a.positions
      → fill_all n frictions x b net a ≡ value a'
      → IsKeyed a'.positions
  unfolding fill_all
  fill_all-IsKeyed x b [] a a' k h = same_account a a' h k
  fill_all-IsKeyed x b ((s, notional) ∷ net) a a' k h =
      let (next, one, rest) =
        >>=-eq-value
          (fill_one n frictions x b s notional (lookup s x.marks) (lookup s a.positions) a) _ h in
      fill_all-IsKeyed x b net next a' (fill_one-IsKeyed x b s notional _ _ a next refl k one) rest

  -- If every position stands under its own symbol, so it does after fills that succeed, whatever the book, the marks and
  -- the frictions.
  pub apply_fills-IsKeyed :
      (trades : List (Trade R)) (x : Execution R) (a a' : PaperAccount R)
      → IsKeyed a.positions
      → apply_fills n frictions trades x a ≡ value a'
      → IsKeyed a'.positions
  unfolding apply_fills
  apply_fills-IsKeyed trades x a a' k h =
      let (named, _, h1) =
        >>=-eq-value (consolidate n trades (record { net = []; roles = []; theses = [] })) _ h in
      let book = record named { net = named.net ++ with_dropped n named.net a.positions } in
      let (_, _, h2) = >>=-eq-value (check_targets n x book a.positions x.targets) _ h1 in
      fill_all-IsKeyed x book book.net a a' k h2
