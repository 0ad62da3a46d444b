-- ===== src/Deque/View/Order.antt =====
-- Thieves get the values in the order in which they were pushed.
use mathlib.Core.List.{
  Sublist, append_assoc, reverse, reverse-append, reverse-cons, sublist_of_cons-sublist,
  cons-sublist-cons,
}
use lock_free_deque.Prelude.{◌≡◌, sym, ap, ◌∙◌, subst, List, [], ◌∷◌, ◌++◌}
use lock_free_deque.Deque.View.{View, Action, stays, pushes, pops, steals, Runs, begins, then}

module _ {A : Type 0} where
  -- The values that were stolen and those still to be taken, the latest pushed first.
  abbrev pub InOrder : View A → Type 0
  InOrder v = Sublist (reverse v.queue ++ v.stolen) v.pushed

  back : (q stolen : List A) (x : A) → reverse (q ++ (x ∷ [])) ++ stolen ≡ x ∷ (reverse q ++ stolen)
  back q stolen x = ap (λ (xs : List A). xs ++ stolen) (reverse-append q (x ∷ []))

  front : (q stolen : List A) (x : A) → reverse (x ∷ q) ++ stolen ≡ reverse q ++ (x ∷ stolen)
  front q stolen x =
      ap (λ (xs : List A). xs ++ stolen) (reverse-cons x q)
      ∙ append_assoc (reverse q) (x ∷ []) stolen

  InOrder-Action : {v v' : View A} → Action v v' → InOrder v → InOrder v'
  InOrder-Action (stays e) p = subst InOrder (sym e) p
  InOrder-Action {v} (pushes x e) p = subst InOrder (sym e) (
      subst (λ (xs : List A). Sublist xs (x ∷ v.pushed)) (sym (back v.queue v.stolen x))
        (cons-sublist-cons.1 p))
  InOrder-Action {v} {v'} (pops x e took) p = sublist_of_cons-sublist (
      subst (λ (xs : List A). Sublist xs v'.pushed) (back v'.queue v'.stolen x) (subst InOrder e p))
  InOrder-Action {v} {v'} (steals x e took) p =
      subst (λ (xs : List A). Sublist (reverse v'.queue ++ xs) v'.pushed) (sym took)
        (subst (λ (xs : List A). Sublist xs v'.pushed) (front v'.queue v.stolen x)
          (subst InOrder e p))

  pub InOrder-Runs : {v v' : View A} → Runs v v' → InOrder v → InOrder v'
  InOrder-Runs begins p = p
  InOrder-Runs (then runs action) p = InOrder-Action action (InOrder-Runs runs p)
