-- ===== src/Deque/View/Conserved.antt =====
-- The abstract deque neither loses a value nor gives one twice.
use mathlib.Core.List.{Perm, perm_middle, append_assoc}
use mathlib.Core.List.Perm
use lock_free_deque.Prelude.{sym, subst, List, [], ◌∷◌, ◌++◌}
use lock_free_deque.Deque.View.{View, Action, stays, pushes, pops, steals, Runs, begins, then}

module _ {A : Type 0} where
  abbrev pub Conserved : View A → Type 0
  Conserved v = Perm (v.queue ++ (v.popped ++ v.stolen)) v.pushed

  perm_push :
      (q rest pushed : List A) (x : A)
      → Perm (q ++ rest) pushed
      → Perm ((q ++ (x ∷ [])) ++ rest) (x ∷ pushed)
  perm_push q rest pushed x p =
      subst (λ (xs : List A). Perm xs (x ∷ pushed)) (sym (append_assoc q (x ∷ []) rest))
        (Perm.trans (perm_middle q rest) (Perm.cons x p))

  perm_steal :
      (q popped stolen pushed : List A) (x : A)
      → Perm ((x ∷ q) ++ (popped ++ stolen)) pushed
      → Perm (q ++ (popped ++ (x ∷ stolen))) pushed
  perm_steal q popped stolen pushed x p =
      Perm.trans (Perm.append_left q (perm_middle popped stolen))
        (Perm.trans (perm_middle q (popped ++ stolen)) p)

  Conserved-Action : {v v' : View A} → Action v v' → Conserved v → Conserved v'
  Conserved-Action (stays e) p = subst Conserved (sym e) p
  Conserved-Action {v} (pushes x e) p =
      subst Conserved (sym e) (perm_push v.queue (v.popped ++ v.stolen) v.pushed x p)
  Conserved-Action {v} {v'} (pops x e took) p =
      subst (λ (xs : List A). Perm (v'.queue ++ (xs ++ v'.stolen)) v'.pushed) (sym took)
        (subst (λ (xs : List A). Perm xs v'.pushed)
          (append_assoc v'.queue (x ∷ []) (v.popped ++ v'.stolen)) (subst Conserved e p))
  Conserved-Action {v} {v'} (steals x e took) p =
      subst (λ (xs : List A). Perm (v'.queue ++ (v'.popped ++ xs)) v'.pushed) (sym took)
        (perm_steal v'.queue v'.popped v.stolen v'.pushed x (subst Conserved e p))

  pub Conserved-Runs : {v v' : View A} → Runs v v' → Conserved v → Conserved v'
  Conserved-Runs begins p = p
  Conserved-Runs (then runs action) p = Conserved-Action action (Conserved-Runs runs p)
