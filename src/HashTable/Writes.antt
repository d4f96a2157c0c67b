-- ===== src/HashTable/Writes.antt =====
-- mini_rtos/src/hashtable.c: what a write to one slot keeps and changes.
use self_mini_os.Common.{
  ℕ, ◌+◌, ◌%◌, ◌<◌, ◌≡◌, ◌≢◌, sym, ap, ◌∙◌, true, false, List, length, length-set, set, arith,
}
use mathlib.Core.Path.{subst}
use native.Mathlib.Decide.{ℕ_discrete}
use self_mini_os.HashTable.{Entry, Hashing, is_occupied, same_key}
use self_mini_os.HashTable.Probe.{at, Filled, matches, matches-is_occupied}
use self_mini_os.HashTable.View.{at-set_self, at-set_ne}
use self_mini_os.HashTable.Valid.{equal, IsHashing, Reached, IsPlaced, matches-equal}

module _ (h : Hashing) (laws : IsHashing h) (es : List Entry) (n s : ℕ) (e : Entry) where
  set-Filled : s < length es → Filled e → (x : ℕ) → Filled (at es x) → Filled (at (set es s e) x)
  set-Filled low f x g = elim (ℕ_discrete s x) [
    | yes same ↦
        subst (λ y. Filled (at (set es s e) y)) same (subst Filled (sym (at-set_self es s e low)) f)
    | no other ↦ subst Filled (sym (at-set_ne es s x e other)) g
  ]

  set-Reached :
      s < length es
      → Filled e
      → (home slot : ℕ) → Reached es n home slot
      → Reached (set es s e) n home slot
  set-Reached low f home slot (m, few, place, filled) =
      (m, few, place, λ j l. set-Filled low f ((home + j) % n) (filled j l))

  -- a key is held by an occupied entry if that one's key is held by an entry of the key
  matches_symm :
      (a b : Entry) → is_occupied a ≡ true → matches h a.key b ≡ true → matches h b.key a ≡ true
  unfolding matches same_key equal
  matches_symm a b o m =
      let eq = matches-equal h laws a.key b m in rw o (laws.equal_symm b.key a.key eq)

  module _ (placed : IsPlaced h es n) (low : s < n) (filled : Filled e)
      (own : is_occupied e ≡ true → Reached es n (h.hash e.key % n) s)
      (alone : is_occupied e ≡ true
        → (i : ℕ) → i < n
        → i ≢ s
        → matches h e.key (at es i) ≡ false) where
    fits : s < length es
    fits = omega (arith, placed.sized)

    set_way :
        (i : ℕ)
        → i < n
        → is_occupied (at (set es s e) i) ≡ true
        → Reached (set es s e) n (h.hash (at (set es s e) i).key % n) i
    set_way i l o = elim (ℕ_discrete s i) [
      | yes same ↦
          let here = at-set_self es s e fits in
          let e_at : at (set es s e) i ≡ e = ap (at (set es s e)) (sym same) ∙ here in
          subst (λ x. Reached (set es s e) n (h.hash x.key % n) i) (sym e_at)
            (set-Reached fits filled (h.hash e.key % n) i (
              subst (Reached es n (h.hash e.key % n)) same
                (own (subst (λ x. is_occupied x ≡ true) e_at o))))
      | no other ↦
          let there = at-set_ne es s i e other in
          subst (λ x. Reached (set es s e) n (h.hash x.key % n) i) (sym there)
            (set-Reached fits filled (h.hash (at es i).key % n) i
              (placed.reached i l (subst (λ x. is_occupied x ≡ true) there o)))
    ]

    set_once :
        (i j : ℕ)
        → i < n
        → j < n
        → is_occupied (at (set es s e) i) ≡ true
        → matches h (at (set es s e) i).key (at (set es s e) j) ≡ true
        → i ≡ j
    set_once i j li lj o m = elim (ℕ_discrete s i) [
      | yes is ↦ elim (ℕ_discrete s j) [
        | yes js ↦ sym is ∙ js
        | no j_else ↦
            let e_at : at (set es s e) i ≡ e =
              ap (at (set es s e)) (sym is) ∙ at-set_self es s e fits in
            let there = at-set_ne es s j e j_else in
            let m' : matches h e.key (at es j) ≡ true =
              subst (λ x. matches h x.key (at es j) ≡ true) e_at
                (subst (λ x. matches h (at (set es s e) i).key x ≡ true) there m) in
            let none_else =
              alone (subst (λ x. is_occupied x ≡ true) e_at o) j lj (λ q. j_else (sym q)) in
            cc (m', none_else)
      ]
      | no i_else ↦
          let there = at-set_ne es s i e i_else in
          let o' : is_occupied (at es i) ≡ true = subst (λ x. is_occupied x ≡ true) there o in
          let m1 : matches h (at es i).key (at (set es s e) j) ≡ true =
            subst (λ x. matches h x.key (at (set es s e) j) ≡ true) there m in
          elim (ℕ_discrete s j) [
            | yes js ↦
                let e_at : at (set es s e) j ≡ e =
                  ap (at (set es s e)) (sym js) ∙ at-set_self es s e fits in
                let m2 : matches h (at es i).key e ≡ true =
                  subst (λ x. matches h (at es i).key x ≡ true) e_at m1 in
                let none_else = alone (matches-is_occupied h _ e m2) i li (λ q. i_else (sym q)) in
                cc (matches_symm (at es i) e o' m2, none_else)
            | no j_else ↦
                placed.once i j li lj o'
                  (subst (λ x. matches h (at es i).key x ≡ true) (at-set_ne es s j e j_else) m1)
          ]
    ]

    -- A write of an entry that no probe would miss, and of a key held nowhere else.
    pub set-IsPlaced : IsPlaced h (set es s e) n
    set-IsPlaced = record {
      sized = length-set es s e ∙ placed.sized;
      positive = placed.positive;
      reached = set_way;
      once = set_once;
    }
