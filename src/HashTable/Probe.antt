-- ===== src/HashTable/Probe.antt =====
-- mini_rtos/src/hashtable.c: what the loop of `find_slot` finds.
use self_mini_os.Common.{
  ℕ, zero, suc, ◌+◌, ◌%◌, ◌≤◌, ◌<◌, ◌≡◌, ◌≢◌, refl, sym, ap, ◌∙◌, ◌⊎◌, inl, inr, Bool, true, false,
  ◌&&◌, Option, some, List, [], ◌∷◌, ◌==◌, ==_iff, if◌then◌else◌, length, get_elem?, get_or, arith,
  Bool-cases,
}
use mathlib.Core.Path.{subst}
use native.Mathlib.Decide.{dec_lt, ℕ_discrete}
use self_mini_os.HashTable.{
  Mark, empty, occupied, deleted, Entry, blank, Hashing, is_occupied, same_key, Visit, stop, go_on,
  visit, probe,
}
use self_mini_os.HashTable.Ring.{wrap-lt, wrap-next, wrap-ne-home, wrap-full}

abbrev pub at : List Entry → ℕ → Entry
at es i = get_or es i blank

pub get_elem?-at : (es : List Entry) (i : ℕ) → i < length es → get_elem? es i ≡ some (at es i)
get_elem?-at [] i h = elim h [ ]
get_elem?-at (e ∷ es) zero h = refl
get_elem?-at (e ∷ es) (suc i) h = get_elem?-at es i (omega arith)

-- an entry that the loop passes
unfoldable pub Filled : Entry → Type 0
Filled e = e.flags ≢ empty

pub is_occupied-Filled : (e : Entry) → is_occupied e ≡ true → Filled e
unfolding is_occupied Filled
is_occupied-Filled e o f = ground arith

module _ (h : Hashing) where
  -- the entry holds the key
  unfoldable pub matches : List ℕ → Entry → Bool
  matches key e = is_occupied e && same_key h key e

  pub matches-is_occupied : (key : List ℕ) (e : Entry) → matches key e ≡ true → is_occupied e ≡ true
  unfolding matches
  matches-is_occupied key e m = ground arith

  visit-empty :
      (key : List ℕ) (n index gap : ℕ) (e : Entry)
      → e.flags ≡ empty
      → visit h key n index gap e ≡ stop (if gap == n then index else gap) false
  unfolding visit
  visit-empty key n index gap e f = rw (f, visit)

  visit-deleted :
      (key : List ℕ) (n index gap : ℕ) (e : Entry)
      → e.flags ≡ deleted
      → visit h key n index gap e ≡ go_on (if gap == n then index else gap)
  unfolding visit
  visit-deleted key n index gap e f = rw (f, visit)

  visit-occupied :
      (key : List ℕ) (n index gap : ℕ) (e : Entry)
      → e.flags ≡ occupied
      → visit h key n index gap e ≡ (if matches key e then stop index true else go_on gap)
  unfolding visit matches is_occupied same_key
  visit-occupied key n index gap e f = rw (f, visit, is_occupied)

  -- what an entry can be to the loop
  Entry-cases : (e : Entry) → (e.flags ≡ empty) ⊎ (e.flags ≡ deleted) ⊎ (e.flags ≡ occupied)
  Entry-cases e = go e.flags refl
    where
      go : (f : Mark) → e.flags ≡ f → (e.flags ≡ empty) ⊎ (e.flags ≡ deleted) ⊎ (e.flags ≡ occupied)
      go empty e = inl e
      go deleted e = inr (inl e)
      go occupied e = inr (inr e)

  pub matches-free : (key : List ℕ) (e : Entry) → is_occupied e ≡ false → matches key e ≡ false
  unfolding matches
  matches-free key e o = rw o

  occupied_mark : (e : Entry) → e.flags ≡ occupied → is_occupied e ≡ true
  unfolding is_occupied
  occupied_mark e o = rw (o, is_occupied)

  deleted_mark : (e : Entry) → e.flags ≡ deleted → (is_occupied e ≡ false) × Filled e
  unfolding is_occupied Filled
  deleted_mark e d = (rw (d, is_occupied), λ q. cc (d, q))

  module _ (es : List Entry) (n : ℕ) (key : List ℕ) (home : ℕ) where
    -- the entry in the `m`th round
    abbrev pub seen : ℕ → Entry
    seen m = at es ((home + m) % n)

    pub data Outcome : ℕ × Bool → Type 0 where
      hit : {slot : ℕ} → slot < n → matches key (at es slot) ≡ true → Outcome (slot, true)
      -- a free slot in round `m`, and the key in none of the first `k` ones, after which comes an empty
      -- slot unless all have been seen
      miss :
          {slot : ℕ} (m k : ℕ)
          → m < n
          → slot ≡ (home + m) % n
          → is_occupied (at es slot) ≡ false
          → ((j : ℕ) → j < k → (matches key (seen j) ≡ false) × Filled (seen j))
          → m ≤ k
          → (k ≡ n) ⊎ (¬ Filled (seen k))
          → Outcome (slot, false)
      full : {slot : ℕ} → ((m : ℕ) → m < n → is_occupied (seen m) ≡ true) → Outcome (slot, false)

    -- before round `j`
    abbrev Past : ℕ → Type 0
    Past j = (m : ℕ) → m < j → (matches key (seen m) ≡ false) × Filled (seen m)

    -- what `deleted_slot` is before round `j`
    abbrev IsGap : ℕ → ℕ → Type 0
    IsGap j gap =
        ((gap ≡ n) × ((m : ℕ) → m < j → is_occupied (seen m) ≡ true))
        ⊎ ((m : ℕ) × (m < j) × (gap ≡ (home + m) % n) × (is_occupied (at es gap) ≡ false))

    Past-suc : (j : ℕ) → Past j → matches key (seen j) ≡ false → Filled (seen j) → Past (suc j)
    Past-suc j past f g m low = elim (ℕ_discrete m j) [
      | yes same ↦ rw same (f, g)
      | no other ↦ past m (omega arith)
    ]

    IsGap-occupied : (j gap : ℕ) → IsGap j gap → is_occupied (seen j) ≡ true → IsGap (suc j) gap
    IsGap-occupied j gap (inl (e, all)) o = inl (
      e,
      λ m low. elim (ℕ_discrete m j) [ yes same ↦ rw same o | no other ↦ all m (omega arith) ],
    )
    IsGap-occupied j gap (inr (m, low, e, free)) o = inr (m, omega arith, e, free)

    module _ (low : home < n) (fits : length es ≡ n) where
      IsGap-deleted :
          (j gap : ℕ)
          → IsGap j gap
          → is_occupied (seen j) ≡ false
          → IsGap (suc j) (if gap == n then (home + j) % n else gap)
      IsGap-deleted j gap (inl (e, all)) o =
          let same : (gap == n) ≡ true = (==_iff gap n).1 e in
          rw same (inr (j, omega arith, refl, o))
      IsGap-deleted j gap (inr (m, small, e, free)) o =
          let inside = wrap-lt home n low m in
          let other : (gap == n) ≡ false = ground arith in rw other (inr (m, omega arith, e, free))

      -- the result after an empty slot in round `j`
      Outcome-empty :
          (j gap : ℕ)
          → j < n
          → Past j
          → IsGap j gap
          → (seen j).flags ≡ empty
          → Outcome (if gap == n then (home + j) % n else gap, false)
      unfolding is_occupied Filled
      Outcome-empty j gap few past (inl (e, all)) f =
          let same : (gap == n) ≡ true = (==_iff gap n).1 e in
          rw same (miss j j few refl (rw (f, is_occupied)) past (omega arith) (inr (λ g. g f)))
      Outcome-empty j gap few past (inr (m, small, e, free)) f =
          let inside = wrap-lt home n low m in
          let other : (gap == n) ≡ false = ground arith in
          rw other (miss m j (omega arith) e free past (omega arith) (inr (λ g. g f)))

      -- the result after all rounds
      Outcome-around :
          (gap : ℕ) → Past n → IsGap n gap → Outcome (if gap == n then home else gap, false)
      Outcome-around gap past (inl (e, all)) = full all
      Outcome-around gap past (inr (m, small, e, free)) =
          let inside = wrap-lt home n low m in
          let other : (gap == n) ≡ false = ground arith in
          rw other (miss m n small e free past (omega arith) (inl refl))

      abbrev pub Found : Option (ℕ × Bool) → Type 0
      Found o = (r : ℕ × Bool) × (o ≡ some r) × Outcome r

      -- the end of a round that goes on, at the next index
      abbrev turn : ℕ → ℕ → ℕ → Option (ℕ × Bool)
      turn fuel gap next = elim (next == home) [
        | true ↦ some (if gap == n then home else gap, false)
        | false ↦ probe h fuel es n key home next gap
      ]

      abbrev round : ℕ → ℕ → Visit → Option (ℕ × Bool)
      round fuel next v = elim v [
        | stop slot found ↦ some (slot, found)
        | go_on gap' ↦ turn fuel gap' next
      ]

      probe-suc :
          (fuel index gap : ℕ) (e : Entry) (v : Visit)
          → get_elem? es index ≡ some e
          → visit h key n index gap e ≡ v
          → probe h (suc fuel) es n key home index gap ≡ round fuel ((index + 1) % n) v
      unfolding probe
      probe-suc fuel index gap e v got is = rw (got, is, probe)

      turn-Found :
          (fuel j gap : ℕ)
          → suc fuel + j ≡ n
          → Past (suc j)
          → IsGap (suc j) gap
          → (suc j < n → Found (probe h fuel es n key home ((home + suc j) % n) gap))
          → Found (turn fuel gap (((home + j) % n + 1) % n))
      turn-Found fuel j gap f past g rest =
          subst (λ i. Found (turn fuel gap i)) (sym (wrap-next home n low j (omega arith)))
            (elim (dec_lt (suc j) n) [
              | yes more ↦
                  let ne = wrap-ne-home home n low (suc j) (omega arith) more in
                  let test : ((home + suc j) % n == home) ≡ false = ground (arith, ne) in
                  rw (test, turn) (rest more)
              | no last ↦
                  let done : suc j ≡ n = omega arith in
                  let back : (home + suc j) % n ≡ home =
                    ap (λ x. (home + x) % n) done ∙ wrap-full home n low in
                  let test : ((home + suc j) % n == home) ≡ true = (==_iff _ _).1 back in
                  let end =
                    Outcome-around gap (subst Past done past) (subst (λ x. IsGap x gap) done g) in
                  rw (test, turn) ((if gap == n then home else gap, false), refl, end)
            ])

      -- The loop ends within its fuel, and its result is an `Outcome`.
      pub probe-Outcome :
          (fuel j gap : ℕ)
          → fuel + j ≡ n
          → j < n
          → Past j
          → IsGap j gap
          → Found (probe h fuel es n key home ((home + j) % n) gap)
      probe-Outcome zero j gap f more past g = absurd (omega arith)
      probe-Outcome (suc fuel) j gap f more past g =
          let index = (home + j) % n in
          let inside : index < n = wrap-lt home n low j in
          let got = get_elem?-at es index (omega (arith, fits)) in
          elim (Entry-cases (seen j)) [
            | inl e ↦
                rw
                  (probe-suc fuel index gap (seen j) _ got (visit-empty key n index gap (seen j) e))
                  (
                    (if gap == n then index else gap, false),
                    refl,
                    Outcome-empty j gap more past g e,
                  )
            | inr (inl d) ↦
                let (free, filled) = deleted_mark (seen j) d in
                let past' = Past-suc j past (matches-free key (seen j) free) filled in
                let gap' = if gap == n then index else gap in
                let g' = IsGap-deleted j gap g free in
                rw
                  (probe-suc fuel index gap (seen j) _ got
                    (visit-deleted key n index gap (seen j) d))
                  (turn-Found fuel j gap' f past' g'
                    (λ next. probe-Outcome fuel (suc j) gap' (omega arith) next past' g'))
            | inr (inr o) ↦
                let full = occupied_mark (seen j) o in
                let visited = visit-occupied key n index gap (seen j) o in
                let step = probe-suc fuel index gap (seen j) _ got visited in
                elim (Bool-cases (matches key (seen j))) [
                  | inl same ↦ rw (step, same, round) ((index, true), refl, hit inside same)
                  | inr other ↦
                      let past' = Past-suc j past other (is_occupied-Filled (seen j) full) in
                      let g' = IsGap-occupied j gap g full in
                      rw (step, other, round)
                        (turn-Found fuel j gap f past' g'
                          (λ next. probe-Outcome fuel (suc j) gap (omega arith) next past' g'))
                ]
          ]
