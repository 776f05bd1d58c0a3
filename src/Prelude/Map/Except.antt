-- ===== src/Prelude/Map/Except.antt =====
-- The sum over a map without some of its keys, under each update. It is what is left when those
-- keys are erased, whatever is written in between.
use skepticoin.Prelude.{
  ◌≡◌, ◌∙◌, refl, sym, ap, Bool, true, false, ◌||◌, List, [], ◌∷◌, none, some, arith, Bool-cases,
  inl, inr,
}
use skepticoin.Prelude.Tests.{if◌then◌else◌}
use skepticoin.Prelude.Eq.{Eq, ≟_iff, ◌≟◌}
use skepticoin.Prelude.Int.{int_laws, pos, ℤ, ◌+ℤ◌, ◌≤ℤ◌}
use skepticoin.Prelude.Map.{IsUnique, Map, erase, insert, lookup}
use skepticoin.Prelude.Map.Sum.{AllNonneg, sum_values}
use skepticoin.Prelude.Eq.{≟_refl}
use skepticoin.Prelude.Int.{+ℤ_assoc}

module _ {ℓ} {K : Type ℓ} ⦃e : Eq K⦄ where
  abbrev pub mem_key : K → List K → Bool
  mem_key k [] = false
  mem_key k (x ∷ xs) = (x ≟ k) || mem_key k xs

under_sum : (t a b w : ℤ) → a ≤ℤ b +ℤ w → t +ℤ a ≤ℤ t +ℤ b +ℤ w
under_sum t a b w h = omega int_laws

past_head : (t a b w : ℤ) → a +ℤ w ≡ b → t +ℤ a +ℤ w ≡ t +ℤ b
past_head t a b w h = +ℤ_assoc t a w ∙ ap (λ x. t +ℤ x) h

replaced :
    (b : Bool) (v w s : ℤ)
    → pos 0 ≤ℤ v
    → pos 0 ≤ℤ w
    → (if b then pos 0 else w) +ℤ s ≤ℤ (if b then pos 0 else v) +ℤ s +ℤ w
replaced true v w s h p = omega int_laws
replaced false v w s h p = omega int_laws

added : (b : Bool) (w : ℤ) → pos 0 ≤ℤ w → (if b then pos 0 else w) +ℤ pos 0 ≤ℤ pos 0 +ℤ w
added true w p = omega int_laws
added false w p = omega int_laws

module _ {ℓ} {K V : Type ℓ} ⦃e : Eq K⦄ (f : V → ℤ) where
  pub sum_except : List K → Map K V → ℤ
  sum_except rs [] = pos 0
  sum_except rs ((k, v) ∷ m) = (if mem_key k rs then pos 0 else f v) +ℤ sum_except rs m

  pub sum_except-nil : (m : Map K V) → sum_except [] m ≡ sum_values f m
  unfolding sum_except
  sum_except-nil [] = refl
  sum_except-nil ((k, v) ∷ m) = rw (sum_except-nil m)

  sum_except-missing :
      (r : K) (rs : List K) (m : Map K V)
      → lookup r m ≡ none
      → sum_except (r ∷ rs) m ≡ sum_except rs m
  unfolding sum_except lookup
  sum_except-missing r rs [] h = refl
  sum_except-missing r rs ((k, v) ∷ m) h =
      ground (arith, ≟_iff r k, ≟_iff k r, sum_except-missing r rs m)

  -- To leave a key out is to erase it.
  pub sum_except-erase :
      (r : K) (rs : List K) (m : Map K V)
      → IsUnique m
      → sum_except (r ∷ rs) m ≡ sum_except rs (erase r m)
  unfolding sum_except erase
  sum_except-erase r rs [] u = refl
  sum_except-erase r rs ((k, v) ∷ m) u = elim (Bool-cases (k ≟ r)) [
    | inl same ↦
        (let h : k ≡ r = (≟_iff k r).0 same in
          rw (same, (≟_iff r k).1 (sym h))
            (rw (sum_except-missing r rs m (rw h at u.0)) (omega int_laws)))
    | inr other ↦ rw other (ground (arith, ≟_iff r k, ≟_iff k r, sum_except-erase r rs m u.1))
  ]

  pub sum_except-insert :
      (rs : List K) (r : K) (w : V) (m : Map K V)
      → AllNonneg f m
      → pos 0 ≤ℤ f w
      → sum_except rs (insert r w m) ≤ℤ sum_except rs m +ℤ f w
  unfolding sum_except insert
  sum_except-insert rs r w [] h p = added (mem_key r rs) (f w) p
  sum_except-insert rs r w ((k, v) ∷ m) h p = elim (Bool-cases (k ≟ r)) [
    | inl same ↦
        rw (same, (≟_iff k r).0 same) (replaced (mem_key r rs) (f v) (f w) (sum_except rs m) h.0 p)
    | inr other ↦
        rw other (under_sum _ _ (sum_except rs m) (f w) (sum_except-insert rs r w m h.1 p))
  ]

  -- One more key left out takes its own value away.
  pub sum_except-some :
      (r : K) (rs : List K) (m : Map K V) {v : V}
      → IsUnique m
      → mem_key r rs ≡ false
      → lookup r m ≡ some v
      → sum_except (r ∷ rs) m +ℤ f v ≡ sum_except rs m
  unfolding sum_except lookup
  sum_except-some r rs [] u d h = cc
  sum_except-some r rs ((k, w) ∷ m) {v} u d h = elim (Bool-cases (k ≟ r)) [
    | inl same ↦ found same ((≟_iff k r).0 same)
    | inr other ↦
        (let other' : (r ≟ k) ≡ false = ground (arith, ≟_iff k r, ≟_iff r k) in
          rw other'
            (past_head _ _ (sum_except rs m) (f v) (sum_except-some r rs m u.1 d (rw other at h))))
  ]
    where
      found :
          (k ≟ r) ≡ true
          → k ≡ r
          → sum_except (r ∷ rs) ((k, w) ∷ m) +ℤ f v ≡ sum_except rs ((k, w) ∷ m)
      found same q =
          let wv : w ≡ v = ground arith in
          rw (q, d, ≟_refl r, sum_except-missing r rs m (rw q at u.0), wv) (omega int_laws)

  -- The order of the keys that are left out does not matter.
  pub sum_except-same :
      (rs rs' : List K) (m : Map K V)
      → ((k : K) → mem_key k rs ≡ mem_key k rs')
      → sum_except rs m ≡ sum_except rs' m
  unfolding sum_except
  sum_except-same rs rs' [] h = refl
  sum_except-same rs rs' ((k, v) ∷ m) h = rw (h k, sum_except-same rs rs' m h)
