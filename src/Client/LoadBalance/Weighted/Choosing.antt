-- ===== src/Client/LoadBalance/Weighted/Choosing.antt =====
-- One call: every current weight goes up by its weight, and the greatest down by the total.
use kama_rpc_go.Base.{
  ℕ, zero, suc, ◌+◌, ◌<◌, ◌≡◌, refl, sym, ap, ◌∙◌, arith, ◌⊎◌, if_true, if_false, ◌==◌,
  if◌then◌else◌, List, [], ◌∷◌, length, set, none, some, Bool-cases, inl, inr,
}
use kama_rpc_go.Base.Int.{ℤ, pos, ◌+ℤ◌, ◌≤ℤ◌, ltb_ℤ, int_laws, parts_of_eq}
use kama_rpc_go.Client.LoadBalance.Weighted.{Best, better, weigh, sum}

-- The current weight and the weight at a place.
unfoldable pub at : List ℤ → ℕ → ℤ
at [] i = pos 0
at (c ∷ cs) zero = c
at (c ∷ cs) (suc i) = at cs i

unfoldable pub weight_at : List ℕ → ℕ → ℕ
weight_at [] i = 0
weight_at (w ∷ ws) zero = w
weight_at (w ∷ ws) (suc i) = weight_at ws i

unfoldable pub sum_ℤ : List ℤ → ℤ
sum_ℤ [] = pos 0
sum_ℤ (c ∷ cs) = c +ℤ sum_ℤ cs

pub at-weigh :
    (i : ℕ) (best : Best) (cs : List ℤ) (ws : List ℕ) (j : ℕ)
    → length cs ≡ length ws
    → at (weigh i best cs ws).0 j ≡ at cs j +ℤ pos (weight_at ws j)
unfolding at weigh weight_at
at-weigh i best [] [] j e = omega int_laws
at-weigh i best [] (w ∷ ws) j e = absurd (omega arith)
at-weigh i best (c ∷ cs) [] j e = absurd (omega arith)
at-weigh i best (c ∷ cs) (w ∷ ws) zero e = refl
at-weigh i best (c ∷ cs) (w ∷ ws) (suc j) e =
    at-weigh (i + 1) (better i (c +ℤ pos w) best) cs ws j (omega arith)

pub length-weigh :
    (i : ℕ) (best : Best) (cs : List ℤ) (ws : List ℕ)
    → length cs ≡ length ws
    → length (weigh i best cs ws).0 ≡ length cs
unfolding weigh
length-weigh i best [] [] e = refl
length-weigh i best [] (w ∷ ws) e = absurd (omega arith)
length-weigh i best (c ∷ cs) [] e = absurd (omega arith)
length-weigh i best (c ∷ cs) (w ∷ ws) e =
    ap suc (length-weigh (i + 1) (better i (c +ℤ pos w) best) cs ws (omega arith))

pub sum-weigh :
    (i : ℕ) (best : Best) (cs : List ℤ) (ws : List ℕ)
    → length cs ≡ length ws
    → sum_ℤ (weigh i best cs ws).0 ≡ sum_ℤ cs +ℤ pos (sum ws)
unfolding weigh sum_ℤ sum
sum-weigh i best [] [] e = omega int_laws
sum-weigh i best [] (w ∷ ws) e = absurd (omega arith)
sum-weigh i best (c ∷ cs) [] e = absurd (omega arith)
sum-weigh i best (c ∷ cs) (w ∷ ws) e =
    omega
      (int_laws, parts_of_eq (sum-weigh (i + 1) (better i (c +ℤ pos w) best) cs ws (omega arith)))

pub at-set :
    (cs : List ℤ) (m j : ℕ) (v : ℤ)
    → m < length cs
    → at (set cs m v) j ≡ (if m == j then v else at cs j)
unfolding at
at-set [] m j v h = absurd (omega arith)
at-set (c ∷ cs) zero zero v h = refl
at-set (c ∷ cs) zero (suc j) v h = ground arith
at-set (c ∷ cs) (suc m) zero v h = ground arith
at-set (c ∷ cs) (suc m) (suc j) v h = at-set cs m j v (omega arith) ∙ ground arith

pub sum-set :
    (cs : List ℤ) (m : ℕ) (v : ℤ) → m < length cs → sum_ℤ (set cs m v) +ℤ at cs m ≡ sum_ℤ cs +ℤ v
unfolding at sum_ℤ
sum-set [] m v h = absurd (omega arith)
sum-set (c ∷ cs) zero v h = omega int_laws
sum-set (c ∷ cs) (suc m) v h = omega (int_laws, parts_of_eq (sum-set cs m v (omega arith)))

-- What the loop has found in the end: a weight that is the greatest of the list and no smaller than
-- the best one before, and that stands at the place, or is that best one.
record Finds (i m₀ : ℕ) (v₀ : ℤ) (r : List ℤ × Best) : Type 0 where
  place : ℕ
  value : ℤ
  best_is : r.1 ≡ some (place, value)
  above : v₀ ≤ℤ value
  greatest : (j : ℕ) → j < length r.0 → at r.0 j ≤ℤ value
  stands :
      ((place ≡ m₀) × (value ≡ v₀))
      ⊎ ((k : ℕ) × (place ≡ i + k) × (k < length r.0) × (at r.0 k ≡ value))

Finds-cons :
    (i m₁ m₀ : ℕ) (v₁ v₀ c : ℤ) (r : List ℤ × Best)
    → v₀ ≤ℤ v₁
    → c ≤ℤ v₁
    → ((m₁ ≡ m₀) × (v₁ ≡ v₀)) ⊎ ((m₁ ≡ i) × (c ≡ v₁))
    → Finds (i + 1) m₁ v₁ r
    → Finds i m₀ v₀ (c ∷ r.0, r.1)
unfolding at
Finds-cons i m₁ m₀ v₁ v₀ c r up high from f = record {
  place = f.place;
  value = f.value;
  best_is = f.best_is;
  above = omega (arith, f.above);
  greatest = bounded;
  stands = elim f.stands [
    | inr (k, p, below, e) ↦ inr (suc k, omega arith, omega arith, e)
    | inl (p, e) ↦ elim from [
      | inl (q, e') ↦ inl (p ∙ q, e ∙ e')
      | inr (q, e') ↦ inr (0, omega (arith, p, q), omega arith, e' ∙ sym e)
    ]
  ];
}
  where
    bounded : (j : ℕ) → j < suc (length r.0) → at (c ∷ r.0) j ≤ℤ f.value
    bounded zero h = omega (arith, f.above)
    bounded (suc j) h = f.greatest j (omega arith)

weigh-Finds :
    (i m₀ : ℕ) (v₀ : ℤ) (cs : List ℤ) (ws : List ℕ)
    → length cs ≡ length ws
    → Finds i m₀ v₀ (weigh i (some (m₀, v₀)) cs ws)
unfolding weigh
weigh-Finds i m₀ v₀ [] [] e = record {
  place = m₀;
  value = v₀;
  best_is = refl;
  above = omega arith;
  greatest = λ j h. absurd (omega arith);
  stands = inl (refl, refl);
}
weigh-Finds i m₀ v₀ [] (w ∷ ws) e = absurd (omega arith)
weigh-Finds i m₀ v₀ (c ∷ cs) [] e = absurd (omega arith)
weigh-Finds i m₀ v₀ (c ∷ cs) (w ∷ ws) e =
    let c' : ℤ = c +ℤ pos w in
    let taken = weigh-Finds (i + 1) i c' cs ws (omega arith) in
    let kept = weigh-Finds (i + 1) m₀ v₀ cs ws (omega arith) in
    elim (Bool-cases (ltb_ℤ v₀ c')) [
      | inl higher ↦ rw (if_true {A = Best} (some (i, c')) (some (m₀, v₀)) higher) (
          Finds-cons i i m₀ c' v₀ c' _ (ground (arith, higher)) (omega arith) (inr (refl, refl))
            taken)
      | inr lower ↦ rw (if_false {A = Best} (some (i, c')) (some (m₀, v₀)) lower) (
          Finds-cons i m₀ m₀ v₀ v₀ c' _ (omega arith) (ground (arith, lower)) (inl (refl, refl))
            kept)
    ]

-- The place that Select chooses: the greatest weight of all stands there.
pub record Chooses (r : List ℤ × Best) : Type 0 where
  pub place : ℕ
  pub value : ℤ
  pub best_is : r.1 ≡ some (place, value)
  pub inside : place < length r.0
  pub stands : at r.0 place ≡ value
  pub greatest : (j : ℕ) → j < length r.0 → at r.0 j ≤ℤ value

Finds-Chooses :
    (r : List ℤ × Best) (v : ℤ) → Finds 0 0 v r → 0 < length r.0 → at r.0 0 ≡ v → Chooses r
Finds-Chooses r v f h e = elim f.stands [
  | inl (p, q) ↦ record {
    place = f.place;
    value = f.value;
    best_is = f.best_is;
    inside = omega arith;
    stands = ap (at r.0) p ∙ e ∙ sym q;
    greatest = f.greatest;
  }
  | inr (k, p, below, q) ↦
      let here : f.place ≡ k = omega arith in
      record {
        place = f.place;
        value = f.value;
        best_is = f.best_is;
        inside = omega arith;
        stands = ap (at r.0) here ∙ q;
        greatest = f.greatest;
      }
]

pub weigh-Chooses :
    (cs : List ℤ) (ws : List ℕ)
    → length cs ≡ length ws
    → 0 < length cs
    → Chooses (weigh 0 none cs ws)
unfolding weigh at
weigh-Chooses [] ws e h = absurd (omega arith)
weigh-Chooses (c ∷ cs) [] e h = absurd (omega arith)
weigh-Chooses (c ∷ cs) (w ∷ ws) e h =
    let c' : ℤ = c +ℤ pos w in
    let first =
      Finds-cons 0 0 0 c' c' c' _ (omega arith) (omega arith) (inr (refl, refl))
        (weigh-Finds 1 0 c' cs ws (omega arith)) in
    Finds-Chooses _ c' first (omega arith) refl
