-- ===== src/Client/LoadBalance/Weighted/Balance.antt =====
-- The state of the smooth weighted round robin: what each instance is owed.
use kama_rpc_go.Base.{
  ℕ, suc, ◌+◌, ◌*◌, ◌<◌, ◌≤◌, ◌≡◌, refl, sym, ap, ◌∙◌, arith, ltb, ◌==◌, ==_iff, if◌then◌else◌,
  true, List, [], ◌∷◌, length, set, none, some, Bool-cases, inl, inr, if_true, if_false, length-set,
}
use kama_rpc_go.Base.Int.{ℤ, pos, pos_part, neg_part, ◌+ℤ◌, ◌-ℤ◌, ◌≤ℤ◌, int_laws, parts_of_eq}
use kama_rpc_go.Client.LoadBalance.{Instance}
use kama_rpc_go.Client.LoadBalance.Weighted.{WeightedRr, Best, sum, weigh, choose, select_index}
use kama_rpc_go.Client.LoadBalance.Weighted.Choosing.{
  at, weight_at, sum_ℤ, at-weigh, length-weigh, sum-weigh, at-set, sum-set, weigh-Chooses,
}

-- One more if the index is chosen.
abbrev pub hit : ℕ → ℕ → ℕ
hit m i = if m == i then 1 else 0

sum-not_above : (cs : List ℤ) → ((j : ℕ) → j < length cs → at cs j ≤ℤ pos 0) → sum_ℤ cs ≤ℤ pos 0
unfolding at sum_ℤ
sum-not_above [] h = omega arith
sum-not_above (c ∷ cs) h =
    let ih = sum-not_above cs (λ j below. h (suc j) (omega arith)) in
    omega (int_laws, ih, h 0 (omega arith))

balance_kept :
    (p n p' n' t c k w : ℕ)
    → p + t * c ≡ n + k * w
    → p' + n ≡ n' + p + w
    → p' + t * (c + 0) ≡ n' + suc k * w
balance_kept p n p' n' t c k w h e = omega arith

balance_paid :
    (p n p' n' t c k w : ℕ)
    → p + t * c ≡ n + k * w
    → p' + n + t ≡ n' + p + w
    → p' + t * (c + 1) ≡ n' + suc k * w
balance_paid p n p' n' t c k w h e = omega arith

less_low : (v : ℤ) (t : ℕ) → neg_part v < pos_part v → 0 < t → neg_part (v -ℤ pos t) < t
unfolding ◌-ℤ◌
less_low v t h k = ground arith

more_low : (a : ℤ) (w : ℕ) → neg_part (a +ℤ pos w) ≤ neg_part a
unfolding ◌+ℤ◌
more_low a w = ground arith

module _ (ws : List ℕ) (k : ℕ) (counted : ℕ → ℕ) (cs : List ℤ) (m : ℕ) (v : ℤ)
    (len : length cs ≡ length ws) (zero_sum : sum_ℤ cs ≡ pos 0)
    (balance : (i : ℕ)
      → pos_part (at cs i) + sum ws * counted i ≡ neg_part (at cs i) + k * weight_at ws i)
    (low : (i : ℕ) → neg_part (at cs i) < sum ws) (inside : m < length (weigh 0 none cs ws).0)
    (stands : at (weigh 0 none cs ws).0 m ≡ v)
    (greatest : (j : ℕ)
      → j < length (weigh 0 none cs ws).0
      → at (weigh 0 none cs ws).0 j ≤ℤ v) where
  abbrev raised : List ℤ
  raised = (weigh 0 none cs ws).0

  abbrev paid : List ℤ
  paid = set raised m (v -ℤ pos (sum ws))

  sum-raised : sum_ℤ raised ≡ pos (sum ws)
  sum-raised = omega (int_laws, parts_of_eq (sum-weigh 0 none cs ws len), parts_of_eq zero_sum)

  sum-paid : sum_ℤ paid ≡ pos 0
  sum-paid = omega (
    int_laws,
    parts_of_eq (sum-set raised m (v -ℤ pos (sum ws)) inside),
    parts_of_eq sum-raised,
    parts_of_eq stands,
  )

  -- The greatest is above zero, since the sum is.
  high : 0 < sum ws → neg_part v < pos_part v
  high h = elim (Bool-cases (ltb (neg_part v) (pos_part v))) [
    | inl up ↦ ground arith
    | inr down ↦
        let low_v : pos_part v ≤ neg_part v = ground arith in
        let not_above = sum-not_above raised (λ j below. omega (arith, greatest j below)) in
        absurd (omega (arith, parts_of_eq sum-raised, not_above))
  ]

  at-paid : (i : ℕ) → at paid i ≡ (if m == i then v -ℤ pos (sum ws) else at raised i)
  at-paid i = at-set raised m i (v -ℤ pos (sum ws)) inside

  at-raised : (i : ℕ) → at raised i ≡ at cs i +ℤ pos (weight_at ws i)
  at-raised i = at-weigh 0 none cs ws i len

  paid_balance :
      (i : ℕ)
      → pos_part (at paid i) + sum ws * (counted i + hit m i)
        ≡ neg_part (at paid i) + suc k * weight_at ws i
  paid_balance i = elim (Bool-cases (m == i)) [
    | inl here ↦
        let e : m ≡ i = (==_iff m i).0 here in
        let value : at paid i ≡ v -ℤ pos (sum ws) = at-paid i ∙ if_true _ _ here in
        let was : v ≡ at cs i +ℤ pos (weight_at ws i) =
          sym stands ∙ ap (at raised) e ∙ at-raised i in
        rw here (
          balance_paid _ _ _ _ (sum ws) (counted i) k (weight_at ws i) (balance i)
            (omega (int_laws, parts_of_eq value, parts_of_eq was)))
    | inr there ↦
        let value : at paid i ≡ at cs i +ℤ pos (weight_at ws i) =
          at-paid i ∙ if_false _ _ there ∙ at-raised i in
        rw there (
          balance_kept _ _ _ _ (sum ws) (counted i) k (weight_at ws i) (balance i)
            (omega (int_laws, parts_of_eq value)))
  ]

  paid_low : 0 < sum ws → (i : ℕ) → neg_part (at paid i) < sum ws
  paid_low h i = elim (Bool-cases (m == i)) [
    | inl here ↦
        let value : at paid i ≡ v -ℤ pos (sum ws) = at-paid i ∙ if_true _ _ here in
        rw value (less_low v (sum ws) (high h) h)
    | inr there ↦
        let value : at paid i ≡ at cs i +ℤ pos (weight_at ws i) =
          at-paid i ∙ if_false _ _ there ∙ at-raised i in
        rw value (omega (arith, more_low (at cs i) (weight_at ws i), low i))
  ]

-- After `k` calls, in which index i was chosen `counted i` times.
pub record Fair (ws : List ℕ) (k : ℕ) (counted : ℕ → ℕ) (r : WeightedRr) : Type 0 where
  pub weights_are : r.weights ≡ ws
  pub total_is : r.total_weight ≡ sum ws
  pub as_long : length r.current_weight ≡ length ws
  pub zero_sum : sum_ℤ r.current_weight ≡ pos 0
  pub balance :
      (i : ℕ)
      → pos_part (at r.current_weight i) + sum ws * counted i
        ≡ neg_part (at r.current_weight i) + k * weight_at ws i
  pub not_far_below : (i : ℕ) → neg_part (at r.current_weight i) < sum ws

select_index_lem :
    (ws : List ℕ) (total m : ℕ) (v : ℤ) (r : WeightedRr) (x : Instance) (list : List Instance)
    → r.weights ≡ ws
    → r.total_weight ≡ total
    → length (x ∷ list) ≡ length ws
    → (weigh 0 none r.current_weight ws).1 ≡ some (m, v)
    → select_index r (x ∷ list) ≡ (
      some m,
      record r { current_weight = set (weigh 0 none r.current_weight ws).0 m (v -ℤ pos total) },
    )
unfolding select_index choose
select_index_lem ws total m v r x list same_weights same_total len best =
    if_true (choose (x ∷ list) (weigh 0 none r.current_weight r.weights) r) (none, r) fits
    ∙ ap (λ us. choose (x ∷ list) (weigh 0 none r.current_weight us) r) same_weights
    ∙ ap (λ (b : Best). choose (x ∷ list) ((weigh 0 none r.current_weight ws).0, b) r) best
    ∙ ap
        (λ (t : ℕ). (
          some m,
          record r { current_weight = set (weigh 0 none r.current_weight ws).0 m (v -ℤ pos t) },
        ))
        same_total
  where
    fits : length (x ∷ list) == length r.weights ≡ true
    fits = (==_iff _ _).1 (len ∙ ap (λ (us : List ℕ). length us) (sym same_weights))

-- A call on a fair balancer chooses an index of the list and leaves it fair.
pub Fair-select :
    (ws : List ℕ) (k : ℕ) (counted : ℕ → ℕ) (r : WeightedRr) (list : List Instance)
    → 0 < sum ws
    → length list ≡ length ws
    → Fair ws k counted r
    → (m : ℕ) × ((select_index r list).0 ≡ some m)
      × (m < length list)
      × Fair ws (suc k) (λ i. counted i + hit m i) (select_index r list).1
unfolding sum
Fair-select [] k counted r list h e f = absurd (omega arith)
Fair-select (w ∷ ws) k counted r [] h e f = absurd (omega arith)
Fair-select (w ∷ ws) k counted r (x ∷ list) h e f =
    let cs : List ℤ = r.current_weight in
    let c = weigh-Chooses cs (w ∷ ws) f.as_long (omega (arith, f.as_long)) in
    let n = length-weigh 0 none cs (w ∷ ws) f.as_long in
    let chosen =
      select_index_lem (w ∷ ws) (sum (w ∷ ws)) c.place c.value r x list f.weights_are f.total_is e
        c.best_is in
    rw chosen (
      c.place,
      refl,
      omega (arith, c.inside, n, f.as_long),
      record {
        weights_are = f.weights_are;
        total_is = f.total_is;
        as_long = length-set (weigh 0 none cs (w ∷ ws)).0 c.place _ ∙ n ∙ f.as_long;
        zero_sum =
            sum-paid (w ∷ ws) k counted cs c.place c.value f.as_long f.zero_sum f.balance
              f.not_far_below c.inside c.stands c.greatest;
        balance =
            paid_balance (w ∷ ws) k counted cs c.place c.value f.as_long f.zero_sum f.balance
              f.not_far_below c.inside c.stands c.greatest;
        not_far_below =
            paid_low (w ∷ ws) k counted cs c.place c.value f.as_long f.zero_sum f.balance
              f.not_far_below c.inside c.stands c.greatest h;
      },
    )
