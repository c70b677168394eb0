-- ===== src/Client/LoadBalance/Weighted/Shares.antt =====
-- The smooth weighted round robin is fair: in a round of as many calls as the total weight, each
-- instance has its share.
use kama_rpc_go.Base.{
  ℕ, zero, suc, ◌+◌, ◌*◌, ◌<◌, ◌≤◌, ◌≡◌, refl, sym, ap, ap₂, ◌∙◌, arith, ltb, List, [], ◌∷◌, map,
  length, replicate, Option, none, some, Bool-cases, inl, inr, length-replicate, All,
}
use kama_rpc_go.Base.Int.{ℤ, pos, pos_part, neg_part, ◌≤ℤ◌, int_laws, parts_of_eq}
use native.Mathlib.Nat.{mul-le-mul_left, le_of_mul-le-mul_left}
use kama_rpc_go.Client.LoadBalance.{Instance}
use kama_rpc_go.Client.LoadBalance.Weighted.{WeightedRr, sum, new_weighted_rr, select_index}
use kama_rpc_go.Client.LoadBalance.Weighted.Balance.{hit, Fair, Fair-select}
use kama_rpc_go.Client.LoadBalance.Weighted.Choosing.{at, weight_at, sum_ℤ}

-- The indices that the next k calls choose, and the balancer after them.
abbrev pub add_pick : Option ℕ → List ℕ → List ℕ
add_pick none ms = ms
add_pick (some m) ms = m ∷ ms

unfoldable pub picks : ℕ → WeightedRr → List Instance → List ℕ × WeightedRr
picks zero r list = ([], r)
picks (suc k) r list =
    let s = select_index r list in let rest = picks k s.1 list in (add_pick s.0 rest.0, rest.1)

-- How often an index was chosen.
unfoldable pub times : ℕ → List ℕ → ℕ
times i [] = 0
times i (m ∷ ms) = hit m i + times i ms

Fair-same :
    (ws : List ℕ) (k l : ℕ) (c d : ℕ → ℕ) (r : WeightedRr)
    → k ≡ l
    → ((i : ℕ) → c i ≡ d i)
    → Fair ws k c r
    → Fair ws l d r
Fair-same ws k l c d r e h f = record {
  weights_are = f.weights_are;
  total_is = f.total_is;
  as_long = f.as_long;
  zero_sum = f.zero_sum;
  balance = λ i. rw (← e, ← h i) (f.balance i);
  not_far_below = f.not_far_below;
}

abbrev Played : List ℕ → ℕ → (ℕ → ℕ) → List Instance → List ℕ × WeightedRr → Type 0
Played ws k counted list r =
    Fair ws k (λ i. counted i + times i r.0) r.1 × All (λ m. m < length list) r.0

picks-Fair :
    (ws : List ℕ) (n k : ℕ) (counted : ℕ → ℕ) (r : WeightedRr) (list : List Instance)
    → 0 < sum ws
    → length list ≡ length ws
    → Fair ws k counted r
    → Played ws (k + n) counted list (picks n r list)
unfolding picks times
picks-Fair ws zero k counted r list h e f =
    (Fair-same ws k (k + 0) counted _ r (omega arith) (λ i. omega arith) f, tt)
picks-Fair ws (suc n) k counted r list h e f =
    let (m, chosen, inside, f') = Fair-select ws k counted r list h e f in
    let r' : WeightedRr = (select_index r list).1 in
    let (f'', below) = picks-Fair ws n (suc k) (λ i. counted i + hit m i) r' list h e f' in
    rw chosen (
      Fair-same ws (suc k + n) (k + suc n) _ _ (picks n r' list).1 (omega arith) (λ i. omega arith)
          f'',
      (inside, below),
    )

length-clamped : (ws : List ℤ) → length (map pos_part ws) ≡ length ws
length-clamped [] = refl
length-clamped (w ∷ ws) = ap suc (length-clamped ws)

sum-zeros : (n : ℕ) → sum_ℤ (replicate n (pos 0)) ≡ pos 0
unfolding sum_ℤ
sum-zeros zero = refl
sum-zeros (suc n) = omega (int_laws, parts_of_eq (sum-zeros n))

at-zeros : (n i : ℕ) → at (replicate n (pos 0)) i ≡ pos 0
unfolding at
at-zeros zero i = refl
at-zeros (suc n) zero = refl
at-zeros (suc n) (suc i) = at-zeros n i

start-Fair :
    (weights : List ℤ)
    → 0 < sum (map pos_part weights)
    → Fair (map pos_part weights) 0 (λ i. 0) (new_weighted_rr weights)
unfolding new_weighted_rr
start-Fair weights h = record {
  weights_are = refl;
  total_is = refl;
  as_long = length-replicate (length weights) (pos 0) ∙ sym (length-clamped weights);
  zero_sum = sum-zeros (length weights);
  balance = λ i. rw (at-zeros (length weights) i) (omega arith);
  not_far_below = λ i. rw (at-zeros (length weights) i) h;
}

-- Whoever is owed nothing below zero has had no more than its share.
share_bound :
    (t c w : ℕ) (a : ℤ)
    → pos_part a + t * c ≡ neg_part a + t * w
    → neg_part a < t
    → (c ≤ w) × (neg_part a ≡ 0)
share_bound t c w a e low = elim (Bool-cases (ltb w c)) [
  | inl more ↦ let many : w + 1 ≤ c = ground arith in absurd (omega (arith, mul-le-mul_left t many))
  | inr enough ↦ let few : c ≤ w = ground arith in (few, ground (arith, mul-le-mul_left t few))
]

share_exact : (t c w : ℕ) → 0 < t → t * c ≡ t * w → c ≡ w
share_exact t c w h e = omega (
  arith,
  le_of_mul-le-mul_left {m = c} {n = w} {k = t} (omega arith) h,
  le_of_mul-le-mul_left {m = w} {n = c} {k = t} (omega arith) h,
)

sum-not_below : (cs : List ℤ) → ((i : ℕ) → neg_part (at cs i) ≡ 0) → pos 0 ≤ℤ sum_ℤ cs
unfolding at sum_ℤ
sum-not_below [] h = omega arith
sum-not_below (c ∷ cs) h = omega (int_laws, sum-not_below cs (λ i. h (suc i)), h 0)

zero_sum-zeros :
    (cs : List ℤ) (n : ℕ)
    → length cs ≡ n
    → ((i : ℕ) → neg_part (at cs i) ≡ 0)
    → sum_ℤ cs ≡ pos 0
    → cs ≡ replicate n (pos 0)
unfolding at sum_ℤ
zero_sum-zeros [] zero e h s = refl
zero_sum-zeros [] (suc n) e h s = absurd (omega arith)
zero_sum-zeros (c ∷ cs) zero e h s = absurd (omega arith)
zero_sum-zeros (c ∷ cs) (suc n) e h s =
    let rest = sum-not_below cs (λ i. h (suc i)) in
    let none_here : c ≡ pos 0 = omega (int_laws, rest, h 0, parts_of_eq s) in
    let none_there : sum_ℤ cs ≡ pos 0 = omega (int_laws, rest, h 0, parts_of_eq s) in
    ap₂ (λ (a : ℤ) (b : List ℤ). a ∷ b) none_here
      (zero_sum-zeros cs n (omega arith) (λ i. h (suc i)) none_there)

-- A round of as many calls as the total weight.
round-Fair :
    (ws : List ℕ) (r : WeightedRr)
    → 0 < sum ws
    → (counted : ℕ → ℕ) → Fair ws (sum ws) counted r
    → ((i : ℕ) → counted i ≡ weight_at ws i) × (r.current_weight ≡ replicate (length ws) (pos 0))
round-Fair ws r h counted f =
    let bound = λ (i : ℕ).
      share_bound (sum ws) (counted i) (weight_at ws i) (at r.current_weight i) (f.balance i)
        (f.not_far_below i) in
    let all_zero : r.current_weight ≡ replicate (length ws) (pos 0) =
      zero_sum-zeros r.current_weight (length ws) f.as_long (λ i. (bound i).1) f.zero_sum in
    let at_zero = λ (i : ℕ). ap (λ (cs : List ℤ). at cs i) all_zero ∙ at-zeros (length ws) i in
    (
      λ i.
          share_exact (sum ws) (counted i) (weight_at ws i) h
            (omega (arith, f.balance i, parts_of_eq (at_zero i), (bound i).1)),
      all_zero,
    )

WeightedRr-eq :
    (r s : WeightedRr)
    → r.weights ≡ s.weights
    → r.current_weight ≡ s.current_weight
    → r.total_weight ≡ s.total_weight
    → r ≡ s
WeightedRr-eq r s e f g =
    ap (λ (ws : List ℕ). record r { weights = ws }) e
    ∙ ap (λ (cs : List ℤ). record r { weights = s.weights; current_weight = cs }) f
    ∙ ap (λ (t : ℕ). record s { total_weight = t }) g

-- From a new balancer on, as many calls as the total weight choose every instance exactly as often
-- as its weight says, a negative weight being none; each call chooses an index of the list; and then
-- the balancer is as it was at the start, so that the rounds repeat. The list has as many
-- instances as there are weights, and not all weights are 0.
pub picks_share :
    (weights : List ℤ) (list : List Instance)
    → length list ≡ length weights
    → 0 < sum (map pos_part weights)
    → (let r = new_weighted_rr weights in
        let round = picks r.total_weight r list in
        ((i : ℕ) → times i round.0 ≡ weight_at (map pos_part weights) i)
        × All (λ m. m < length list) round.0
        × (round.1 ≡ r))
picks_share weights list e h =
    let ws : List ℕ = map pos_part weights in
    let played : List ℕ × WeightedRr = picks (sum ws) (new_weighted_rr weights) list in
    let (f, inside) =
      picks-Fair ws (sum ws) 0 (λ i. 0) (new_weighted_rr weights) list h
        (e ∙ sym (length-clamped weights)) (start-Fair weights h) in
    let (shares, zeros) =
      round-Fair ws _ h (λ i. times i played.0)
        (Fair-same ws (0 + sum ws) (sum ws) _ (λ i. times i played.0) _ (omega arith)
          (λ i. omega arith) f) in
    unfold new_weighted_rr in
    (
      shares,
      inside,
      WeightedRr-eq _ _ f.weights_are
          (zeros ∙ ap (λ n. replicate n (pos 0)) (length-clamped weights)) f.total_is,
    )
