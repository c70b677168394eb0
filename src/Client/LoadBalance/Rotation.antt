-- ===== src/Client/LoadBalance/Rotation.antt =====
-- The round robin goes round: the calls take the instances one after the other.
use kama_rpc_go.Base.{
  ℕ, zero, suc, ◌+◌, ◌-◌, ◌%◌, ◌/◌, ◌*◌, ◌^◌, ◌<◌, ◌≤◌, ◌≡◌, refl, ◌∙◌, arith, List, [], ◌∷◌, ◌++◌,
  length, take, drop, ◌≢◌, take_all, length-drop,
}
use kama_rpc_go.Client.LoadBalance.{
  Instance, instance_at, RoundRobin, next_idx, select, select_random,
}
use mathlib.Core.List.{Memᴰ}
use native.Mathlib.Nat.{div-add-mod', mul-mod_left}

get_elem?-Mem : (xs : List Instance) (i : ℕ) → i < length xs → Memᴰ (instance_at xs i) xs
unfolding instance_at
get_elem?-Mem [] i h = absurd (omega arith)
get_elem?-Mem (x ∷ xs) zero h = Memᴰ.head refl
get_elem?-Mem (x ∷ xs) (suc i) h = Memᴰ.tail (get_elem?-Mem xs i (omega arith))

-- Whatever the counter, also when it has wrapped, the instance is one of the list.
pub select-Mem : (r : RoundRobin) (xs : List Instance) → xs ≢ [] → Memᴰ (select r xs).0 xs
unfolding select
select-Mem r [] h = absurd (h refl)
select-Mem r (x ∷ xs) h = get_elem?-Mem (x ∷ xs) _ (omega arith)

pub select_random-Mem :
    (draw : ℕ → ℕ) (xs : List Instance)
    → ((n : ℕ) → 0 < n → draw n < n)
    → xs ≢ []
    → Memᴰ (select_random draw xs) xs
unfolding select_random
select_random-Mem draw [] d h = absurd (h refl)
select_random-Mem draw (x ∷ xs) d h = get_elem?-Mem (x ∷ xs) _ (d _ (omega arith))

-- The answers of the next k calls over one list.
unfoldable pub answers : ℕ → RoundRobin → List Instance → List Instance
answers zero r xs = []
answers (suc k) r xs = (select r xs).0 ∷ answers k (select r xs).1 xs

drop_at :
    (xs : List Instance) (i : ℕ) → i < length xs → drop i xs ≡ instance_at xs i ∷ drop (suc i) xs
unfolding instance_at
drop_at [] i h = absurd (omega arith)
drop_at (x ∷ xs) zero h = refl
drop_at (x ∷ xs) (suc i) h = drop_at xs i (omega arith)

select_lem :
    (r : RoundRobin) (xs : List Instance)
    → xs ≢ []
    → r.idx + 1 < 2 ^ 64
    → select r xs ≡ (instance_at xs ((r.idx + 1) % length xs), record { idx = r.idx + 1 })
unfolding select next_idx
select_lem r [] h w = absurd (h refl)
select_lem r (x ∷ xs) h w = let e : (r.idx + 1) % 2 ^ 64 ≡ r.idx + 1 = omega arith in rw e

next_position : (a n i : ℕ) → a % n ≡ i → i + 1 < n → (a + 1) % n ≡ i + 1
next_position a n i h k = grind arith

-- A run of calls that begins at position `i` and does not pass the end of the list.
answers_run :
    (k i : ℕ) (r : RoundRobin) (xs : List Instance)
    → i + k ≤ length xs
    → xs ≢ []
    → (0 < k → (r.idx + 1) % length xs ≡ i)
    → r.idx + k < 2 ^ 64
    → answers k r xs ≡ take k (drop i xs)
unfolding answers
answers_run zero i r xs e h at w = refl
answers_run (suc k) i r xs e h at w =
    let here : (r.idx + 1) % length xs ≡ i = at (omega arith) in
    let ih =
      answers_run k (suc i) (record { idx = r.idx + 1 }) xs (omega arith) h
        (λ p. rw (next_position (r.idx + 1) (length xs) i here (omega arith)) (omega arith))
        (omega arith) in
    rw (select_lem r xs h (omega arith), drop_at xs i (omega arith), here, ih)

answers-append :
    (a b c : ℕ) (r : RoundRobin) (xs : List Instance)
    → c ≡ a + b
    → xs ≢ []
    → r.idx + a < 2 ^ 64
    → answers c r xs ≡ answers a r xs ++ answers b (record { idx = r.idx + a }) xs
unfolding answers
answers-append zero b c r xs e h w =
    let e' : c ≡ b = omega arith in let z : r.idx + 0 ≡ r.idx = omega arith in rw (e', z)
answers-append (suc a) b zero r xs e h w = absurd (omega arith)
answers-append (suc a) b (suc c) r xs e h w =
    let ih = answers-append a b c (record { idx = r.idx + 1 }) xs (omega arith) h (omega arith) in
    let z : r.idx + suc a ≡ r.idx + 1 + a = omega arith in
    rw (select_lem r xs h (omega arith), z, ih)

complete_round : (m n : ℕ) → m % n < n → (m + (n - m % n)) % n ≡ 0
complete_round m n h =
    let e : m + (n - m % n) ≡ (m / n + 1) * n = omega (arith, div-add-mod' m n) in
    rw e (mul-mod_left (m / n + 1) n)

-- As many calls as the list has instances take each of its places exactly once, beginning behind
-- the place of the last call and going round at the end, while the counter does not wrap.
pub answers_round :
    (r : RoundRobin) (xs : List Instance)
    → xs ≢ []
    → r.idx + length xs < 2 ^ 64
    → let i = (r.idx + 1) % length xs in answers (length xs) r xs ≡ drop i xs ++ take i xs
answers_round r xs h w =
    let n : ℕ = length xs in
    let i : ℕ = (r.idx + 1) % length xs in
    let small : i < n = position xs h in
    let first = answers_run (n - i) i r xs (omega arith) h (λ _. refl) (omega arith) in
    let second =
      answers_run i 0 (record { idx = r.idx + (n - i) }) xs (omega arith) h
        (λ p.
          let e : r.idx + (n - i) + 1 ≡ r.idx + 1 + (n - i) = omega arith in
          rw e (complete_round (r.idx + 1) n small))
        (omega arith) in
    answers-append (n - i) i n r xs (omega arith) h (omega arith)
    ∙ rw (first, second, take_all (n - i) (drop i xs) (omega (arith, length-drop i xs)))
  where
    position : (xs : List Instance) → xs ≢ [] → (r.idx + 1) % length xs < length xs
    position [] h = absurd (h refl)
    position (x ∷ xs) h = omega arith
