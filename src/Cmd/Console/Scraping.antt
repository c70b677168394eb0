-- ===== src/Cmd/Console/Scraping.antt =====
-- Targets are scraped by goroutines that finish in any order.
use kama_rpc_go.Base.{
  ℕ, zero, suc, ◌<◌, ◌≡◌, refl, sym, ap, ap₂, ◌∙◌, arith, ◌==◌, ==_iff, ◌||◌, if◌then◌else◌, Bool,
  true, false, List, [], ◌∷◌, map, Bytes, length, get_elem?, set, replicate, Option, none, some,
  Result, length-set, length-replicate, inl, inr, Bool-cases, if_true, if_false,
}
use kama_rpc_go.Cmd.Console.{TargetStats, empty_stats, target_stats, scraped, scrape_from, scrape}

unfoldable pub finishes : ℕ → List ℕ → Bool
finishes j [] = false
finishes j (i ∷ order) = i == j || finishes j order

get_elem?-set :
    {A : Type 0} (xs : List A) (i j : ℕ) (v : A)
    → j < length xs
    → get_elem? (set xs i v) j ≡ (if i == j then some v else get_elem? xs j)
get_elem?-set [] i j v h = absurd (omega arith)
get_elem?-set (x ∷ xs) zero zero v h = refl
get_elem?-set (x ∷ xs) zero (suc j) v h = ground arith
get_elem?-set (x ∷ xs) (suc i) zero v h = ground arith
get_elem?-set (x ∷ xs) (suc i) (suc j) v h = get_elem?-set xs i j v (omega arith) ∙ ground arith

same_elements :
    {A : Type 0} (xs ys : List A)
    → length xs ≡ length ys
    → ((j : ℕ) → j < length xs → get_elem? xs j ≡ get_elem? ys j)
    → xs ≡ ys
same_elements [] [] e h = refl
same_elements [] (y ∷ ys) e h = absurd (omega arith)
same_elements (x ∷ xs) [] e h = absurd (omega arith)
same_elements (x ∷ xs) (y ∷ ys) e h =
    let first : some x ≡ some y = h 0 (omega arith) in
    let rest = same_elements xs ys (omega arith) (λ j below. h (suc j) (omega arith)) in
    ap₂ (λ a b. a ∷ b) (cc (first)) rest

get_elem?-map :
    {A C : Type 0} (f : A → C) (xs : List A) (j : ℕ) (x : A)
    → get_elem? xs j ≡ some x
    → get_elem? (map f xs) j ≡ some (f x)
get_elem?-map f [] j x h = absurd (cc (h))
get_elem?-map f (y ∷ xs) zero x h = let same : y ≡ x = cc (h) in ap (λ a. some (f a)) same
get_elem?-map f (y ∷ xs) (suc j) x h = get_elem?-map f xs j x h

length-map : {A C : Type 0} (f : A → C) (xs : List A) → length (map f xs) ≡ length xs
length-map f [] = refl
length-map f (x ∷ xs) = ap suc (length-map f xs)

get_elem?-inside :
    {A : Type 0} (xs : List A) (j : ℕ) → j < length xs → (x : A) × (get_elem? xs j ≡ some x)
get_elem?-inside [] j h = absurd (omega arith)
get_elem?-inside (x ∷ xs) zero h = (x, refl)
get_elem?-inside (x ∷ xs) (suc j) h = get_elem?-inside xs j (omega arith)

either :
    {A : Type 0} (a b : Bool) (x y : A)
    → (if b then x else (if a then x else y)) ≡ (if a || b then x else y)
either true true x y = refl
either true false x y = refl
either false true x y = refl
either false false x y = refl

module _ {S : Type 0} (fetch : Bytes → Result S) where
  length-scraped :
      (i : ℕ) (o : Option Bytes) (out : List (TargetStats S))
      → length (scraped fetch i o out) ≡ length out
  unfolding scraped
  length-scraped i none out = refl
  length-scraped i (some t) out = length-set out i (target_stats t (fetch t))

  length-scrape_from :
      (targets : List Bytes) (order : List ℕ) (out : List (TargetStats S))
      → length (scrape_from fetch targets order out) ≡ length out
  unfolding scrape_from
  length-scrape_from targets [] out = refl
  length-scrape_from targets (i ∷ order) out =
      length-scrape_from targets order (scraped fetch i (get_elem? targets i) out)
      ∙ length-scraped i (get_elem? targets i) out

  scraped_at :
      (i j : ℕ) (o : Option Bytes) (t : Bytes) (out : List (TargetStats S))
      → j < length out
      → (i ≡ j → o ≡ some t)
      → get_elem? (scraped fetch i o out) j
        ≡ (if i == j then some (target_stats t (fetch t)) else get_elem? out j)
  unfolding scraped
  scraped_at i j none t out h same = elim (Bool-cases (i == j)) [
    | inl here ↦ let absent = same ((==_iff i j).0 here) in absurd (cc (absent))
    | inr there ↦ sym (if_false _ _ there)
  ]
  scraped_at i j (some u) t out h same =
      get_elem?-set out i j (target_stats u (fetch u)) h ∙ elim (Bool-cases (i == j)) [
        | inl here ↦
            let found = same ((==_iff i j).0 here) in
            let target : u ≡ t = cc (found) in
            if_true _ _ here
            ∙ ap (λ x. some (target_stats x (fetch x))) target
            ∙ sym (if_true _ _ here)
        | inr there ↦ if_false _ _ there ∙ sym (if_false _ _ there)
      ]

  scrape_from_at :
      (targets : List Bytes) (order : List ℕ) (out : List (TargetStats S)) (j : ℕ) (t : Bytes)
      → j < length out
      → get_elem? targets j ≡ some t
      → get_elem? (scrape_from fetch targets order out) j
        ≡ (if finishes j order then some (target_stats t (fetch t)) else get_elem? out j)
  unfolding scrape_from finishes
  scrape_from_at targets [] out j t h e = refl
  scrape_from_at targets (i ∷ order) out j t h e =
      let out' : List (TargetStats S) = scraped fetch i (get_elem? targets i) out in
      let rest =
        scrape_from_at targets order out' j t
          (omega (arith, length-scraped i (get_elem? targets i) out)) e in
      let here = scraped_at i j (get_elem? targets i) t out h (λ s. ap (get_elem? targets) s ∙ e) in
      rest
      ∙ ap (λ z. if finishes j order then some (target_stats t (fetch t)) else z) here
      ∙ either (i == j) (finishes j order) _ _

  -- In whatever order the goroutines finish, each result stands at the place of its target: when all
  -- have finished, the list is what scraping the targets one after another gives.
  pub scrape-map :
      (targets : List Bytes) (order : List ℕ)
      → ((j : ℕ) → j < length targets → finishes j order ≡ true)
      → scrape fetch targets order ≡ map (λ t. target_stats t (fetch t)) targets
  unfolding scrape
  scrape-map targets order all =
      let out : List (TargetStats S) = replicate (length targets) empty_stats in
      let n : length out ≡ length targets = length-replicate (length targets) empty_stats in
      let m = length-scrape_from targets order out in
      same_elements _ _ (m ∙ n ∙ sym (length-map (λ t. target_stats t (fetch t)) targets))
        (λ j below.
          let inside : j < length targets = omega (arith, m, n) in
          let (t, e) = get_elem?-inside targets j inside in
          scrape_from_at targets order out j t (omega (arith, n)) e
          ∙ if_true _ _ (all j inside)
          ∙ sym (get_elem?-map (λ t. target_stats t (fetch t)) targets j t e))
