-- ===== src/Base/Keys.antt =====
-- Association lists in which no key stands twice, as Go's maps are.
use kama_rpc_go.Base.{
  ◌≡◌, refl, sym, ap, ap₂, ◌∙◌, arith, true, false, List, [], ◌∷◌, map, none, some, Eq, lookup,
  insert, lookup-insert, Bool-cases, inl, inr, if_true, if_false,
}
use mathlib.Core.List.{Memᴰ}

module _ {ℓ κ} {K : Type ℓ} {V : Type κ} ⦃e : Eq K⦄ where
  abbrev pub Unique : List (K × V) → Type κ
  Unique [] = Unit {κ}
  Unique ((k, v) ∷ m) = (lookup k m ≡ none) × Unique m

  insert_fresh :
      (j k : K) (v : V) (m : List (K × V))
      → e.beq j k ≡ false
      → lookup j m ≡ none
      → lookup j (insert k v m) ≡ none
  insert_fresh j k v m h free =
      lookup-insert k j v m ∙ ground (arith, h, free, e.beq_iff k j, e.beq_iff j k)

  pub insert-Unique : (k : K) (v : V) (m : List (K × V)) → Unique m → Unique (insert k v m)
  unfolding insert lookup
  insert-Unique k v [] u = (refl, tt)
  insert-Unique k v ((j, w) ∷ m) (free, u) = elim (Bool-cases (e.beq j k)) [
    | inl same ↦ simp same (free, u)
    | inr differs ↦ simp differs (insert_fresh j k v m differs free, insert-Unique k v m u)
  ]

  Mem-lookup_some : (k : K) (v : V) (m : List (K × V)) → Memᴰ (k, v) m → lookup k m ≡ none → ⊥
  unfolding lookup
  Mem-lookup_some k v [] mem h = elim mem [ ]
  Mem-lookup_some k v ((j, w) ∷ m) (Memᴰ.head q) h =
      let same : e.beq j k ≡ true = (e.beq_iff j k).1 (sym (ap (λ (p : K × V). p.0) q)) in
      cc (sym (if_true (some w) (lookup k m) same) ∙ h)
  Mem-lookup_some k v ((j, w) ∷ m) (Memᴰ.tail mem) h = Mem-lookup_some k v m mem (ground (arith, h))

  -- An entry of the list is the one that is found.
  pub Mem-lookup :
      (k : K) (v : V) (m : List (K × V)) → Unique m → Memᴰ (k, v) m → lookup k m ≡ some v
  unfolding lookup
  Mem-lookup k v [] u mem = elim mem [ ]
  Mem-lookup k v ((j, w) ∷ m) (free, u) (Memᴰ.head q) =
      if_true (some w) (lookup k m) ((e.beq_iff j k).1 (sym (ap (λ (p : K × V). p.0) q)))
      ∙ ap (λ (p : K × V). some p.1) (sym q)
  Mem-lookup k v ((j, w) ∷ m) (free, u) (Memᴰ.tail mem) = elim (Bool-cases (e.beq j k)) [
    | inl same ↦
        let here : j ≡ k = (e.beq_iff j k).0 same in
        absurd (Mem-lookup_some k v m mem (ap (λ i. lookup i m) (sym here) ∙ free))
    | inr differs ↦ if_false (some w) (lookup k m) differs ∙ Mem-lookup k v m u mem
  ]

  -- What is found stands in the list.
  pub lookup-Mem : (k : K) (v : V) (m : List (K × V)) → lookup k m ≡ some v → Memᴰ (k, v) m
  unfolding lookup
  lookup-Mem k v [] h = absurd (cc (h))
  lookup-Mem k v ((j, w) ∷ m) h = elim (Bool-cases (e.beq j k)) [
    | inl same ↦
        let found : some w ≡ some v = sym (if_true (some w) (lookup k m) same) ∙ h in
        let value : w ≡ v = cc (found) in
        Memᴰ.head (ap₂ (λ (a : K) (b : V). (a, b)) (sym ((e.beq_iff j k).0 same)) (sym value))
    | inr differs ↦ Memᴰ.tail (lookup-Mem k v m (sym (if_false (some w) (lookup k m) differs) ∙ h))
  ]

-- The members of a list that a function is applied to.
pub map-Mem {ℓ κ} :
    {A : Type ℓ} {B : Type κ} (f : A → B) (y : B) (xs : List A)
    → Memᴰ y (map f xs)
    → (x : A) × Memᴰ x xs × (y ≡ f x)
map-Mem f y [] mem = elim mem [ ]
map-Mem f y (x ∷ xs) (Memᴰ.head e) = (x, Memᴰ.head refl, e)
map-Mem f y (x ∷ xs) (Memᴰ.tail mem) =
    let (x', mem', e) = map-Mem f y xs mem in (x', Memᴰ.tail mem', e)

pub Mem-map {ℓ κ} :
    {A : Type ℓ} {B : Type κ} (f : A → B) (x : A) (xs : List A) → Memᴰ x xs → Memᴰ (f x) (map f xs)
Mem-map f x [] mem = elim mem [ ]
Mem-map f x (x' ∷ xs) (Memᴰ.head e) = Memᴰ.head (ap f e)
Mem-map f x (x' ∷ xs) (Memᴰ.tail mem) = Memᴰ.tail (Mem-map f x xs mem)
