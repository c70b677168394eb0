-- ===== src/Transport/Pool/Acquiring.antt =====
-- Acquire hands out live connections, keeps the pool within its limit and drops dead ones only.
use kama_rpc_go.Base.{
  Mem-append_left, ℕ, zero, suc, ◌+◌, ◌%◌, ◌≤◌, ◌<◌, ltb, Bool, true, false, List, [], ◌∷◌, ◌++◌,
  length, take, drop, get_elem?, Option, none, some, Result, Error, ok, err, pool_closed, ◌≡◌, refl,
  ap, arith, length-append, length-take, length-drop, Bool-cases, inl, inr, ◌⊎◌, ltb→lt, le→ltb,
  ◌∙◌,
}
use kama_rpc_go.Transport.Pool.{
  ConnectionPool, new_connection_pool, remove_at, add_dialled, found, scan, after_scan,
  acquire_open, acquire,
}
use mathlib.Core.List.{Memᴰ}

-- Within the limit, which is not 0; and a closed pool has no connection.
pub record IsPool (p : ConnectionPool) : Type 0 where
  pub positive : 0 < p.max_active
  pub within : length p.conns ≤ p.max_active
  pub emptied : p.closed ≡ true → p.conns ≡ []

pub new_connection_pool-IsPool : (n : ℕ) → IsPool (new_connection_pool n)
unfolding new_connection_pool
new_connection_pool-IsPool n = ground arith

-- From p to q no live connection is lost.
abbrev pub Keeps : (ℕ → Bool) → ConnectionPool → ConnectionPool → Type 0
Keeps dead p q = (x : ℕ) → dead x ≡ false → Memᴰ x p.conns → Memᴰ x q.conns

get_elem?-some : (xs : List ℕ) (i : ℕ) → i < length xs → (x : ℕ) × (get_elem? xs i ≡ some x)
get_elem?-some [] i h = absurd (omega arith)
get_elem?-some (x ∷ xs) zero h = (x, refl)
get_elem?-some (x ∷ xs) (suc i) h = get_elem?-some xs i (omega arith)

mem-remove_at :
    (dead : ℕ → Bool) (x y : ℕ) (xs : List ℕ) (i : ℕ)
    → get_elem? xs i ≡ some y
    → dead y ≡ true
    → dead x ≡ false
    → Memᴰ x xs
    → Memᴰ x (remove_at i xs)
mem-remove_at dead x y [] i e h k m = elim m [ ]
mem-remove_at dead x y (z ∷ xs) zero e h k (Memᴰ.head p) = cc
mem-remove_at dead x y (z ∷ xs) zero e h k (Memᴰ.tail m) = m
mem-remove_at dead x y (z ∷ xs) (suc i) e h k (Memᴰ.head p) = Memᴰ.head p
mem-remove_at dead x y (z ∷ xs) (suc i) e h k (Memᴰ.tail m) =
    Memᴰ.tail (mem-remove_at dead x y xs i e h k m)

length-remove_at : (xs : List ℕ) (i : ℕ) → i < length xs → suc (length (remove_at i xs)) ≡ length xs
length-remove_at xs i h =
    omega
      (arith, length-append (take i xs) (drop (suc i) xs), length-take i xs, length-drop (suc i) xs)

-- How the loop ends: with a live connection, of a pool with all the live ones; or with none left,
-- and then there was no live one.
pub record Scanned (dead : ℕ → Bool) (p : ConnectionPool) (r : Option ℕ × ConnectionPool)
    : Type 0 where
  pub answer :
      ((x : ℕ) × (r.0 ≡ some x) × (dead x ≡ false) × Memᴰ x r.1.conns)
      ⊎ ((r.0 ≡ none) × (r.1.conns ≡ []))
  pub kept : Keeps dead p r.1
  pub fewer : length r.1.conns ≤ length p.conns
  pub limit_same : r.1.max_active ≡ p.max_active
  pub closed_same : r.1.closed ≡ p.closed

length-nil : (xs : List ℕ) → length xs ≤ 0 → xs ≡ []
length-nil [] h = refl
length-nil (x ∷ xs) h = absurd (omega arith)

empty_Scanned : (dead : ℕ → Bool) (p : ConnectionPool) → p.conns ≡ [] → Scanned dead p (none, p)
empty_Scanned dead p e = record {
  answer = inr (refl, e);
  kept = λ x h m. m;
  fewer = omega arith;
  limit_same = refl;
  closed_same = refl;
}

get_elem?-Mem : (xs : List ℕ) (i x : ℕ) → get_elem? xs i ≡ some x → Memᴰ x xs
get_elem?-Mem [] i x e = cc
get_elem?-Mem (y ∷ xs) zero x e = Memᴰ.head (cc)
get_elem?-Mem (y ∷ xs) (suc i) x e = Memᴰ.tail (get_elem?-Mem xs i x e)

-- One round at an index inside the list.
found-Scanned :
    (dead : ℕ → Bool) (again : ConnectionPool → Option ℕ × ConnectionPool) (idx x : ℕ)
    (p : ConnectionPool)
    → idx < length p.conns
    → get_elem? p.conns idx ≡ some x
    → (let q : ConnectionPool = record p { conns = remove_at idx p.conns } in
        Scanned dead q (again q))
    → Scanned dead p (found dead again idx (some x) p)
unfolding found
found-Scanned dead again idx x p h e ih = elim (Bool-cases (dead x)) [
  | inr live ↦
      rw (live, found)
        (record {
          answer = inl (x, refl, live, get_elem?-Mem p.conns idx x e);
          kept = λ y k m. m;
          fewer = omega arith;
          limit_same = refl;
          closed_same = refl;
        })
  | inl gone ↦
      rw (gone, found)
        (record {
          answer = ih.answer;
          kept = λ y k m. ih.kept y k (mem-remove_at dead y x p.conns idx e gone k m);
          fewer = omega (arith, ih.fewer, length-remove_at p.conns idx);
          limit_same = ih.limit_same;
          closed_same = ih.closed_same;
        })
]

get_elem?-none : (xs : List ℕ) (i : ℕ) → get_elem? xs i ≡ none → length xs ≤ i
get_elem?-none [] i e = omega arith
get_elem?-none (x ∷ xs) zero e = absurd (cc)
get_elem?-none (x ∷ xs) (suc i) e = omega (arith, get_elem?-none xs i e)

get_elem?-lt : (xs : List ℕ) (i x : ℕ) → get_elem? xs i ≡ some x → i < length xs
get_elem?-lt [] i x e = absurd (cc)
get_elem?-lt (y ∷ xs) zero x e = omega arith
get_elem?-lt (y ∷ xs) (suc i) x e = omega (arith, get_elem?-lt xs i x e)

round-Scanned :
    (dead : ℕ → Bool) (again : ConnectionPool → Option ℕ × ConnectionPool) (n : ℕ) (o : Option ℕ)
    (p : ConnectionPool)
    → get_elem? p.conns (n % length p.conns) ≡ o
    → ((q : ConnectionPool) → length q.conns < length p.conns → Scanned dead q (again q))
    → Scanned dead p (found dead again (n % length p.conns) o p)
unfolding found
round-Scanned dead again n none p e ih =
    empty_Scanned dead p
      (length-nil p.conns (omega (arith, get_elem?-none p.conns (n % length p.conns) e)))
round-Scanned dead again n (some x) p e ih =
    let h = get_elem?-lt p.conns (n % length p.conns) x e in
    found-Scanned dead again (n % length p.conns) x p h e
      (ih _ (omega (arith, length-remove_at p.conns (n % length p.conns) h)))

scan-Scanned :
    (dead : ℕ → Bool) (rounds : ℕ) (p : ConnectionPool)
    → length p.conns ≤ rounds
    → Scanned dead p (scan dead rounds p)
unfolding scan
scan-Scanned dead zero p h = empty_Scanned dead p (length-nil p.conns (omega arith))
scan-Scanned dead (suc rounds) p h =
    round-Scanned dead (scan dead rounds) (p.next + 0) _ p refl
      (λ q less. scan-Scanned dead rounds q (omega arith))

-- What Acquire promises of its result and the pool it leaves.
pub record Acquired (dead : ℕ → Bool) (p : ConnectionPool) (r : Result ℕ × ConnectionPool)
    : Type 0 where
  pub live : (x : ℕ) → r.0 ≡ ok x → (dead x ≡ false) × Memᴰ x r.1.conns
  pub kept : Keeps dead p r.1
  pub valid : IsPool r.1

mem_last : (x : ℕ) (xs : List ℕ) → Memᴰ x (xs ++ (x ∷ []))
mem_last x [] = Memᴰ.head refl
mem_last x (y ∷ xs) = Memᴰ.tail (mem_last x xs)

-- A pool with room takes what newTCPClient returns.
add_dialled-Acquired :
    (dead : ℕ → Bool) (dial : Result ℕ) (p q : ConnectionPool)
    → ((x : ℕ) → dial ≡ ok x → dead x ≡ false)
    → Keeps dead p q
    → q.closed ≡ false
    → length q.conns < q.max_active
    → Acquired dead p (add_dialled q dial)
unfolding add_dialled
add_dialled-Acquired dead (ok conn) p q d k c h = record {
  live = λ x e. let same : conn ≡ x = cc in rw (← same) (d conn refl, mem_last conn q.conns);
  kept = λ x live m. Mem-append_left x q.conns (conn ∷ []) (k x live m);
  valid = record {
    positive = omega arith;
    within = omega (arith, length-append q.conns (conn ∷ []));
    emptied = λ e. cc;
  };
}
add_dialled-Acquired dead (err e) p q d k c h = record {
  live = λ x e'. cc;
  kept = k;
  valid = record { positive = omega arith; within = omega arith; emptied = λ e'. cc };
}

unchanged_Acquired :
    (dead : ℕ → Bool) (p : ConnectionPool) (e : Error) → IsPool p → Acquired dead p (err e, p)
unchanged_Acquired dead p e v = record { live = λ x e'. cc; kept = λ x h m. m; valid = v }

after_scan-Acquired :
    (dead : ℕ → Bool) (dial : Result ℕ) (p : ConnectionPool) (r : Option ℕ × ConnectionPool)
    → IsPool p
    → ((x : ℕ) → dial ≡ ok x → dead x ≡ false)
    → p.closed ≡ false
    → Scanned dead p r
    → Acquired dead p (after_scan dial r)
unfolding after_scan
after_scan-Acquired dead dial p (some conn, q) v d c s = record {
  live = λ x e. elim s.answer [
    | inl (y, e', h, m) ↦ let same : y ≡ x = cc in rw (← same) (h, m)
    | inr (e', m) ↦ absurd (cc)
  ];
  kept = s.kept;
  valid = record {
    positive = omega (arith, s.limit_same, v.positive);
    within = omega (arith, s.fewer, s.limit_same, v.within);
    emptied = λ e. cc (e, s.closed_same, c);
  };
}
after_scan-Acquired dead dial p (none, q) v d c s = elim s.answer [
  | inl (y, e, h, m) ↦ absurd (cc)
  | inr (e, empty) ↦
      add_dialled-Acquired dead dial p q d s.kept (s.closed_same ∙ c)
        (omega (arith, ap (λ (t : List ℕ). length t) empty, s.limit_same, v.positive))
]

-- Acquire hands out only a live connection of the pool, loses no live connection, and keeps the
-- pool within its limit, on every branch: a context that is done, a closed pool, a pool with
-- room, a full pool with live or only dead connections, and a dial that fails. `dial` gives
-- no dead connection.
pub acquire-Acquired :
    (ctx : Option Error) (dead : ℕ → Bool) (dial : Result ℕ) (p : ConnectionPool)
    → IsPool p
    → ((x : ℕ) → dial ≡ ok x → dead x ≡ false)
    → Acquired dead p (acquire ctx dead dial p)
unfolding acquire acquire_open
acquire-Acquired (some e) dead dial p v d = unchanged_Acquired dead p e v
acquire-Acquired none dead dial p v d = elim (Bool-cases p.closed) [
  | inl shut ↦ simp shut (unchanged_Acquired dead p pool_closed v)
  | inr live ↦ simp live (elim (Bool-cases (ltb (length p.conns) p.max_active)) [
    | inl room ↦
        simp room (add_dialled-Acquired dead dial p p d (λ x h m. m) live (ltb→lt _ _ room))
    | inr full ↦ simp full (
        after_scan-Acquired dead dial p _ v d live
          (scan-Scanned dead (length p.conns) p (omega arith)))
  ])
]

after_scan_reuses :
    (dead : ℕ → Bool) (x : ℕ) (p : ConnectionPool) (r : Option ℕ × ConnectionPool)
    → Memᴰ x p.conns
    → dead x ≡ false
    → Scanned dead p r
    → (y : ℕ) × ((dial : Result ℕ) → (after_scan dial r).0 ≡ ok y)
unfolding after_scan
after_scan_reuses dead x p (some conn, q) m h s = (conn, λ dial. refl)
after_scan_reuses dead x p (none, q) m h s = elim s.answer [
  | inl (y, e, k, n) ↦ absurd (cc)
  | inr (e, empty) ↦ absurd (not_mem (s.kept x h m) empty)
]
  where
    not_mem : {ys : List ℕ} → Memᴰ x ys → ys ≡ [] → ⊥
    not_mem (Memᴰ.head p) e = cc
    not_mem (Memᴰ.tail p) e = cc

-- A full pool with a live connection hands one out without dialling: the answer does not depend
-- on what newTCPClient would return.
pub acquire_reuses :
    (dead : ℕ → Bool) (x : ℕ) (p : ConnectionPool)
    → p.closed ≡ false
    → p.max_active ≤ length p.conns
    → Memᴰ x p.conns
    → dead x ≡ false
    → (y : ℕ) × ((dial : Result ℕ) → (acquire none dead dial p).0 ≡ ok y)
unfolding acquire acquire_open
acquire_reuses dead x p open_pool full m h =
    let (y, e) =
      after_scan_reuses dead x p _ m h (scan-Scanned dead (length p.conns) p (omega arith)) in
    (y, λ dial. simp (open_pool, le→ltb (length p.conns) p.max_active full) (e dial))
