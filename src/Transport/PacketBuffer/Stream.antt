-- ===== src/Transport/PacketBuffer/Stream.antt =====
-- The abstract view of the framing: a byte stream is cut into packets by their length fields.
use kama_rpc_go.Base.{
  ℕ, zero, suc, ◌-◌, ◌≤◌, ◌≡◌, refl, arith, ltb, leb, if◌then◌else◌, Bool, true, false, List, [],
  ◌∷◌, ◌++◌, Bytes, length, take, drop, length-append, length-drop, take-append_le, drop-append_le,
  Bool-cases, inl, inr, ap, ◌∙◌, flatten, All, take-append, drop-append,
}
use kama_rpc_go.Protocol.Header.{header_fixed_len}
use kama_rpc_go.Protocol.HeaderBinary.{slice}
use kama_rpc_go.Protocol.Message.Framing.{IsPacket}
use kama_rpc_go.Transport.PacketBuffer.{total_len}

-- A stream begins with a whole packet.
unfoldable pub whole : Bytes → Bool
whole s = if ltb (length s) header_fixed_len then false else leb (total_len s) (length s)

-- The packets of a stream, and the bytes of the packet that is not there yet. Each packet has ten
-- bytes at least, so as many rounds as there are bytes are enough.
pub split_fuel : ℕ → Bytes → List Bytes × Bytes
split_fuel zero s = ([], s)
split_fuel (suc fuel) s =
    let rest = split_fuel fuel (drop (total_len s) s) in
    if whole s then (take (total_len s) s ∷ rest.0, rest.1) else ([], s)

pub split : Bytes → List Bytes × Bytes
split s = split_fuel (length s) s

slice-append_le : (i j : ℕ) (s t : Bytes) → i ≤ j → j ≤ length s → slice (s ++ t) i j ≡ slice s i j
slice-append_le i j s t h k =
    rw (drop-append_le i s t (omega arith))
      (take-append_le (j - i) (drop i s) t (omega (arith, length-drop i s)))

pub total_len-append :
    (s t : Bytes) → header_fixed_len ≤ length s → total_len (s ++ t) ≡ total_len s
unfolding total_len
total_len-append s t h = rw (
  slice-append_le 2 6 s t (omega arith) (omega arith),
  slice-append_le 6 10 s t (omega arith) (omega arith),
)

pub ten-le-total_len : (s : Bytes) → 10 ≤ total_len s
unfolding total_len
ten-le-total_len s = omega arith

-- A whole packet at the front has ten bytes at least, is there to its end, and stays where it is
-- when bytes are added behind.
pub whole_bounds : (s : Bytes) → whole s ≡ true → (10 ≤ length s) × (total_len s ≤ length s)
unfolding whole
whole_bounds s h = ground arith

pub whole-append : (s t : Bytes) → whole s ≡ true → whole (s ++ t) ≡ true
unfolding whole
whole-append s t h = ground (arith, total_len-append s t, length-append s t)

split_fuel_any :
    (n m : ℕ) (s : Bytes) → length s ≤ n → length s ≤ m → split_fuel n s ≡ split_fuel m s
unfolding split_fuel
split_fuel_any zero zero s h k = refl
split_fuel_any zero (suc m) [] h k = unfold whole in refl
split_fuel_any zero (suc m) (x ∷ s) h k = absurd (omega arith)
split_fuel_any (suc n) zero [] h k = unfold whole in refl
split_fuel_any (suc n) zero (x ∷ s) h k = absurd (omega arith)
split_fuel_any (suc n) (suc m) s h k = elim (Bool-cases (whole s)) [
  | inl w ↦
      let b = whole_bounds s w in
      let e =
        split_fuel_any n m (drop (total_len s) s)
          (omega (arith, ten-le-total_len s, length-drop (total_len s) s))
          (omega (arith, ten-le-total_len s, length-drop (total_len s) s)) in
      rw (w, e)
  | inr w ↦ rw w
]

abbrev after_first : Bytes → List Bytes × Bytes
after_first s = split (drop (total_len s) s)

pub split-whole :
    (s : Bytes)
    → whole s ≡ true
    → split s ≡ (take (total_len s) s ∷ (after_first s).0, (after_first s).1)
unfolding split split_fuel total_len
split-whole s w = go s (length s) refl w
  where
    go :
        (s : Bytes) (n : ℕ)
        → length s ≡ n
        → whole s ≡ true
        → split_fuel n s ≡ (take (total_len s) s ∷ (after_first s).0, (after_first s).1)
    go s zero e w = absurd (omega (arith, whole_bounds s w))
    go s (suc n) e w = rw (
      split_fuel,
      w,
      split_fuel_any n (length (drop (total_len s) s)) (drop (total_len s) s)
          (omega (arith, ten-le-total_len s, length-drop (total_len s) s)) (omega arith),
    )

pub split-partial : (s : Bytes) → whole s ≡ false → split s ≡ ([], s)
unfolding split split_fuel
split-partial [] w = refl
split-partial (x ∷ s) w = rw w

-- Cutting a stream that comes in two parts: the packets of the first part, and then those of what
-- is left of it with the second part behind.
pub split-append_fuel :
    (n : ℕ) (s t : Bytes)
    → length s ≤ n
    → split (s ++ t) ≡ ((split s).0 ++ (split ((split s).1 ++ t)).0, (split ((split s).1 ++ t)).1)
split-append_fuel zero [] t h = rw (split-partial [] (unfold whole in refl))
split-append_fuel zero (x ∷ s) t h = absurd (omega arith)
split-append_fuel (suc n) s t h = elim (Bool-cases (whole s)) [
  | inr w ↦ rw (split-partial s w)
  | inl w ↦
      let b = whole_bounds s w in
      let ih =
        split-append_fuel n (drop (total_len s) s) t
          (omega (arith, ten-le-total_len s, length-drop (total_len s) s)) in
      rw (
        split-whole s w,
        split-whole (s ++ t) (whole-append s t w),
        total_len-append s t (omega arith),
        take-append_le (total_len s) s t (omega arith),
        drop-append_le (total_len s) s t (omega arith),
        ih,
      )
]

pub split-append :
    (s t : Bytes)
    → split (s ++ t) ≡ ((split s).0 ++ (split ((split s).1 ++ t)).0, (split ((split s).1 ++ t)).1)
split-append s t = split-append_fuel (length s) s t (omega arith)

-- A stream of packets is cut into these packets.
pub split-packet : (p t : Bytes) → IsPacket p → split (p ++ t) ≡ (p ∷ (split t).0, (split t).1)
split-packet p t (long, exact) =
    let same : total_len p ≡ length p = unfold total_len in exact in
    let w : whole p ≡ true = unfold whole in ground (arith, same) in
    let total : total_len (p ++ t) ≡ length p = total_len-append p t long ∙ same in
    let cut = split-whole (p ++ t) (whole-append p t w) in
    rw (cut, total, take-append p t (length p) refl, drop-append p t (length p) refl)

pub split-flatten : (ps : List Bytes) → All IsPacket ps → split (flatten ps) ≡ (ps, [])
unfolding flatten
split-flatten [] h = split-partial [] (unfold whole in refl)
split-flatten (p ∷ ps) (h, hs) =
    split-packet p (flatten ps) h
    ∙ ap (λ (r : List Bytes × Bytes). (p ∷ r.0, r.1)) (split-flatten ps hs)
