-- ===== src/Cmd/Console/Splitting.antt =====
-- Names that are joined by commas, with blanks around them, are read back.
use kama_rpc_go.Base.{
  ℕ, ◌==◌, true, false, List, [], ◌∷◌, ◌++◌, map, Bytes, All, ◌≡◌, refl, ap, ap₂, ◌∙◌, arith,
  if_true, if_false,
}
use kama_rpc_go.Cmd.Console.{
  comma, is_space, add_to_first, split, trim_left, keep_unless_blank, trim_right, trim_space,
  keep_nonempty, trim_all, split_and_trim,
}

-- A name, with the blanks before it and behind it.
pub record Padded : Type 0 where
  pub before : Bytes
  pub first : ℕ
  pub rest : Bytes
  pub after : Bytes

abbrev pub name_of : Padded → Bytes
name_of p = p.first ∷ p.rest

abbrev pub text_of : Padded → Bytes
text_of p = p.before ++ (name_of p ++ p.after)

abbrev pub AllSpace : Bytes → Type 0
AllSpace = All (λ c. is_space c ≡ true)

abbrev pub NoComma : Bytes → Type 0
NoComma = All (λ c. c == comma ≡ false)

-- The name begins and ends with no blank and has no comma.
pub record IsPadded (p : Padded) : Type 0 where
  pub before_blank : AllSpace p.before
  pub after_blank : AllSpace p.after
  pub starts : is_space p.first ≡ false
  pub ends : trim_right (name_of p) ≡ name_of p
  pub no_comma : NoComma (name_of p)

-- strings.Join
unfoldable pub join : List Bytes → Bytes
join [] = []
join (p ∷ []) = p
join (p ∷ q ∷ ps) = p ++ (comma ∷ join (q ∷ ps))

trim_left-blank : (b s : Bytes) → AllSpace b → trim_left (b ++ s) ≡ trim_left s
unfolding trim_left
trim_left-blank [] s h = refl
trim_left-blank (c ∷ b) s (h, hs) = if_true _ _ h ∙ trim_left-blank b s hs

trim_right-blank : (b : Bytes) → AllSpace b → trim_right b ≡ []
unfolding trim_right keep_unless_blank
trim_right-blank [] h = refl
trim_right-blank (c ∷ b) (h, hs) = ap (keep_unless_blank c) (trim_right-blank b hs) ∙ if_true _ _ h

trim_right-append : (s b : Bytes) → AllSpace b → trim_right (s ++ b) ≡ trim_right s
unfolding trim_right
trim_right-append [] b h = trim_right-blank b h
trim_right-append (c ∷ s) b h = ap (keep_unless_blank c) (trim_right-append s b h)

trim_space-text : (p : Padded) → IsPadded p → trim_space (text_of p) ≡ name_of p
unfolding trim_space
trim_space-text p v =
    ap trim_right (
      trim_left-blank p.before (name_of p ++ p.after) v.before_blank
      ∙ unfold trim_left in if_false _ _ v.starts)
    ∙ trim_right-append (name_of p) p.after v.after_blank
    ∙ v.ends

AllSpace-NoComma : (b : Bytes) → AllSpace b → NoComma b
AllSpace-NoComma [] h = tt
AllSpace-NoComma (c ∷ b) (h, hs) = (ground (arith, h), AllSpace-NoComma b hs)

NoComma-append : (s t : Bytes) → NoComma s → NoComma t → NoComma (s ++ t)
NoComma-append [] t h k = k
NoComma-append (c ∷ s) t (h, hs) k = (h, NoComma-append s t hs k)

text-NoComma : (p : Padded) → IsPadded p → NoComma (text_of p)
text-NoComma p v =
    NoComma-append p.before _ (AllSpace-NoComma p.before v.before_blank)
      (NoComma-append (name_of p) p.after v.no_comma (AllSpace-NoComma p.after v.after_blank))

split-part : (p s : Bytes) → NoComma p → split (p ++ (comma ∷ s)) ≡ p ∷ split s
unfolding split add_to_first
split-part [] s h = refl
split-part (c ∷ p) s (h, hs) = if_false _ _ h ∙ ap (add_to_first c) (split-part p s hs)

split-last : (p : Bytes) → NoComma p → split p ≡ p ∷ []
unfolding split add_to_first
split-last [] h = refl
split-last (c ∷ p) (h, hs) = if_false _ _ h ∙ ap (add_to_first c) (split-last p hs)

split_and_trim-from :
    (p : Padded) (ps : List Padded)
    → IsPadded p
    → All IsPadded ps
    → split_and_trim (join (map text_of (p ∷ ps))) ≡ map name_of (p ∷ ps)
unfolding split_and_trim join trim_all keep_nonempty
split_and_trim-from p [] v vs =
    ap trim_all (split-last (text_of p) (text-NoComma p v))
    ∙ ap (λ n. keep_nonempty n []) (trim_space-text p v)
split_and_trim-from p (q ∷ ps) v (w, ws) =
    ap trim_all (split-part (text_of p) (join (map text_of (q ∷ ps))) (text-NoComma p v))
    ∙ ap₂ keep_nonempty (trim_space-text p v) (split_and_trim-from q ps w ws)

-- Names without commas that begin and end with no blank are read back from a list that joins them
-- by commas, with any blanks around each.
pub split_and_trim-join :
    (ps : List Padded) → All IsPadded ps → split_and_trim (join (map text_of ps)) ≡ map name_of ps
unfolding split_and_trim join trim_all split keep_nonempty trim_space trim_left trim_right
split_and_trim-join [] vs = refl
split_and_trim-join (p ∷ ps) (v, vs) = split_and_trim-from p ps v vs
