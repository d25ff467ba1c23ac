-- ===== src/Files/Segments.antt =====
-- Splitting a path at its separators, and joining the parts.
use Prim.Native.Char.{Char, code}
use text.Mathlib.TextLemmas.{nil-append, cons-append}
use text.Mathlib.TextEquality.{Char-path}
use mathlib.Core.Path.{subst}
use layeros.Base.{
  ℕ, String, true, ◌≡◌, refl, sym, ap, ◌∙◌, List, [], ◌∷◌, ◌++◌, eqb, arith, Bool-cases, inl, inr,
}
use layeros.Text.{◌<>◌}
use layeros.Text.Parts.{split, join, grow}

-- the parts of a text are never none
pub record Parts (l : List String) : Type 0 where
  pub first : String
  pub rest : List String
  pub same : l ≡ first ∷ rest

grow-Parts : (c : Char) (l : List String) → Parts (grow c l)
grow-Parts c [] = record { first = String.◌∷◌ c String.[]; rest = []; same = refl }
grow-Parts c (p ∷ ps) = record { first = String.◌∷◌ c p; rest = ps; same = refl }

pub split-Parts : (sep : ℕ) (s : String) → Parts (split sep s)
unfolding split
split-Parts sep String.[] = record { first = ""; rest = []; same = refl }
split-Parts sep (String.◌∷◌ c s) = elim (Bool-cases (eqb (code c) sep)) [
  | inl here ↦ rw here (record { first = ""; rest = split sep s; same = refl })
  | inr other ↦ rw other (grow-Parts c (split sep s))
]

grow-append : (c : Char) (l m : List String) → Parts l → grow c (l ++ m) ≡ grow c l ++ m
grow-append c [] m p = cc (p.same)
grow-append c (x ∷ l) m p = refl

eqb_refl : (n : ℕ) → eqb n n ≡ true
eqb_refl n = ground arith

-- a separator between two texts parts their parts
pub split-append :
    (c : Char) (q r : String)
    → split (code c) (q <> String.◌∷◌ c r) ≡ split (code c) q ++ split (code c) r
unfolding split
split-append c String.[] r = rw (nil-append, split, eqb_refl (code c)) refl
split-append c (String.◌∷◌ d q) r = elim (Bool-cases (eqb (code d) (code c))) [
  | inl here ↦ rw (cons-append, split, split, here, split-append c q r) refl
  | inr other ↦
      rw (cons-append, split, split, other, split-append c q r)
        (grow-append d (split (code c) q) (split (code c) r) (split-Parts (code c) q))
]

join-grow : (c : Char) (l : List String) → Parts l → join "/" (grow c l) ≡ String.◌∷◌ c (join "/" l)
unfolding join
join-grow c [] p = cc (p.same)
join-grow c (x ∷ []) p = refl
join-grow c (x ∷ y ∷ l) p = rw (cons-append) refl

join-blank : (l : List String) → Parts l → join "/" ("" ∷ l) ≡ "/" <> join "/" l
unfolding join
join-blank l p =
    subst (λ k. join "/" ("" ∷ k) ≡ "/" <> join "/" k) (sym p.same)
      (nil-append ("/" <> join "/" (p.first ∷ p.rest)))

pub is_slash : (c : Char) (s : String) → eqb (code c) b'/' ≡ true → "/" <> s ≡ String.◌∷◌ c s
is_slash c s h =
    rw (cons-append, nil-append) (ap (λ d. String.◌∷◌ d s) (Char-path _ c (ground arith)))

-- joining what splitting gives
pub join-split : (s : String) → join "/" (split b'/' s) ≡ s
unfolding split join
join-split String.[] = refl
join-split (String.◌∷◌ c s) = elim (Bool-cases (eqb (code c) b'/')) [
  | inl here ↦ rw here (
      join-blank (split b'/' s) (split-Parts b'/' s)
      ∙ ap (λ t. "/" <> t) (join-split s)
      ∙ is_slash c s here)
  | inr other ↦ rw (other, join-grow c (split b'/' s) (split-Parts b'/' s), join-split s) refl
]
