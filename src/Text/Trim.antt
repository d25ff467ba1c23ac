-- ===== src/Text/Trim.antt =====
-- Laws of TrimSpace: what it returns it leaves alone, and what is blank.
use Prim.Native.Char.{Char, code}
use Prim.Native.String.compare
use text.Mathlib.TextLemmas.{nil-append, cons-append}
use layeros.Base.{
  String, Bool, true, false, ◌&&◌, ◌≡◌, refl, ap, ◌∙◌, inl, inr, arith, Bool-cases, ◌==◌,
}
use layeros.Text.{is_space, trim_left, trim_right, trim_cons, trim_space, is_empty, is_blank, ◌<>◌}

-- No space in front.
abbrev StartsClean : String → Type 0
StartsClean String.[] = Unit
StartsClean (String.◌∷◌ c s) = is_space (code c) ≡ false

trim_left-StartsClean : (s : String) → StartsClean (trim_left s)
unfolding trim_left
trim_left-StartsClean String.[] = tt
trim_left-StartsClean (String.◌∷◌ c s) = elim (Bool-cases (is_space (code c))) [
  | inl e ↦ rw e (trim_left-StartsClean s)
  | inr e ↦ rw e e
]

trim_left_of_StartsClean : (s : String) → StartsClean s → trim_left s ≡ s
unfolding trim_left
trim_left_of_StartsClean String.[] h = refl
trim_left_of_StartsClean (String.◌∷◌ c s) h = rw h

trim_right-StartsClean : (s : String) → StartsClean s → StartsClean (trim_right s)
unfolding trim_right
trim_right-StartsClean String.[] h = tt
trim_right-StartsClean (String.◌∷◌ c s) h = step (trim_right s)
  where
    step : (t : String) → StartsClean (trim_cons c t)
    step String.[] = rw h h
    step (String.◌∷◌ d t) = h

trim_cons_twice :
    (c : Char) (t : String) → trim_right t ≡ t → trim_right (trim_cons c t) ≡ trim_cons c t
unfolding trim_right
trim_cons_twice c String.[] h = elim (Bool-cases (is_space (code c))) [
  | inl e ↦ rw e
  | inr e ↦ rw (e, e)
]
trim_cons_twice c (String.◌∷◌ d t) h = ap (trim_cons c) h

trim_right_idem : (s : String) → trim_right (trim_right s) ≡ trim_right s
unfolding trim_right
trim_right_idem String.[] = refl
trim_right_idem (String.◌∷◌ c s) = trim_cons_twice c (trim_right s) (trim_right_idem s)

-- A text that was trimmed is not changed by a second TrimSpace.
pub trim_space_idem : (s : String) → trim_space (trim_space s) ≡ trim_space s
unfolding trim_space
trim_space_idem s =
    ap trim_right
      (trim_left_of_StartsClean _ (trim_right-StartsClean (trim_left s) (trim_left-StartsClean s)))
    ∙ trim_right_idem (trim_left s)

pub is_empty_iff : (s : String) → is_empty s ≡ (s == "")
is_empty_iff String.[] = refl
is_empty_iff (String.◌∷◌ c s) = rw (compare.cons-nil c s)

-- `strings.TrimSpace(s) == ""` by the comparison that the source writes.
pub is_blank-eq : (s : String) → is_blank s ≡ (trim_space s == "")
unfolding is_blank
is_blank-eq s = is_empty_iff (trim_space s)

pub is_blank-trim_space : (s : String) → is_blank (trim_space s) ≡ is_blank s
unfolding is_blank
is_blank-trim_space s = ap is_empty (trim_space_idem s)

pub eq_nil_of_is_empty : (s : String) → is_empty s ≡ true → s ≡ ""
eq_nil_of_is_empty String.[] h = refl
eq_nil_of_is_empty (String.◌∷◌ c s) h = cc

-- Every character is a space.
abbrev all_space : String → Bool
all_space String.[] = true
all_space (String.◌∷◌ c s) = is_space (code c) && all_space s

trim_right_keeps :
    (c : Char) (s : String)
    → is_space (code c) ≡ false
    → is_empty (trim_right (String.◌∷◌ c s)) ≡ false
unfolding trim_right
trim_right_keeps c s h = step (trim_right s)
  where
    step : (t : String) → is_empty (trim_cons c t) ≡ false
    step String.[] = rw h
    step (String.◌∷◌ d t) = refl

all_space-trim_right : (s : String) → is_empty (trim_right s) ≡ all_space s
unfolding trim_right
all_space-trim_right String.[] = refl
all_space-trim_right (String.◌∷◌ c s) = step (trim_right s) (all_space-trim_right s)
  where
    step :
        (t : String)
        → is_empty t ≡ all_space s
        → is_empty (trim_cons c t) ≡ (is_space (code c) && all_space s)
    step String.[] h = elim (Bool-cases (is_space (code c))) [ inl e ↦ rw e h | inr e ↦ rw e refl ]
    step (String.◌∷◌ d t) h = ground arith

all_space-trim_left : (s : String) → is_empty (trim_right (trim_left s)) ≡ all_space s
unfolding trim_left trim_right
all_space-trim_left String.[] = refl
all_space-trim_left (String.◌∷◌ c s) = elim (Bool-cases (is_space (code c))) [
  | inl e ↦ rw e (all_space-trim_left s)
  | inr e ↦ rw e (trim_right_keeps c s e)
]

pub is_blank-all_space : (s : String) → is_blank s ≡ all_space s
unfolding is_blank
is_blank-all_space s = all_space-trim_left s

all_space-append : (s t : String) → all_space (s <> t) ≡ (all_space s && all_space t)
all_space-append String.[] t = rw nil-append
all_space-append (String.◌∷◌ c s) t = rw cons-append (ground (arith, all_space-append s t))

-- A text made of parts is blank only if every part is.
pub is_blank-append : (s t : String) → is_blank (s <> t) ≡ (is_blank s && is_blank t)
is_blank-append s t =
    rw (is_blank-all_space (s <> t), is_blank-all_space s, is_blank-all_space t)
      (all_space-append s t)
