-- ===== src/Files/Within.antt =====
-- What pathWithinAnyPrefix of internal/runtime/service_job_report.go decides, on whole elements of
-- a path.
use text.Mathlib.TextLemmas.{nil-append, cons-append, append_assoc}
use text.Mathlib.TextEquality.{starts_with_iff}
use mathlib.Core.List.{append-nil}
use text.Mathlib.Text.{starts_with}
use layeros.Base.{
  String, Bool, true, false, ◌≡◌, ◌≢◌, ◌↔◌, refl, sym, ap, ◌∙◌, List, [], ◌∷◌, ◌++◌, if◌then◌else◌,
  Bool-cases, inl, inr, ◌==◌, eq_iff, or-eq-true, or-true, ==_refl,
}
use layeros.Text.{◌<>◌, trim_space}
use layeros.Text.Parts.{split, join}
use layeros.Files.{
  clean, ends_with_slash, trim_slash, normalize_path_prefix, under, within_any,
  path_within_any_prefix,
}
use layeros.Files.Segments.{is_slash, Parts, split-Parts, split-append, join-split}

-- the elements of a prefix come first in the path
pub Beneath : String → String → Type 0
Beneath path raw =
    (normalize_path_prefix raw ≢ "")
    × (rest : List String) × (split b'/' path
        ≡ split b'/' (trim_slash (normalize_path_prefix raw)) ++ rest)

pub data BeneathSome (path : String) : List String → Type 0 where
  here : {raw : String} {rest : List String} → Beneath path raw → BeneathSome path (raw ∷ rest)
  later :
      {raw : String} {rest : List String} → BeneathSome path rest → BeneathSome path (raw ∷ rest)

slash-trim : (p : String) → ends_with_slash p ≡ true → trim_slash p <> "/" ≡ p
unfolding ends_with_slash trim_slash
slash-trim String.[] h = cc
slash-trim (String.◌∷◌ c String.[]) h = rw h (is_slash c "" h)
slash-trim (String.◌∷◌ c (String.◌∷◌ d s)) h =
    cons-append c (trim_slash (String.◌∷◌ d s)) "/"
    ∙ ap (λ t. String.◌∷◌ c t) (slash-trim (String.◌∷◌ d s) h)

ends-slash : (p : String) → ends_with_slash (p <> "/") ≡ true
unfolding ends_with_slash
ends-slash String.[] = refl
ends-slash (String.◌∷◌ c String.[]) =
    ap (λ t. ends_with_slash t) (cons-append c "" "/" ∙ ap (λ t. String.◌∷◌ c t) (nil-append "/"))
ends-slash (String.◌∷◌ c (String.◌∷◌ d s)) =
    ap (λ t. ends_with_slash t)
      (cons-append c (String.◌∷◌ d s) "/" ∙ ap (λ t. String.◌∷◌ c t) (cons-append d s "/"))
    ∙ ap (λ t. ends_with_slash t) (sym (cons-append d s "/"))
    ∙ ends-slash (String.◌∷◌ d s)

closed-slash :
    (blank dot : Bool) (path : String)
    → (if blank then "" else if dot then "" else if ends_with_slash path then path else path <> "/")
      ≢ ""
    → ends_with_slash (
        if blank
        then ""
        else if dot
        then ""
        else if ends_with_slash path
        then path
        else path <> "/")
      ≡ true
closed-slash true dot path h = absurd (h refl)
closed-slash false true path h = absurd (h refl)
closed-slash false false path h = elim (Bool-cases (ends_with_slash path)) [
  | inl full ↦ rw (full, full) refl
  | inr short ↦ rw short (ends-slash path)
]

-- a prefix that is not passed over ends in a separator
normalize-slash :
    (raw : String)
    → normalize_path_prefix raw ≢ ""
    → ends_with_slash (normalize_path_prefix raw) ≡ true
unfolding normalize_path_prefix
normalize-slash raw h =
    closed-slash (trim_space raw == "") (clean (trim_space raw) == ".") (clean (trim_space raw)) h

join-append :
    (l : List String) (r : String) (rs : List String)
    → Parts l
    → join "/" (l ++ r ∷ rs) ≡ join "/" l <> "/" <> join "/" (r ∷ rs)
unfolding join
join-append [] r rs p = cc (p.same)
join-append (x ∷ []) r rs p = refl
join-append (x ∷ y ∷ l) r rs p =
    ap (λ t. x <> "/" <> t) (join-append (y ∷ l) r rs (record { first = y; rest = l; same = refl }))
    ∙ sym (
        append_assoc x ("/" <> join "/" (y ∷ l)) _
        ∙ ap (λ t. x <> t) (append_assoc "/" (join "/" (y ∷ l)) _))

-- a separator between two texts
split-slash : (q t : String) → split b'/' (q <> "/" <> t) ≡ split b'/' q ++ split b'/' t
split-slash q t =
    ap (λ r. split b'/' (q <> r)) (cons-append "/" "" t ∙ ap (λ r. String.◌∷◌ "/" r) (nil-append t))
    ∙ split-append "/" q t

split-prefix : (p q t : String) → p <> "/" ≡ q → q <> t ≡ p <> "/" <> t
split-prefix p q t h = ap (λ u. u <> t) (sym h) ∙ append_assoc p "/" t

-- a path is under a closed prefix where the prefix's elements come first in it
under-elements :
    (path prefix : String)
    → ends_with_slash prefix ≡ true
    → under path prefix ≡ true
    → (rest : List String) × (split b'/' path ≡ split b'/' (trim_slash prefix) ++ rest)
unfolding under
under-elements path prefix closed h =
    elim (or-eq-true (path == trim_slash prefix) (starts_with path prefix) h) [
      | inl same ↦ (
        [],
        ap (λ s. split b'/' s) ((eq_iff path (trim_slash prefix)).0 same)
            ∙ sym (append-nil (split b'/' (trim_slash prefix))),
      )
      | inr starts ↦
          let found = (starts_with_iff path prefix).0 starts in
          (
            split b'/' found.0,
            ap (λ s. split b'/' s)
                  (sym found.1
                    ∙ split-prefix (trim_slash prefix) prefix found.0 (slash-trim prefix closed))
                ∙ split-slash (trim_slash prefix) found.0,
          )
    ]

elements-under :
    (path prefix : String) (rest : List String)
    → ends_with_slash prefix ≡ true
    → split b'/' path ≡ split b'/' (trim_slash prefix) ++ rest
    → under path prefix ≡ true
unfolding under
elements-under path prefix [] closed h =
    rw
      (
        sym (join-split path)
            ∙ ap (λ l. join "/" l) (h ∙ append-nil (split b'/' (trim_slash prefix)))
            ∙ join-split (trim_slash prefix),
        ==_refl (trim_slash prefix),
      )
      refl
elements-under path prefix (r ∷ rs) closed h =
    let whole : prefix <> join "/" (r ∷ rs) ≡ path =
      split-prefix (trim_slash prefix) prefix (join "/" (r ∷ rs)) (slash-trim prefix closed)
      ∙ ap (λ t. t <> "/" <> join "/" (r ∷ rs)) (sym (join-split (trim_slash prefix)))
      ∙ sym
          (join-append (split b'/' (trim_slash prefix)) r rs (split-Parts b'/' (trim_slash prefix)))
      ∙ ap (λ l. join "/" l) (sym h)
      ∙ join-split path in
    rw ((starts_with_iff path prefix).1 (join "/" (r ∷ rs), whole))
      (or-true (path == trim_slash prefix))

not_blank :
    (raw : String) → (normalize_path_prefix raw == "") ≡ false → normalize_path_prefix raw ≢ ""
not_blank raw h e = cc ((eq_iff (normalize_path_prefix raw) "").1 e)

blank_not :
    (raw : String) → normalize_path_prefix raw ≢ "" → (normalize_path_prefix raw == "") ≡ false
blank_not raw h = elim (Bool-cases (normalize_path_prefix raw == "")) [
  | inl blank ↦ absurd (h ((eq_iff (normalize_path_prefix raw) "").0 blank))
  | inr shown ↦ shown
]

within-later :
    (blank inside : Bool) {b : Bool}
    → b ≡ true
    → (if blank then b else if inside then true else b) ≡ true
within-later true inside h = h
within-later false true h = refl
within-later false false h = h

within-Some :
    (path : String) (prefixes : List String)
    → within_any path prefixes ≡ true
    → BeneathSome path prefixes
unfolding within_any Beneath
within-Some path [] h = cc
within-Some path (raw ∷ rest) h = elim (Bool-cases (normalize_path_prefix raw == "")) [
  | inl blank ↦ later (within-Some path rest (sym (rw blank refl) ∙ h))
  | inr shown ↦ elim (Bool-cases (under path (normalize_path_prefix raw))) [
    | inl inside ↦
        let found =
          under-elements path (normalize_path_prefix raw)
            (normalize-slash raw (not_blank raw shown)) inside in
        here (not_blank raw shown, found.0, found.1)
    | inr outside ↦ later (within-Some path rest (sym (rw (shown, outside) refl) ∙ h))
  ]
]

Some-within :
    (path : String) (prefixes : List String)
    → BeneathSome path prefixes
    → within_any path prefixes ≡ true
unfolding within_any Beneath
Some-within path [] b = elim b [ ]
Some-within path (raw ∷ rest) (here b) =
    rw
      (
        blank_not raw b.0,
        elements-under path (normalize_path_prefix raw) b.1 (normalize-slash raw b.0) b.2,
      )
      refl
Some-within path (raw ∷ rest) (later b) =
    within-later (normalize_path_prefix raw == "") (under path (normalize_path_prefix raw))
      (Some-within path rest b)

-- pathWithinAnyPrefix answers true exactly where, for some prefix that is not empty when normalized,
-- the elements of that prefix are the first elements of the cleaned path.
pub path_within_any_prefix_iff :
    (path : String) (prefixes : List String)
    → (path_within_any_prefix path prefixes ≡ true) ↔ BeneathSome (clean path) prefixes
unfolding path_within_any_prefix
path_within_any_prefix_iff path prefixes =
    (within-Some (clean path) prefixes, Some-within (clean path) prefixes)
