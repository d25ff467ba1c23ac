-- ===== src/Base/Lists.antt =====
-- Lists measured by native numbers, and the loops that every item store of the runtime shares.
use Prim.Native.Nat.{ℕ, zero, suc, ◌+◌, ◌-◌, min}
use Prim.Native.String.{String}
use mathlib.Core.Path.{◌≡◌, refl, ap}
use mathlib.Core.Logic.{inl, inr}
use mathlib.Core.List.{List, [], ◌∷◌, ◌++◌}
use mathlib.Core.Option.{Option, none, some}
use native.Mathlib.Omega.{arith}
use text.Mathlib.Text.{◌==◌}
use text.Mathlib.TextEquality.{eq_iff}
use layeros.Base.Tests.{if◌then◌else◌, Bool-cases}

module _ {ℓ} {A : Type ℓ} where
  abbrev pub length : List A → ℕ
  length [] = 0
  length (x ∷ xs) = suc (length xs)

  abbrev pub take : ℕ → List A → List A
  take zero xs = []
  take (suc n) [] = []
  take (suc n) (x ∷ xs) = x ∷ take n xs

  abbrev pub drop : ℕ → List A → List A
  drop zero xs = xs
  drop (suc n) [] = []
  drop (suc n) (x ∷ xs) = drop n xs

  pub length-append : (xs ys : List A) → length (xs ++ ys) ≡ length xs + length ys
  length-append [] ys = omega arith
  length-append (x ∷ xs) ys = omega (arith, length-append xs ys)

  pub take-append-drop : (n : ℕ) (xs : List A) → take n xs ++ drop n xs ≡ xs
  take-append-drop zero xs = refl
  take-append-drop (suc n) [] = refl
  take-append-drop (suc n) (x ∷ xs) = ap (◌∷◌ x) (take-append-drop n xs)

  pub length-take : (n : ℕ) (xs : List A) → length (take n xs) ≡ min n (length xs)
  length-take zero xs = omega arith
  length-take (suc n) [] = omega arith
  length-take (suc n) (x ∷ xs) = omega (arith, length-take n xs)

  pub length-drop : (n : ℕ) (xs : List A) → length (drop n xs) ≡ length xs - n
  length-drop zero xs = omega arith
  length-drop (suc n) [] = omega arith
  length-drop (suc n) (x ∷ xs) = omega (arith, length-drop n xs)

  -- Every item of a list has a property.
  abbrev pub All {κ} : (A → Type κ) → List A → Type κ
  All P [] = Unit
  All P (x ∷ xs) = P x × All P xs

module _ {ℓ κ} {A : Type ℓ} (P : A → Type κ) where
  pub All-append : (xs ys : List A) → All P xs → All P ys → All P (xs ++ ys)
  All-append [] ys hx hy = hy
  All-append (x ∷ xs) ys hx hy = (hx.0, All-append xs ys hx.1 hy)

  pub All-snoc : (xs : List A) (x : A) → All P xs → P x → All P (xs ++ x ∷ [])
  All-snoc [] x hx h = (h, tt)
  All-snoc (y ∷ ys) x hx h = (hx.0, All-snoc ys x hx.1 h)

  pub All-mono {ι} : {Q : A → Type ι} (xs : List A) → ((x : A) → P x → Q x) → All P xs → All Q xs
  All-mono [] f h = tt
  All-mono (x ∷ xs) f h = (f x h.0, All-mono xs f h.1)

-- `for _, item := range s.items { if item.ID == id { return item, true } }`
module _ {ℓ} {A : Type ℓ} (key : A → String) where
  abbrev pub find_by : String → List A → Option A
  find_by id [] = none
  find_by id (x ∷ xs) = if key x == id then some x else find_by id xs

  -- The same loop where it replaces the item it meets, and reports whether it met one.
  abbrev pub replace_by : String → A → List A → List A
  replace_by id v [] = []
  replace_by id v (x ∷ xs) = if key x == id then v ∷ xs else x ∷ replace_by id v xs

  pub find_by-key : (id : String) (xs : List A) {x : A} → find_by id xs ≡ some x → key x ≡ id
  find_by-key id [] h = cc
  find_by-key id (x ∷ xs) {x = y} h = ground (arith, eq_iff (key x) id, find_by-key id xs {x = y})

  pub find_by-All {κ} :
      (P : A → Type κ) (id : String) (xs : List A) {x : A} → All P xs → find_by id xs ≡ some x → P x
  find_by-All P id [] a h = cc
  find_by-All P id (x ∷ xs) a h = elim (Bool-cases (key x == id)) [
    | inl e ↦ let h' = rw e at h in rw (← (some_inj h')) a.0
    | inr e ↦ find_by-All P id xs a.1 (rw e at h)
  ]
    where
      some_inj : {a b : A} → some a ≡ some b → a ≡ b
      some_inj p = cc

  -- An item that is appended is found where no earlier item has its key.
  pub find_by-snoc :
      (id : String) (xs : List A) (v : A)
      → find_by id (xs ++ v ∷ [])
        ≡ elim (find_by id xs) [ none ↦ if key v == id then some v else none | some x ↦ some x ]
  find_by-snoc id [] v = ground arith
  find_by-snoc id (x ∷ xs) v = ground (arith, find_by-snoc id xs v)

  pub length-replace_by :
      (id : String) (v : A) (xs : List A) → length (replace_by id v xs) ≡ length xs
  length-replace_by id v [] = refl
  length-replace_by id v (x ∷ xs) = ground (arith, length-replace_by id v xs)

  -- A replaced item is what its key now finds; every other key finds what it found.
  pub find_by-replace_by :
      (id j : String) (v : A) (xs : List A)
      → key v ≡ id
      → find_by j (replace_by id v xs)
        ≡ (if id == j then elim (find_by id xs) [ none ↦ none | some _ ↦ some v ] else find_by j xs)
  find_by-replace_by id j v [] e = ground arith
  find_by-replace_by id j v (x ∷ xs) e = ground (
    arith,
    eq_iff (key x) id,
    eq_iff (key x) j,
    eq_iff (key v) j,
    eq_iff id j,
    find_by-replace_by id j v xs e,
  )

  pub All-replace_by {κ} :
      (P : A → Type κ) (id : String) (v : A) (xs : List A)
      → P v
      → All P xs
      → All P (replace_by id v xs)
  All-replace_by P id v [] p a = tt
  All-replace_by P id v (x ∷ xs) p a = elim (Bool-cases (key x == id)) [
    | inl e ↦ rw e (p, a.1)
    | inr e ↦ rw e (a.0, All-replace_by P id v xs p a.1)
  ]
