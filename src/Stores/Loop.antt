-- ===== src/Stores/Loop.antt =====
-- The two loops of the item stores: append a checked item, and rewrite the first item with a key.
use layeros.Base.{
  String, ◌≡◌, refl, some, List, [], ◌∷◌, ◌++◌, Result, ok, err, ◌>>=◌, ◌>>◌, arith, if◌then◌else◌,
  ◌==◌, find_by, replace_by, Bool-cases, inl, inr, >>=-eq-ok,
}

module _ {ℓ} {A : Type ℓ} where
  -- `if err := item.Validate(); err != nil { return err }; s.items = append(s.items, item)`
  unfoldable pub create_checked : (A → Result (Unit {0})) → A → List A → Result (List A)
  create_checked validate item items = do validate item; ok (items ++ item ∷ [])

  -- `for index, item := range s.items { if key(item) == id { …; s.items[index] = item } }`
  unfoldable pub update_first :
      (A → String) → String → String → (A → Result A) → List A → Result (A × List A)
  update_first key id missing f [] = err missing
  update_first key id missing f (x ∷ xs) =
      let rest = update_first key id missing f xs in
      if key x == id then (do y ← f x; ok (y, y ∷ xs)) else (do r ← rest; ok (r.0, x ∷ r.1))

  -- The new store is the old one and the item, which passed its check.
  pub create_checked-eq-ok :
      (validate : A → Result (Unit {0})) (item : A) (xs : List A) {ys : List A}
      → create_checked validate item xs ≡ ok ys
      → (validate item ≡ ok tt) × (ys ≡ xs ++ item ∷ [])
  unfolding create_checked
  create_checked-eq-ok validate item xs h = ground arith

  -- A successful rewrite found its item, and replaced it by what the body made of it.
  pub update_first-eq-ok :
      (key : A → String) (id missing : String) (f : A → Result A) (xs : List A) {y : A}
      {ys : List A}
      → update_first key id missing f xs ≡ ok (y, ys)
      → (x : A) × (find_by key id xs ≡ some x) × (f x ≡ ok y) × (ys ≡ replace_by key id y xs)
  unfolding update_first
  update_first-eq-ok key id missing f [] h = cc
  update_first-eq-ok key id missing f (x ∷ xs) {y = y} {ys = ys} h =
      elim (Bool-cases (key x == id)) [
        | inl e ↦
            let (z, made, same) = >>=-eq-ok (f x) (λ y. ok (y, y ∷ xs)) (rw e at h) in
            (x, rw e refl, ground (arith), rw e (ground arith))
        | inr e ↦
            let (r, made, same) =
              >>=-eq-ok (update_first key id missing f xs) (λ r. ok (r.0, x ∷ r.1)) (rw e at h) in
            let (w, found, changed, put) =
              update_first-eq-ok key id missing f xs {y = r.0} {ys = r.1} made in
            (w, rw e found, ground arith, rw e (ground arith))
      ]
