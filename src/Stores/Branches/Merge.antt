-- ===== src/Stores/Branches/Merge.antt =====
-- What a merge of branches has checked, and what it changes.
use mathlib.Core.Path.{subst}
use Prim.Native.Nat.{zero, suc}
use layeros.Base.{
  ℕ, ◌+◌, String, Bool, true, false, ◌≡◌, refl, sym, ap, ◌∙◌, Option, none, some, List, [], ◌∷◌,
  Result, ok, err, ◌>>=◌, ◌>>◌, >>=-eq-ok, ok_inj, arith, Bool-cases, inl, inr, if◌then◌else◌, ◌==◌,
}
use layeros.Text.{trim_space}
use layeros.Types.Vocabulary.{Time, items}
use layeros.Types.Work.{Branch, validate_branch}
use layeros.Stores.Branches.{
  Places, merge_places, get_elem?, set, merged, merge_at, merge_branch_item,
}

-- a place of the list that has a branch with an identifier
pub record Place (bs : List Branch) (id : String) (i : ℕ) : Type 0 where
  pub branch : Branch
  pub at : get_elem? bs i ≡ some branch
  pub named : (branch.branch_id == id) ≡ true

PlaceIf : (ℕ → Type 0) → Option ℕ → Type 0
PlaceIf P none = Unit {0}
PlaceIf P (some i) = P i

here : (P : ℕ → Type 0) (i : ℕ) → P i → PlaceIf P (some i)
unfolding PlaceIf
here P i p = p

there : (P : ℕ → Type 0) (i : ℕ) → PlaceIf P (some i) → P i
unfolding PlaceIf
there P i p = p

nowhere : (P : ℕ → Type 0) → PlaceIf P none
unfolding PlaceIf
nowhere P = tt

next_place :
    (bs : List Branch) (b : Branch) (id : String) (P : ℕ → Type 0) (index : ℕ)
    → ((j : ℕ) → Place (b ∷ bs) id j → P (index + j))
    → (j : ℕ) → Place bs id j
    → P (suc index + j)
next_place bs b id P index h j p =
    subst P (omega arith) (h (suc j) (record { branch = p.branch; at = p.at; named = p.named }))

-- what the loop finds is a place of the list
merge_places-Place :
    (source target : String) (P Q : ℕ → Type 0) (index : ℕ) (places : Places) (bs : List Branch)
    → ((j : ℕ) → Place bs source j → P (index + j))
    → ((j : ℕ) → Place bs target j → Q (index + j))
    → PlaceIf P places.0 × PlaceIf Q places.1
    → PlaceIf P (merge_places source target index places bs).0
      × PlaceIf Q (merge_places source target index places bs).1
unfolding merge_places
merge_places-Place source target P Q index places [] h k start = start
merge_places-Place source target P Q index places (b ∷ bs) h k start =
    elim (Bool-cases (b.branch_id == source)) [
      | inl is_source ↦
          rw (is_source, merge_places)
            (merge_places-Place source target P Q (suc index) (some index, places.1) bs
              (next_place bs b source P index h) (next_place bs b target Q index k)
              (
                here P index (
                    subst P (omega arith)
                      (h zero (record { branch = b; at = refl; named = is_source }))),
                start.1,
              ))
      | inr not_source ↦ elim (Bool-cases (b.branch_id == target)) [
        | inl is_target ↦
            rw (not_source, is_target, merge_places)
              (merge_places-Place source target P Q (suc index) (places.0, some index) bs
                (next_place bs b source P index h) (next_place bs b target Q index k)
                (
                  start.0,
                  here Q index (
                      subst Q (omega arith)
                        (k zero (record { branch = b; at = refl; named = is_target }))),
                ))
        | inr not_target ↦
            rw (not_source, not_target, merge_places)
              (merge_places-Place source target P Q (suc index) places bs
                (next_place bs b source P index h) (next_place bs b target Q index k) start)
      ]
    ]

-- what an answer of a test and its two branches tells
if_err-eq-ok :
    {A : Type 0} (b : Bool) (x : String) (m : Result A) (r : A)
    → (if b then err x else m) ≡ ok r
    → (b ≡ false) × (m ≡ ok r)
if_err-eq-ok true x m r h = cc
if_err-eq-ok false x m r h = (refl, h)

else_err-eq-ok :
    {A : Type 0} (b : Bool) (x : String) (m : Result A) (r : A)
    → (if b then m else err x) ≡ ok r
    → (b ≡ true) × (m ≡ ok r)
else_err-eq-ok true x m r h = (refl, h)
else_err-eq-ok false x m r h = cc

-- what the body of a merge makes of a branch
pub IsMerged : String → Time → Branch → Branch → Type 0
IsMerged target now b y =
    ((b.status == "active") ≡ true)
    × (y.status ≡ "merged")
    × (y.merge_target_branch_id ≡ some target)
    × (y.merged_at ≡ some now)
    × (y.branch_id ≡ b.branch_id)
    × (y.root_branch_id ≡ b.root_branch_id)

after_check-eq-ok :
    {A : Type 0} (r : Result (Unit {0})) (m : Result A) (y : A) → (r >> m) ≡ ok y → m ≡ ok y
after_check-eq-ok (err x) m y h = cc
after_check-eq-ok (ok v) m y h = h

merged-IsMerged :
    (target : String) (notes : Option (List String)) (now : Time) (b y : Branch)
    → merged target notes now b ≡ ok y
    → IsMerged target now b y
unfolding merged IsMerged
merged-IsMerged target notes now b y h =
    let (active, h1) = else_err-eq-ok (b.status == "active") _ _ y h in
    let b' = record b {
      status = "merged";
      merge_target_branch_id = some target;
      merged_at = some now;
      updated_at = now;
      notes = some (items notes);
    } in
    let p : b' ≡ y = ok_inj (after_check-eq-ok (validate_branch b') (ok b') y h1) in
    (
      active,
      sym (ap (λ (c : Branch). c.status) p),
      sym (ap (λ (c : Branch). c.merge_target_branch_id) p),
      sym (ap (λ (c : Branch). c.merged_at) p),
      sym (ap (λ (c : Branch). c.branch_id) p),
      sym (ap (λ (c : Branch). c.root_branch_id) p),
    )

-- A merge: an active branch, at a place that the source names, has become a merged one with the
-- target, which names another branch of the list; no other branch has changed.
pub record Merge (source target : String) (now : Time) (bs : List Branch) (r : Branch × List Branch)
    : Type 0 where
  pub index : ℕ
  pub from : Place bs source index
  pub target_index : ℕ
  pub into : Place bs target target_index
  pub apart : (source == target) ≡ false
  pub is_merged : IsMerged target now from.branch r.0
  pub others : r.1 ≡ set bs index r.0

merge_at-Merge :
    (source target : String) (notes : Option (List String)) (now : Time) (bs : List Branch)
    (places : Places) (r : Branch × List Branch)
    → PlaceIf (Place bs source) places.0 × PlaceIf (Place bs target) places.1
    → merge_at source target notes now bs places ≡ ok r
    → Merge source target now bs r
unfolding merge_at PlaceIf
merge_at-Merge source target notes now bs (none, t) r found h = cc
merge_at-Merge source target notes now bs (some i, none) r found h = cc
merge_at-Merge source target notes now bs (some i, some j) r (from, into) h =
    let (apart, h1) = if_err-eq-ok (source == target) _ _ r h in
    let (y, done, same) =
      >>=-eq-ok (merged target notes now from.branch) _ (subst (Merges r) from.at h1) in
    let p = ok_inj same in
    record {
      index = i;
      from = from;
      target_index = j;
      into = into;
      apart = apart;
      is_merged =
          subst (IsMerged target now from.branch) (ap (λ (c : Branch × List Branch). c.0) p)
            (merged-IsMerged target notes now from.branch y done);
      others =
          sym (ap (λ (c : Branch × List Branch). c.1) p)
          ∙ ap (λ (c : Branch × List Branch). set bs i c.0) p;
    }
  where
    Merges : Branch × List Branch → Option Branch → Type 0
    Merges r o =
        (elim o [
          | none ↦ err "branch_id not found"
          | some b ↦ do item ← merged target notes now b; ok (item, set bs i item)
        ])
        ≡ ok r

-- A merge that the store accepts has found the source and the target, which are not the same
-- identifier; the branch it takes was active and is merged with the target now, under its own
-- identifier and root, and the other branches are as they were.
pub merge_branch_item-Merge :
    (branch_id target_branch_id : String) (notes : Option (List String)) (now : Time)
    (bs : List Branch) (r : Branch × List Branch)
    → merge_branch_item branch_id target_branch_id notes now bs ≡ ok r
    → Merge (trim_space branch_id) (trim_space target_branch_id) now bs r
unfolding merge_branch_item
merge_branch_item-Merge branch_id target_branch_id notes now bs r h =
    let source = trim_space branch_id in
    let target = trim_space target_branch_id in
    merge_at-Merge source target notes now bs (merge_places source target 0 (none, none) bs) r
      (merge_places-Place source target (Place bs source) (Place bs target) 0 (none, none) bs
        (λ j p. subst (Place bs source) (omega arith) p)
        (λ j p. subst (Place bs target) (omega arith) p)
        (nowhere (Place bs source), nowhere (Place bs target)))
      h
