-- ===== src/Stores/Branches.antt =====
-- internal/runtime/branch.go, and `normalizeRef` of internal/runtime/service.go
pub mod Merge
use Prim.Native.Nat.{zero, suc}
use layeros.Base.{
  ℕ, String, Bool, false, ◌||◌, Option, some, none, List, [], ◌∷◌, ◌++◌, Result, ok, err, ◌>>=◌,
  ◌>>◌, reject_if, if◌then◌else◌, ◌==◌, find_by,
}
use layeros.Text.{trim_space, is_blank}
use layeros.Types.Vocabulary.{Time, items, is_zero}
use layeros.Types.Work.{Branch, validate_branch}
use layeros.Stores.Loop.{update_first}

unfoldable pub normalize_ref : Option String → Option String
normalize_ref none = none
normalize_ref (some ref) = if is_blank ref then none else some (trim_space ref)

-- `if item.F == "" { item.F = other }`
abbrev pub or_text : String → String → String
or_text s other = if s == "" then other else s

abbrev pub or_time : Time → Time → Time
or_time t other = if is_zero t then other else t

unfoldable pub normalize_branch : Time → Branch → Branch
unfolding normalize_ref
normalize_branch now item = record item {
  root_branch_id = or_text item.root_branch_id item.branch_id;
  summary = or_text item.summary item.title;
  stage = or_text item.stage "compose";
  surface = or_text item.surface "api";
  status = or_text item.status "active";
  notes = some (items item.notes);
  created_at = or_time item.created_at now;
  updated_at = or_time item.updated_at (or_time item.created_at now);
  parent_branch_id = normalize_ref item.parent_branch_id;
  basis_ref = normalize_ref item.basis_ref;
  merge_target_branch_id = normalize_ref item.merge_target_branch_id;
}

unfoldable pub get_branch : String → List Branch → Option Branch
get_branch branch_id = find_by (λ b. b.branch_id) (trim_space branch_id)

unfoldable pub has_branch : String → List Branch → Bool
has_branch id [] = false
has_branch id (b ∷ bs) = b.branch_id == id || has_branch id bs

unfoldable pub create_branch_item : Time → Branch → List Branch → Result (List Branch)
unfolding has_branch
create_branch_item now branch bs = do
  let item = normalize_branch now branch
  validate_branch item
  reject_if (has_branch item.branch_id bs) "branch_id already exists"
  ok (bs ++ item ∷ [])

unfoldable pub update_branch_item : Time → Branch → List Branch → Result (Branch × List Branch)
update_branch_item now branch bs = do
  let item = normalize_branch now branch
  validate_branch item
  update_first (λ b. b.branch_id) item.branch_id "branch_id not found" (λ _. ok item) bs

-- The loop of `merge`: the last place of the source and of the target, the source tested first.
abbrev pub Places : Type 0
Places = Option ℕ × Option ℕ

unfoldable pub merge_places : String → String → ℕ → Places → List Branch → Places
merge_places source target index places [] = places
merge_places source target index places (b ∷ bs) =
    merge_places source target (suc index)
      (if b.branch_id == source
        then (some index, places.1)
        else if b.branch_id == target
        then (places.0, some index)
        else places)
      bs

abbrev pub get_elem? {ℓ} : {A : Type ℓ} → List A → ℕ → Option A
get_elem? [] i = none
get_elem? (x ∷ xs) zero = some x
get_elem? (x ∷ xs) (suc i) = get_elem? xs i

abbrev pub set {ℓ} : {A : Type ℓ} → List A → ℕ → A → List A
set [] i v = []
set (x ∷ xs) zero v = v ∷ xs
set (x ∷ xs) (suc i) v = x ∷ set xs i v

-- the body of `merge` behind its tests
unfoldable pub merged : String → Option (List String) → Time → Branch → Result Branch
merged target notes now item =
    if item.status == "active"
    then (do
      let item' = record item {
        status = "merged";
        merge_target_branch_id = some target;
        merged_at = some now;
        updated_at = now;
        notes = some (items notes);
      }
      validate_branch item'
      ok item')
    else err "branch must be active before merge"

merge_at :
    String
    → String
    → Option (List String)
    → Time
    → List Branch
    → Places
    → Result (Branch × List Branch)
merge_at source target notes now bs (none, _) = err "branch_id not found"
merge_at source target notes now bs (some s, none) = err "merge target branch_id not found"
merge_at source target notes now bs (some s, some t) =
    if source == target
    then err "branch merge target must differ from branch_id"
    else elim (get_elem? bs s) [
      | none ↦ err "branch_id not found"
      | some b ↦ do item ← merged target notes now b; ok (item, set bs s item)
    ]

unfoldable pub merge_branch_item :
    String → String → Option (List String) → Time → List Branch → Result (Branch × List Branch)
unfolding merge_places merge_at merged
merge_branch_item branch_id target_branch_id notes now bs =
    let source = trim_space branch_id in
    let target = trim_space target_branch_id in
    merge_at source target notes now bs (merge_places source target 0 (none, none) bs)
