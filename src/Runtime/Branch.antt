-- ===== src/Runtime/Branch.antt =====
-- internal/runtime/service_branch.go
pub mod Rollback
use layeros.Base.{String, not, Option, some, none, List, [], ◌∷◌, Result, ok, err}
use layeros.Text.{◌<>◌, trim_space}
use layeros.Json.{texts}
use layeros.Types.Vocabulary.{Time}
use layeros.Types.Work.{Branch}
use layeros.Types.Review.{ReviewRoomItem}
use layeros.Stores.Branches.{
  normalize_branch, get_branch, create_branch_item, merge_branch_item, or_text,
}
use layeros.Review.Items.{new_structured_item}
use layeros.Env.{Env, Domain}
use layeros.State.{Service, Saved}
use layeros.Persist.{Outcome}
use layeros.Runtime.{checked, on_error, service_event, finish, no_more, restored_events}
use layeros.Runtime.Room.{auto_open, restored_room}

-- a branch with a parent has the parent's root
rooted : Branch → Option Branch → Result Branch
rooted item none = err "branch parent_branch_id not found"
rooted item (some parent) = ok (record item { root_branch_id = parent.root_branch_id })

unfoldable pub with_root : Branch → List Branch → Result Branch
unfolding rooted
with_root item branches = elim (item.parent_branch_id) [
  | none ↦ ok item
  | some parent ↦ rooted item (get_branch (trim_space parent) branches)
]

-- `if item.RootBranchID == "" { item.RootBranchID = item.BranchID }`
unfoldable pub own_root : Branch → Branch
own_root item = record item { root_branch_id = or_text item.root_branch_id item.branch_id }

unfoldable pub merge_item : Time → Branch → String → ReviewRoomItem
merge_item now updated target =
    let target' = trim_space target in
    new_structured_item now
      ("Branch `" <> updated.branch_id <> "` merged into `" <> target'
        <> "`; reconcile branch-bound proposal/job/work references before archival cleanup.")
      "agenda" "low" "branch.merge" (some ("branch:" <> updated.branch_id))
      (some (record {
        trigger = "branch.merged";
        reason =
            "merged branches should close their attached execution lane cleanly before archival cleanup";
        rule = "review_room.branch_merge_reconcile";
      }))
      (("branch:" <> updated.branch_id) ∷ ("merge_target:" <> target') ∷ [])

module _ (encode : (d : Domain) → Saved d → String) where
  unfoldable pub create_branch : Env → Branch → Service → Outcome
  create_branch env raw s =
      checked (with_root (normalize_branch env.now raw) s.branches) s (λ with_parent.
        let item = own_root with_parent in
        checked (create_branch_item env.now item s.branches) s (λ branches.
          finish encode env
            (service_event env "branch.created" item.surface item.branch_id item.stage (
              texts (
                ("branch_id", item.branch_id)
                ∷ ("root_branch_id", item.root_branch_id)
                ∷ ("status", item.status)
                ∷ ("title", item.title)
                ∷ [])))
            no_more (λ t. record t { branches = s.branches })
            (λ t. restored_events env s (record t { branches = s.branches }))
            (record s { branches = branches })))

  unfoldable pub merge_branch : Env → String → String → Option (List String) → Service → Outcome
  merge_branch env branch_id target_branch_id notes s =
      let undo_all = λ (t : Service).
        restored_room env s (restored_events env s (record t { branches = s.branches })) in
      checked (merge_branch_item branch_id target_branch_id notes env.now s.branches) s (λ r.
        let updated = r.0 in
        finish encode env
          (service_event env "branch.merged" updated.surface updated.branch_id updated.stage (
            texts (
              ("branch_id", updated.branch_id)
              ∷ ("merge_target_branch_id", trim_space target_branch_id)
              ∷ ("root_branch_id", updated.root_branch_id)
              ∷ ("status", updated.status)
              ∷ [])))
          (λ u. on_error (auto_open env (merge_item env.now updated target_branch_id) u) undo_all)
          (λ t. record t { branches = s.branches }) undo_all (record s { branches = r.1 }))
