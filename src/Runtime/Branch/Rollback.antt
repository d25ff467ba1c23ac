-- ===== src/Runtime/Branch/Rollback.antt =====
-- An error of the methods on branches leaves the stores as they were.
use layeros.Base.{String, ◌≡◌, ap, Option, some, List}
use layeros.Types.Work.{Branch}
use layeros.Stores.Branches.{normalize_branch, create_branch_item, merge_branch_item}
use layeros.Env.{Env, Domain}
use layeros.State.{Service, Saved}
use layeros.Runtime.{restored_events}
use layeros.Runtime.Intact.{
  Intact, Intact-refl, checked-Intact, finish_plain-error, finish_guarded-error,
  restore_events-same, Undoes,
}
use layeros.Runtime.Room.{auto_open, restored_room}
use layeros.Runtime.Room.Opened.{auto_open-Between}
use layeros.Runtime.Branch.{create_branch, merge_branch, merge_item, with_root, own_root}

module _ (encode : (d : Domain) → Saved d → String) (env : Env) (s : Service) (e : String) where
  -- An error of CreateBranch leaves every store in memory as it was.
  pub create_branch-atomic :
      (item : Branch)
      → (create_branch encode env item s).1 ≡ some e
      → Intact s (create_branch encode env item s).0
  unfolding create_branch
  create_branch-atomic raw =
      checked-Intact s (with_root (normalize_branch env.now raw) s.branches) _ e (λ item _.
        checked-Intact s (create_branch_item env.now (own_root item) s.branches) _ e (λ branches _.
          finish_plain-error encode env s (record s { branches = branches }) _
            (λ t. record t { branches = s.branches }) _ e (λ _. Intact-refl s)
            (λ v h. record {
              stores = ap (λ t. restored_events env s (record t { branches = s.branches })) h.same;
              evidence = restore_events-same env.event_retention s.events;
            })))

  undo_merge-Undoes :
      (branches : List Branch)
      → Undoes s
          (record s { branches = branches })
          (λ t. restored_room env s (restored_events env s (record t { branches = s.branches })))
  undo_merge-Undoes branches v h = record {
    stores =
        ap (λ t. restored_room env s (restored_events env s (record t { branches = s.branches })))
          h.same;
    evidence = restore_events-same env.event_retention s.events;
  }

  -- An error of MergeBranch leaves every store in memory as it was.
  pub merge_branch-atomic :
      (branch_id target_branch_id : String) (notes : Option (List String))
      → (merge_branch encode env branch_id target_branch_id notes s).1 ≡ some e
      → Intact s (merge_branch encode env branch_id target_branch_id notes s).0
  unfolding merge_branch
  merge_branch-atomic branch_id target_branch_id notes =
      checked-Intact s (merge_branch_item branch_id target_branch_id notes env.now s.branches) _ e
        (λ r _.
          finish_guarded-error encode env s (record s { branches = r.1 }) _
            (auto_open env (merge_item env.now r.0 target_branch_id))
            (λ t. record t { branches = s.branches }) _ e (auto_open-Between env _)
            (λ _. Intact-refl s) (undo_merge-Undoes r.1))
