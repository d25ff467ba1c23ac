-- ===== src/Runtime/Jobs/Evidence/Named.antt =====
-- The paths that a report names: what holds of each of them holds of what service_job_report.go collects,
-- and back.
use package.text.Mathlib.TextLemmas.{append_cancel_left, append_assoc, append_inj}
use layeros.Base.{
  String, Bool, true, false, ◌≡◌, refl, ◌∙◌, sym, Option, some, none, List, [], ◌∷◌, ◌++◌, All, ◌↔◌,
  ap, inl, inr, Bool-cases, ◌==◌, eq_iff,
}
use layeros.Text.{◌<>◌}
use layeros.Json.{Fields, get}
use layeros.Runtime.Jobs.{result_string}
use layeros.Runtime.Jobs.Evidence.{
  EvidenceKind, repo, abs, PathEvidence, result_string_list, classify_path_evidence, key, has_key,
  added, add_each, collect_path_evidence,
}

-- a property of what a path is classified as, where it is not left aside
abbrev pub OnSome : (PathEvidence → Type 0) → Option PathEvidence → Type 0
OnSome P none = Unit {0}
OnSome P (some ref) = P ref

-- of each path of a list
abbrev pub Each : (PathEvidence → Type 0) → Bool → List String → Type 0
Each P repo_scoped raws = All (λ raw. OnSome P (classify_path_evidence raw repo_scoped)) raws

-- of each path that a result names: under the five keys of paths of the repository, and under
-- artifact_path, which may also name something else
pub record EachNamed (P : PathEvidence → Type 0) (result : Fields) : Type 0 where
  pub changed : Each P true (result_string_list (get "changed_paths" result))
  pub touched : Each P true (result_string_list (get "touched_paths" result))
  pub artifacts : Each P true (result_string_list (get "artifact_relative_paths" result))
  pub artifact : Each P true (result_string (get "artifact_relative_path" result) ∷ [])
  pub artifact_path : Each P false (result_string (get "artifact_path" result) ∷ [])

apart : ¬ (true ≡ false)
apart h = cc

-- the words of the two kinds differ in their first three letters
kinds_apart : (x y : String) → ¬ ("repo" <> x ≡ "abs" <> y)
kinds_apart x y h =
    let split : "repo" <> x ≡ "rep" <> ("o" <> x) = append_assoc "rep" "o" x in
    let words =
      append_inj {s₁ = "rep"} {s₂ = "abs"} {t₁ = "o" <> x} {t₂ = y} (sym split ∙ h) refl in
    apart (ap (λ s. s == "rep") words.0)

keys_same :
    (raw raw' path path' : String) (k k' : EvidenceKind)
    → key (record { raw = raw; path = path; kind = k })
      ≡ key (record { raw = raw'; path = path'; kind = k' })
    → (k ≡ k') × (path ≡ path')
keys_same raw raw' path path' repo repo h =
    (refl, append_cancel_left "::" path path' (append_cancel_left "repo" _ _ h))
keys_same raw raw' path path' abs abs h =
    (refl, append_cancel_left "::" path path' (append_cancel_left "abs" _ _ h))
keys_same raw raw' path path' repo abs h = elim (kinds_apart _ _ h) [ ]
keys_same raw raw' path path' abs repo h = elim (kinds_apart _ _ (sym h)) [ ]

-- where a property reads the kind and the path alone, the first of a key stands for all
module _ (P : PathEvidence → Type 0)
    (by_path : (a b : PathEvidence) → a.kind ≡ b.kind → a.path ≡ b.path → P a → P b) where
  has_key-All :
      (ref : PathEvidence) (refs : List PathEvidence)
      → has_key (key ref) refs ≡ true
      → All P refs
      → P ref
  unfolding has_key
  has_key-All ref [] h all = cc
  has_key-All ref (x ∷ xs) h all = elim (Bool-cases (key x == key ref)) [
    | inl same ↦
        let parts =
          keys_same x.raw ref.raw x.path ref.path x.kind ref.kind
            ((eq_iff (key x) (key ref)).0 same) in
        by_path x ref parts.0 parts.1 all.0
    | inr other ↦ has_key-All ref xs (rw other at h) all.1
  ]

  All-last :
      (refs : List PathEvidence) (ref : PathEvidence)
      → All P (refs ++ ref ∷ []) ↔ (All P refs × P ref)
  All-last [] ref = (λ h. (tt, h.0), λ h. (h.1, tt))
  All-last (x ∷ xs) ref =
      let rest = All-last xs ref in
      (λ h. ((h.0, (rest.0 h.1).0), (rest.0 h.1).1), λ h. ((h.0).0, rest.1 ((h.0).1, h.1)))

  added_iff :
      (o : Option PathEvidence) (refs : List PathEvidence)
      → All P (added o refs) ↔ (All P refs × OnSome P o)
  unfolding added
  added_iff none refs = (λ h. (h, tt), λ h. h.0)
  added_iff (some ref) refs = elim (Bool-cases (has_key (key ref) refs)) [
    | inl known ↦ rw known (λ h. (h, has_key-All ref refs known h), λ h. h.0)
    | inr fresh ↦ rw fresh (All-last refs ref)
  ]

  add_each_iff :
      (raws : List String) (repo_scoped : Bool) (refs : List PathEvidence)
      → All P (add_each raws repo_scoped refs) ↔ (All P refs × Each P repo_scoped raws)
  unfolding add_each
  add_each_iff [] repo_scoped refs = (λ h. (h, tt), λ h. h.0)
  add_each_iff (raw ∷ raws) repo_scoped refs =
      let one = added_iff (classify_path_evidence raw repo_scoped) refs in
      let rest =
        add_each_iff raws repo_scoped (added (classify_path_evidence raw repo_scoped) refs) in
      (
        λ h. let both = rest.0 h in let first = one.0 both.0 in (first.0, (first.1, both.1)),
        λ h. rest.1 (one.1 (h.0, (h.1).0), (h.1).1),
      )

  pub collect_iff : (result : Fields) → All P (collect_path_evidence result) ↔ EachNamed P result
  unfolding collect_path_evidence
  collect_iff result =
      let a = add_each_iff (result_string_list (get "changed_paths" result)) true [] in
      let b = add_each_iff (result_string_list (get "touched_paths" result)) true _ in
      let c = add_each_iff (result_string_list (get "artifact_relative_paths" result)) true _ in
      let d = add_each_iff (result_string (get "artifact_relative_path" result) ∷ []) true _ in
      let e = add_each_iff (result_string (get "artifact_path" result) ∷ []) false _ in
      (
        λ h.
            let h1 = e.0 h in
            let h2 = d.0 h1.0 in
            let h3 = c.0 h2.0 in
            let h4 = b.0 h3.0 in
            record {
              changed = (a.0 h4.0).1;
              touched = h4.1;
              artifacts = h3.1;
              artifact = h2.1;
              artifact_path = h1.1;
            },
        λ n. e.1 (
          d.1 (c.1 (b.1 (a.1 (tt, n.changed), n.touched), n.artifacts), n.artifact),
          n.artifact_path,
        ),
      )
