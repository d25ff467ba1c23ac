-- ===== src/Runtime/Jobs/Evidence/Backed.antt =====
-- What a report whose paths pass the check of service_job_report.go has of them.
use package.text.Mathlib.Text.{starts_with}
use mathlib.Core.Path.{subst}
use layeros.Base.{
  String, Bool, true, false, not, ◌≡◌, ◌⊎◌, refl, Option, some, none, List, [], ◌∷◌, Result, ok,
  err, ◌>>◌, ◌&&◌, reject_if, inl, inr, All, some_inj, ap, sym, ◌∙◌, ◌↔◌, and-eq-true, not-eq-false,
  not-eq-true,
}
use layeros.Files.{clean, rel, path_within_any_prefix}
use layeros.Files.Within.{BeneathSome, path_within_any_prefix_iff}
use layeros.Runtime.Jobs.Evidence.{
  some_prefix, Repo, EvidenceKind, repo, abs, PathEvidence, relative_within, absolute_within,
  join_path, validate_ref, validate_refs,
}

-- what the lists of a job ask of a path of the repository
pub record Permitted (allowed blocked : List String) (path : String) : Type 0 where
  pub inside : (allowed ≡ []) ⊎ BeneathSome (clean path) allowed
  pub outside : ¬ BeneathSome (clean path) blocked

-- and of an absolute path
pub record PermittedAbs (root : String) (allowed blocked : List String) (path : String)
    : Type 0 where
  pub inside :
      (allowed ≡ [])
      ⊎ ((r : String) × (rel root path ≡ some r)
          × (starts_with r ".." ≡ false)
          × BeneathSome (clean r) allowed)
  pub outside :
      (r : String)
      → rel root path ≡ some r
      → starts_with r ".." ≡ false
      → ¬ BeneathSome (clean r) blocked

pub Backed : Repo → List String → List String → PathEvidence → EvidenceKind → Type 0
Backed disk allowed blocked ref repo =
    Permitted allowed blocked ref.path × (disk.exists (join_path disk.root ref.path) ≡ true)
Backed disk allowed blocked ref abs =
    PermittedAbs disk.root allowed blocked ref.path × (disk.exists ref.path ≡ true)

pub Backed-raw :
    (disk : Repo) (allowed blocked : List String) (raw raw' path : String) (k : EvidenceKind)
    → Backed disk allowed blocked (record { raw = raw; path = path; kind = k }) k
    → Backed disk allowed blocked (record { raw = raw'; path = path; kind = k }) k
unfolding Backed
Backed-raw disk allowed blocked raw raw' path repo h = h
Backed-raw disk allowed blocked raw raw' path abs h = h

on_right : {A B C : Type 0} → (B → C) → A ⊎ B → A ⊎ C
on_right f (inl a) = inl a
on_right f (inr b) = inr (f b)

accepts-inside :
    (allowed : List String) (b : Bool)
    → (some_prefix allowed && not b) ≡ false
    → (allowed ≡ []) ⊎ (b ≡ true)
accepts-inside [] b h = inl refl
accepts-inside (_ ∷ _) b h = inr (not-eq-false b h)

inside-accepts :
    (allowed : List String) (b : Bool)
    → (allowed ≡ []) ⊎ (b ≡ true)
    → (some_prefix allowed && not b) ≡ false
inside-accepts [] b h = refl
inside-accepts (x ∷ l) b (inl h) = cc h
inside-accepts (x ∷ l) b (inr h) = rw h refl

-- an absolute path is within where the relative path does not lead up and is within
relative_within_iff :
    (o : Option String) (prefixes : List String)
    → (relative_within o prefixes ≡ true) ↔ (
        (r : String) × (o ≡ some r) × (starts_with r ".." ≡ false) × BeneathSome (clean r) prefixes)
unfolding relative_within
relative_within_iff none prefixes = (λ h. cc, λ h. cc (h.1))
relative_within_iff (some r) prefixes = (
  λ h.
      let both = and-eq-true (not (starts_with r "..")) (path_within_any_prefix r prefixes) h in
      (
        r,
        refl,
        not-eq-true (starts_with r "..") both.0,
        (path_within_any_prefix_iff r prefixes).0 both.1,
      ),
  λ h.
      let same = some_inj (h.1) in
      rw
        (
          ap (λ u. starts_with u "..") same ∙ h.2,
          (path_within_any_prefix_iff r prefixes).1
              (subst (λ u. BeneathSome (clean u) prefixes) (sym same) h.3),
        )
        refl,
)

false_iff : {P : Type 0} (b : Bool) → (b ≡ true) ↔ P → (b ≡ false) ↔ (¬ P)
false_iff true h = (λ e. cc, λ n. absurd (n (h.0 refl)))
false_iff false h = (λ e p. cc (h.1 p), λ n. refl)

three_checks_iff :
    (a b c : Bool) (first second third : String)
    → (reject_if a first >> reject_if b second >> reject_if (not c) third ≡ ok tt)
      ↔ ((a ≡ false) × (b ≡ false) × (c ≡ true))
three_checks_iff true b c m n o = (λ h. cc, λ h. cc (h.0))
three_checks_iff false true c m n o = (λ h. cc, λ h. cc (h.1))
three_checks_iff false false true m n o = (λ h. (refl, refl, refl), λ h. refl)
three_checks_iff false false false m n o = (λ h. cc, λ h. cc (h.2))

validate_repo_iff :
    (disk : Repo) (allowed blocked : List String) (ref : PathEvidence)
    → (validate_ref disk allowed blocked ref repo ≡ ok tt) ↔ Backed disk allowed blocked ref repo
unfolding validate_ref Backed
validate_repo_iff disk allowed blocked ref =
    let checks =
      three_checks_iff (some_prefix allowed && not (path_within_any_prefix ref.path allowed))
        (path_within_any_prefix ref.path blocked) (disk.exists (join_path disk.root ref.path)) _ _
        _ in
    let allow = path_within_any_prefix_iff ref.path allowed in
    let block = false_iff _ (path_within_any_prefix_iff ref.path blocked) in
    (
      λ h.
          let all = checks.0 h in
          (
            record {
              inside = on_right allow.0 (accepts-inside allowed _ all.0);
              outside = block.0 all.1;
            },
            all.2,
          ),
      λ h. checks.1 (
        inside-accepts allowed _ (on_right allow.1 ((h.0).inside)),
        block.1 ((h.0).outside),
        h.1,
      ),
    )

validate_abs_iff :
    (disk : Repo) (allowed blocked : List String) (ref : PathEvidence)
    → (validate_ref disk allowed blocked ref abs ≡ ok tt) ↔ Backed disk allowed blocked ref abs
unfolding validate_ref Backed absolute_within
validate_abs_iff disk allowed blocked ref =
    let way = rel disk.root ref.path in
    let checks =
      three_checks_iff (some_prefix allowed && not (relative_within way allowed))
        (relative_within way blocked) (disk.exists ref.path) _ _ _ in
    let allow = relative_within_iff way allowed in
    let block = false_iff _ (relative_within_iff way blocked) in
    (
      λ h.
          let all = checks.0 h in
          (
            record {
              inside = on_right allow.0 (accepts-inside allowed _ all.0);
              outside = λ r way_is down beneath. block.0 all.1 (r, way_is, down, beneath);
            },
            all.2,
          ),
      λ h. checks.1 (
        inside-accepts allowed _ (on_right allow.1 ((h.0).inside)),
        block.1 (λ p. (h.0).outside p.0 p.1 p.2 p.3),
        h.1,
      ),
    )

validate_ref_iff :
    (disk : Repo) (allowed blocked : List String) (ref : PathEvidence) (kind : EvidenceKind)
    → (validate_ref disk allowed blocked ref kind ≡ ok tt) ↔ Backed disk allowed blocked ref kind
validate_ref_iff disk allowed blocked ref repo = validate_repo_iff disk allowed blocked ref
validate_ref_iff disk allowed blocked ref abs = validate_abs_iff disk allowed blocked ref

both_ok_iff : (r k : Result (Unit {0})) → (r >> k ≡ ok tt) ↔ ((r ≡ ok tt) × (k ≡ ok tt))
both_ok_iff (ok u) k = (λ h. (refl, h), λ h. h.1)
both_ok_iff (err e) k = (λ h. cc, λ h. cc (h.0))

pub validate_refs_iff :
    (disk : Repo) (allowed blocked : List String) (refs : List PathEvidence)
    → (validate_refs disk allowed blocked refs ≡ ok tt)
      ↔ All (λ ref. Backed disk allowed blocked ref ref.kind) refs
unfolding validate_refs
validate_refs_iff disk allowed blocked [] = (λ h. tt, λ h. refl)
validate_refs_iff disk allowed blocked (ref ∷ refs) =
    let both =
      both_ok_iff (validate_ref disk allowed blocked ref ref.kind)
        (validate_refs disk allowed blocked refs) in
    let one = validate_ref_iff disk allowed blocked ref ref.kind in
    let rest = validate_refs_iff disk allowed blocked refs in
    (λ h. (one.0 (both.0 h).0, rest.0 (both.0 h).1), λ h. both.1 (one.1 h.0, rest.1 h.1))
