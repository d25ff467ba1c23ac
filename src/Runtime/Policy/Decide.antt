-- ===== src/Runtime/Policy/Decide.antt =====
-- What decidePolicy decides, and what RunExecute makes of it.
use layeros.Base.{
  String, Bool, true, false, ◌||◌, ◌&&◌, ◌≡◌, refl, sym, ◌∙◌, ◌↔◌, ◌⊎◌, inl, inr, List, arith, ◌==◌,
  eq_iff, Bool-cases, and-eq-true, or-eq-true, or-true,
}
use layeros.Runtime.Policy.{decide_policy}

single-blocked : ¬ (◌≡◌ {A = String} "single" "blocked")
single-blocked h = cc

local-blocked : ¬ (◌≡◌ {A = String} "local" "blocked")
local-blocked h = cc

go-hold : ¬ (◌≡◌ {A = String} "go" "hold")
go-hold h = cc

abbrev too_small : String → String → String → Bool
too_small risk novelty token_class = token_class == "tiny" && (risk == "high" || novelty == "high")

abbrev is_moderate : String → String → String → Bool → Bool
is_moderate risk novelty token_class requires_approval =
    requires_approval
    || risk == "medium"
    || novelty == "medium"
    || token_class == "medium"
    || token_class == "large"

-- the two verdicts
Verdict : Bool → String × String × List String → Type 0
Verdict small d =
    ((small ≡ true) × (d.0 ≡ "blocked") × (d.1 ≡ "hold"))
    ⊎ ((small ≡ false) × (¬ (d.0 ≡ "blocked")) × (d.1 ≡ "go"))

decide_policy-Verdict :
    (intent risk novelty token_class : String) (requires_approval : Bool)
    → Verdict
        (too_small risk novelty token_class)
        (decide_policy intent risk novelty token_class requires_approval)
unfolding decide_policy Verdict
decide_policy-Verdict intent risk novelty token_class requires_approval =
    elim (Bool-cases (too_small risk novelty token_class)) [
      | inl small ↦ rw small (inl (refl, refl, refl))
      | inr enough ↦ elim (Bool-cases (risk == "high" || novelty == "high")) [
        | inl high ↦ rw (enough, high) (inr (refl, single-blocked, refl))
        | inr low ↦ elim (Bool-cases (is_moderate risk novelty token_class requires_approval)) [
          | inl moderate ↦ rw (enough, low, moderate) (inr (refl, single-blocked, refl))
          | inr small ↦ rw (enough, low, small) (inr (refl, local-blocked, refl))
        ]
      ]
    ]

small_parts :
    (risk novelty token_class : String)
    → too_small risk novelty token_class ≡ true
    → (token_class ≡ "tiny") × ((risk ≡ "high") ⊎ (novelty ≡ "high"))
small_parts risk novelty token_class h =
    let (tiny, high) = and-eq-true _ _ h in
    (
      (eq_iff token_class "tiny").0 tiny,
      elim (or-eq-true _ _ high) [
        | inl p ↦ inl ((eq_iff risk "high").0 p)
        | inr p ↦ inr ((eq_iff novelty "high").0 p)
      ],
    )

parts_small :
    (risk novelty token_class : String)
    → token_class ≡ "tiny"
    → (risk ≡ "high") ⊎ (novelty ≡ "high")
    → too_small risk novelty token_class ≡ true
parts_small risk novelty token_class t (inl p) =
    rw ((eq_iff token_class "tiny").1 t, (eq_iff risk "high").1 p) refl
parts_small risk novelty token_class t (inr p) =
    rw ((eq_iff token_class "tiny").1 t, (eq_iff novelty "high").1 p) (or-true (risk == "high"))

-- A policy is on hold exactly when it is blocked, and that is exactly when a tiny token class meets a
-- high risk or novelty.
pub decide_policy-hold :
    (intent risk novelty token_class : String) (requires_approval : Bool)
    → let (mode, decision, reasons) =
        decide_policy intent risk novelty token_class requires_approval in
      ((decision ≡ "hold") ↔ (mode ≡ "blocked"))
      × ((mode ≡ "blocked") ↔ ((token_class ≡ "tiny") × ((risk ≡ "high") ⊎ (novelty ≡ "high"))))
unfolding Verdict
decide_policy-hold intent risk novelty token_class requires_approval =
    elim (decide_policy-Verdict intent risk novelty token_class requires_approval) [
      | inl (small, blocked, hold) ↦ (
        (λ _. blocked, λ _. hold),
        (λ _. small_parts risk novelty token_class small, λ _. blocked),
      )
      | inr (enough, open_mode, go) ↦ (
        (λ hold. elim (go-hold (sym go ∙ hold)) [ ], λ blocked. elim (open_mode blocked) [ ]),
        (
          λ blocked. elim (open_mode blocked) [ ],
          λ (t, h). ground (arith, parts_small risk novelty token_class t h),
        ),
      )
    ]
