-- ===== src/Persist/Success.antt =====
-- A run of persistLocked that succeeds leaves every file equal to what the memory holds.
use mathlib.Core.Logic.{if_neg}
use layeros.Base.{
  or-eq-false, String, Bool, true, false, not, ◌≡◌, refl, sym, ap, ◌∙◌, inl, inr, none, some, List,
  [], ◌∷◌, arith, Bool-cases, ◌==◌, eq_iff,
}
use layeros.Env.{Domain, Domain-discrete, branch, event, Env}
use layeros.State.{Service, Saved, saved}
use layeros.Persist.{
  persist_domains, Outcome, and_then, signature, is_dirty, save_all, any_dirty, mark_persisted,
  persist_flagged, persist_snapshot,
}
use layeros.Persist.Loop.{
  listed, save_all-Written, save_all-Current, save_all-flagged, signature-Written,
}

pub listed-all : (d : Domain) → listed d persist_domains ≡ true
unfolding persist_domains Domain-discrete
listed-all branch = refl
listed-all d = refl

not-eq-false : (a b : String) → not (a == b) ≡ false → a ≡ b
not-eq-false a b h =
    (eq_iff a b).0 (elim (Bool-cases (a == b)) [ inl p ↦ p | inr p ↦ ground arith ])

-- What is not dirty is saved as it is.
not_dirty-saved :
    (encode : (d : Domain) → Saved d → String) (d : Domain) (s : Service)
    → is_dirty encode d s ≡ false
    → signature encode d s ≡ s.persisted d
unfolding is_dirty
not_dirty-saved encode event s h = not-eq-false _ _ (or-eq-false _ _ h).1
not_dirty-saved encode d s h = not-eq-false _ _ h

any_dirty-all :
    (flags : Domain → Bool) (ds : List Domain) (e : Domain)
    → any_dirty flags ds ≡ false
    → listed e ds ≡ true
    → flags e ≡ false
unfolding any_dirty
any_dirty-all flags [] e h here = cc
any_dirty-all flags (d ∷ ds) e h here = elim (Domain-discrete e d) [
  | yes p ↦ rw p (or-eq-false _ _ h).0
  | no p ↦
      any_dirty-all flags ds e (or-eq-false _ _ h).1
        (sym (if_neg (Domain-discrete e d) p true (listed e ds)) ∙ here)
]

-- What persistLocked relies on: each file holds what was last marked as persisted.
abbrev pub Coherent : Service → Type 0
Coherent s = (d : Domain) → s.disk.file d ≡ s.persisted d

saved-marked :
    (d : Domain) (t : Service) (marks : Domain → String)
    → saved d (record t { persisted = marks }) ≡ saved d t
saved-marked branch t marks = refl
saved-marked d t marks = refl

-- The file of a domain and its mark are what the memory holds.
abbrev pub Done : ((d : Domain) → Saved d → String) → Service → Domain → Type 0
Done encode t d = (t.disk.file d ≡ signature encode d t) × (t.persisted d ≡ signature encode d t)

module _ (encode : (d : Domain) → Saved d → String) (env : Env) (flags : Domain → Bool)
    (s : Service) (clean : (d : Domain) → flags d ≡ false → Done encode s d) where
  file-saved :
      (save_all encode env flags persist_domains s).1 ≡ none
      → (d : Domain)
      → (save_all encode env flags persist_domains s).0.disk.file d ≡ signature encode d s
  file-saved h d = elim (Bool-cases (flags d)) [
    | inl on ↦ save_all-flagged encode env flags persist_domains d s on (listed-all d) h
    | inr off ↦ elim (save_all-Current encode env flags persist_domains d s h) [
      | inl same ↦ same ∙ (clean d off).0
      | inr now ↦ now
    ]
  ]

  same_signature :
      (d : Domain)
      → signature encode d (save_all encode env flags persist_domains s).0 ≡ signature encode d s
  same_signature d =
      signature-Written encode env flags d (save_all-Written encode env flags persist_domains s)

  all_saved :
      (r : Outcome)
      → r ≡ save_all encode env flags persist_domains s
      → (and_then r (mark_persisted encode s)).1 ≡ none
      → (d : Domain) → Done encode (and_then r (mark_persisted encode s)).0 d
  all_saved (t, some e) p h d = cc
  all_saved (t, none) p h d = (
    ap (λ (r : Outcome). r.0.disk.file d) p
        ∙ file-saved (sym (ap (λ (r : Outcome). r.1) p)) d
        ∙ same,
    same,
  )
    where
      same : signature encode d s ≡ signature encode d (mark_persisted encode s t).0
      same =
          sym (ap (λ (r : Outcome). signature encode d r.0) p ∙ same_signature d)
          ∙ sym (ap (encode d) (saved-marked d t _))

  persist_flagged-Done :
      (persist_flagged encode env flags s).1 ≡ none
      → (d : Domain) → Done encode (persist_flagged encode env flags s).0 d
  unfolding persist_flagged
  persist_flagged-Done = elim (Bool-cases (any_dirty flags persist_domains)) [
    | inl on ↦ rw on (all_saved (save_all encode env flags persist_domains s) refl)
    | inr off ↦ rw off (λ h d. clean d (any_dirty-all flags persist_domains d off (listed-all d)))
  ]

-- Where each file holds what was last marked as persisted, a run of persistLocked's loop that
-- answers no error leaves each file and each mark equal to what the memory holds.
pub persist_snapshot-success :
    (encode : (d : Domain) → Saved d → String) (env : Env) (s : Service)
    → Coherent s
    → (persist_snapshot encode env s).1 ≡ none
    → (d : Domain) → Done encode (persist_snapshot encode env s).0 d
unfolding persist_snapshot
persist_snapshot-success encode env s c =
    persist_flagged-Done encode env (λ d. is_dirty encode d s) s
      (λ d h.
        let saved_as_is = sym (not_dirty-saved encode d s h) in (c d ∙ saved_as_is, saved_as_is))
