-- ===== src/Persist/Loop.antt =====
-- The loop of persistLocked: which files it writes, and what it leaves of the others.
use mathlib.Core.Logic.{ite, if_pos, if_neg}
use layeros.Base.{
  String, Bool, true, false, ◌≡◌, refl, sym, ap, ◌∙◌, ◌⊎◌, inl, inr, none, List, [], ◌∷◌,
  Bool-cases, Option-cases,
}
use layeros.Env.{Domain, Domain-discrete, Env}
use layeros.State.{Service, Saved}
use layeros.Persist.{write, signature, save, save_all}
use layeros.Persist.Files.{
  Written, Written-refl, Written-trans, saved-Written, save-Written, save-file,
}

abbrev pub listed : Domain → List Domain → Bool
listed e [] = false
listed e (d ∷ ds) = ite (Domain-discrete e d) true (listed e ds)

module _ (encode : (d : Domain) → Saved d → String) (env : Env) (flags : Domain → Bool) where
  pub save_all-Written :
      (ds : List Domain) (s : Service) → Written s (save_all encode env flags ds s).0
  unfolding save_all
  save_all-Written [] s = Written-refl s
  save_all-Written (d ∷ ds) s = elim (Bool-cases (flags d)) [
    | inl dirty ↦ elim (Option-cases (save encode env d s).1) [
      | inl ok ↦
          rw (dirty, ok) (Written-trans (save-Written encode env d s) (save_all-Written ds _))
      | inr (e, failed) ↦ rw (dirty, failed) (save-Written encode env d s)
    ]
    | inr clean ↦ rw clean (save_all-Written ds s)
  ]

  pub signature-Written :
      {s t : Service} (d : Domain) → Written s t → signature encode d t ≡ signature encode d s
  signature-Written d h = ap (encode d) (saved-Written d h)

  -- Each file is as it was, or holds what the memory holds.
  abbrev pub Current : Service → Service → Domain → Type 0
  Current s t e = (t.disk.file e ≡ s.disk.file e) ⊎ (t.disk.file e ≡ signature encode e s)

  pub write-Current :
      (d e : Domain) (s t : Service)
      → t.disk.file ≡ write d (signature encode d s) s.disk.file
      → Current s t e
  write-Current d e s t h = elim (Domain-discrete e d) [
    | yes p ↦ inr (
        ap (λ (f : Domain → String). f e) h
        ∙ if_pos (Domain-discrete e d) p _ (s.disk.file e)
        ∙ ap (λ x. signature encode x s) (sym p))
    | no p ↦ inl (
        ap (λ (f : Domain → String). f e) h
        ∙ if_neg (Domain-discrete e d) p (signature encode d s) _)
  ]

  pub Current-trans :
      (s t u : Service) (e : Domain) → Written s t → Current s t e → Current t u e → Current s u e
  Current-trans s t u e w h (inr now) = inr (now ∙ signature-Written e w)
  Current-trans s t u e w (inl old) (inl same) = inl (same ∙ old)
  Current-trans s t u e w (inr new) (inl same) = inr (same ∙ new)

  save-Current :
      (d e : Domain) (s : Service)
      → (save encode env d s).1 ≡ none
      → Current s (save encode env d s).0 e
  save-Current d e s h = write-Current d e s (save encode env d s).0 (save-file encode env d s h)

  pub save_all-Current :
      (ds : List Domain) (e : Domain) (s : Service)
      → (save_all encode env flags ds s).1 ≡ none
      → Current s (save_all encode env flags ds s).0 e
  unfolding save_all
  save_all-Current [] e s = λ h. inl refl
  save_all-Current (d ∷ ds) e s = elim (Bool-cases (flags d)) [
    | inl dirty ↦ elim (Option-cases (save encode env d s).1) [
      | inl ok ↦
          rw (dirty, ok)
            (λ h.
              Current-trans s (save encode env d s).0
                (save_all encode env flags ds (save encode env d s).0).0 e
                (save-Written encode env d s) (save-Current d e s ok)
                (save_all-Current ds e (save encode env d s).0 h))
      | inr (x, failed) ↦ rw (dirty, failed) (λ h. cc)
    ]
    | inr clean ↦ rw clean (save_all-Current ds e s)
  ]

  abbrev pub Fresh : Service → Service → Domain → Type 0
  Fresh s t e = t.disk.file e ≡ signature encode e s

  -- a file written stays as it was written
  Fresh-Current :
      (s t u : Service) (e : Domain) → Written s t → Fresh s t e → Current t u e → Fresh s u e
  Fresh-Current s t u e w h (inl same) = same ∙ h
  Fresh-Current s t u e w h (inr now) = now ∙ signature-Written e w

  save-Fresh :
      (d : Domain) (s : Service)
      → (save encode env d s).1 ≡ none
      → Fresh s (save encode env d s).0 d
  save-Fresh d s h =
      ap (λ (f : Domain → String). f d) (save-file encode env d s h)
      ∙ if_pos (Domain-discrete d d) refl _ (s.disk.file d)

  -- after the save of `d`, a file that is fresh or still to come is fresh at the end
  save_all-head :
      (d : Domain) (ds : List Domain) (s : Service)
      → flags d ≡ true
      → (save_all encode env flags (d ∷ ds) s).1 ≡ none
      → Fresh s (save_all encode env flags (d ∷ ds) s).0 d
  unfolding save_all
  save_all-head d ds s on = elim (Option-cases (save encode env d s).1) [
    | inl ok ↦
        rw (on, ok)
          (λ h.
            Fresh-Current s (save encode env d s).0
              (save_all encode env flags ds (save encode env d s).0).0 d
              (save-Written encode env d s) (save-Fresh d s ok)
              (save_all-Current ds d (save encode env d s).0 h))
    | inr (x, failed) ↦ rw (on, failed) (λ h. cc)
  ]

  save_all-tail :
      (d e : Domain) (ds : List Domain) (s : Service)
      → ((t : Service)
          → (save_all encode env flags ds t).1 ≡ none
          → Fresh t (save_all encode env flags ds t).0 e)
      → (save_all encode env flags (d ∷ ds) s).1 ≡ none
      → Fresh s (save_all encode env flags (d ∷ ds) s).0 e
  unfolding save_all
  save_all-tail d e ds s rest = elim (Bool-cases (flags d)) [
    | inl on ↦ elim (Option-cases (save encode env d s).1) [
      | inl ok ↦
          rw (on, ok)
            (λ h.
              rest (save encode env d s).0 h ∙ signature-Written e (save-Written encode env d s))
      | inr (x, failed) ↦ rw (on, failed) (λ h. cc)
    ]
    | inr off ↦ rw off (rest s)
  ]

  pub save_all-flagged :
      (ds : List Domain) (e : Domain) (s : Service)
      → flags e ≡ true
      → listed e ds ≡ true
      → (save_all encode env flags ds s).1 ≡ none
      → Fresh s (save_all encode env flags ds s).0 e
  save_all-flagged [] e s on here = cc
  save_all-flagged (d ∷ ds) e s on here = elim (Domain-discrete e d) [
    | yes p ↦ rw p (save_all-head d ds s (ap flags (sym p) ∙ on))
    | no p ↦ save_all-tail d e ds s (λ t.
        save_all-flagged ds e t on (sym (if_neg (Domain-discrete e d) p true (listed e ds)) ∙ here))
  ]
