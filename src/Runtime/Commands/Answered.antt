-- ===== src/Runtime/Commands/Answered.antt =====
-- What the methods that run a command leave, whatever the command answers.
use layeros.Base.{
  String, ◌≡◌, ◌⊎◌, refl, Option, some, none, Result, ok, err, inl, inr, ◌↔◌, eq_iff, ◌==◌, false,
  sym,
}
use layeros.State.{Service}
use layeros.Persist.{Outcome}
use layeros.Env.{Env}
use layeros.Runtime.Intact.{Intact, Intact-refl}
use layeros.Runtime.Intact.Undone.{SameRoom}
use layeros.Runtime.Commands.{Answer, answered, refuse, with_plan, status_from_error}

-- nothing is stored, and the caller is told why
pub record Refused {A : Type 0} (env : Env) (t : Service) (run : Service × Answer A) : Type 0 where
  pub no_value : run.1.value ≡ none
  pub message : String
  pub told : run.1.error ≡ some message
  pub kept : Intact t run.0
  pub same_room : SameRoom env t run.0

-- the item is stored, the error is that of the command, and the status says whether there is one
pub record Recorded {A : Type 0} (item : A) (status passed : String) (error : Option String)
    (create : Outcome) (run : Service × Answer A) : Type 0 where
  pub value : run.1.value ≡ some item
  pub same_error : run.1.error ≡ error
  pub by_status : (status ≡ passed) ↔ (run.1.error ≡ none)
  pub created : create.1 ≡ none
  pub left : run.0 ≡ create.0

-- the word of a status says whether the command failed
status_iff :
    (passed : String) (error : Option String)
    → (passed == "failed") ≡ false
    → (status_from_error passed error ≡ passed) ↔ (error ≡ none)
unfolding status_from_error
status_iff passed none h = (λ p. refl, λ p. refl)
status_iff passed (some e) h = (λ p. cc ((eq_iff passed "failed").1 (sym p)), λ p. cc)

pub answered-cases :
    {A : Type 0} (env : Env) (item : A) (passed : String) (error : Option String) (t : Service)
    (create : Outcome)
    → (passed == "failed") ≡ false
    → ((e : String) → create.1 ≡ some e → Intact t create.0)
    → ((e : String) → create.1 ≡ some e → SameRoom env t create.0)
    → Refused env t (answered item error create)
      ⊎ Recorded item
          (status_from_error passed error)
          passed
          error
          create
          (answered item error create)
answered-cases env item passed error t (u, none) other keeps rooms = inr (record {
  value = refl;
  same_error = refl;
  by_status = status_iff passed error other;
  created = refl;
  left = refl;
})
answered-cases env item passed error t (u, some e) other keeps rooms = inl (record {
  no_value = refl;
  message = e;
  told = refl;
  kept = keeps e refl;
  same_room = rooms e refl;
})

pub refuse-Refused :
    {A : Type 0} (env : Env) (e : String) (t : Service) → Refused {A = A} env t (refuse e t)
refuse-Refused env e t = record {
  no_value = refl;
  message = e;
  told = refl;
  kept = Intact-refl t;
  same_room = inl refl;
}

-- either the plan is refused, or the rest of the method is run with it
pub with_plan-cases :
    {A B : Type 0} (P : Service × Answer B → Type 0) (r : Result A) (t : Service)
    (next : A → Service × Answer B)
    → ((e : String) → P (refuse e t))
    → ((a : A) → r ≡ ok a → P (next a))
    → P (with_plan r t next)
with_plan-cases P (ok a) t next refusal rest = rest a refl
with_plan-cases P (err e) t next refusal rest = refusal e

pub stored-or : {A B C : Type 0} → A ⊎ B → (B → C) → A ⊎ C
stored-or (inl refused) f = inl refused
stored-or (inr recorded) f = inr (f recorded)
