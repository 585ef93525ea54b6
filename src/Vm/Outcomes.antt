-- ===== src/Vm/Outcomes.antt =====
-- What holds of the state that a step leaves, whether it goes on, halts or raises.
use bogbin.Common.{
  Bool, true, false, Option, none, some, ◌≡◌, refl, if◌then◌else◌, option_case, result_case, Result,
  ok, err,
}
use bogbin.Vm.State.{VmState, Outcome, next, halted, raised}

abbrev pub Always : (VmState → Type 0) → Outcome → Type 0
Always P (next s) = P s
Always P (halted s) = P s
Always P (raised f s) = P s

module _ (P : VmState → Type 0) where
  pub Always-option {ℓ} :
      {A : Type ℓ} (o : Option A) (f : Outcome) (g : A → Outcome)
      → (o ≡ none → Always P f)
      → ((a : A) → o ≡ some a → Always P (g a))
      → Always P (option_case o f g)
  Always-option none f g h k = h refl
  Always-option (some a) f g h k = k a refl

  pub Always-result {ℓ κ} :
      {E : Type ℓ} {A : Type κ} (r : Result E A) (f : E → Outcome) (g : A → Outcome)
      → ((e : E) → r ≡ err e → Always P (f e))
      → ((a : A) → r ≡ ok a → Always P (g a))
      → Always P (result_case r f g)
  Always-result (ok a) f g h k = k a refl
  Always-result (err e) f g h k = h e refl

  pub Always-if :
      (b : Bool) (f g : Outcome)
      → (b ≡ true → Always P f)
      → (b ≡ false → Always P g)
      → Always P (if b then f else g)
  Always-if true f g h k = h refl
  Always-if false f g h k = k refl

pub ruleset outcome_rules = (Always-option, Always-result, Always-if)

pub Always-map :
    (P Q : VmState → Type 0) (o : Outcome) → ((s : VmState) → P s → Q s) → Always P o → Always Q o
Always-map P Q (next s) f h = f s h
Always-map P Q (halted s) f h = f s h
Always-map P Q (raised fault s) f h = f s h

pub Always-both :
    (P Q : VmState → Type 0) (o : Outcome) → Always P o → Always Q o → Always (λ s. P s × Q s) o
Always-both P Q (next s) p q = (p, q)
Always-both P Q (halted s) p q = (p, q)
Always-both P Q (raised fault s) p q = (p, q)
