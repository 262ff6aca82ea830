-- ===== src/Parser/Fuel.antt =====
-- Runs with enough fuel: `Ends f a` says that `f` answers `a` for every amount of fuel from some
-- amount on.
use lu_language.Prelude.{ℕ, zero, suc, ◌≤◌, Option, some, ◌≡◌, refl, ◌∙◌, ap, arith}
use Prim.Native.Nat.{max}
use lu_language.Parser.Cursor.{◌>>=◌}

module _ {ℓ} {A : Type ℓ} where
  abbrev pub Ends : (ℕ → Option A) → A → Type ℓ
  Ends f a = (n : ℕ) × ((k : ℕ) → n ≤ k → f k ≡ some a)

  pub Ends-some : (a : A) → Ends (λ k. some a) a
  Ends-some a = (0, λ k h. refl)

  pub Ends-eq : (f g : ℕ → Option A) (a : A) → ((k : ℕ) → f k ≡ g k) → Ends g a → Ends f a
  Ends-eq f g a same e = (e.0, λ k h. same k ∙ e.1 k h)

  -- A call that takes one of the fuel.
  pub Ends-suc : (f g : ℕ → Option A) (a : A) → ((k : ℕ) → f (suc k) ≡ g k) → Ends g a → Ends f a
  Ends-suc f g a same e = (suc e.0, below)
    where
      below : (k : ℕ) → suc e.0 ≤ k → f k ≡ some a
      below zero h = absurd (omega arith)
      below (suc k) h = same k ∙ e.1 k (omega arith)

  pub Ends-unique : (f : ℕ → Option A) (a b : A) → Ends f a → Ends f b → some a ≡ some b
  Ends-unique f a b ea eb = let k = max ea.0 eb.0 in cc (ea.1 k (omega arith), eb.1 k (omega arith))

module _ {ℓ κ} {A : Type ℓ} {B : Type κ} where
  pub Ends-bind :
      (f : ℕ → Option A) (g : ℕ → A → Option B) (a : A) (b : B)
      → Ends f a
      → Ends (λ k. g k a) b
      → Ends (λ k. f k >>= g k) b
  Ends-bind f g a b ef eg =
      (max ef.0 eg.0, λ k h. ap (λ x. x >>= g k) (ef.1 k (omega arith)) ∙ eg.1 k (omega arith))

  -- A call that takes one of the fuel, calls `g`, and goes on with what that answers.
  pub Ends-call :
      (f : ℕ → Option B) (g : ℕ → Option A) (h : ℕ → A → Option B) (a : A) (b : B)
      → ((k : ℕ) → f (suc k) ≡ (g k >>= h k))
      → Ends g a
      → Ends (λ k. h k a) b
      → Ends f b
  Ends-call f g h a b same eg eh = Ends-suc f (λ k. g k >>= h k) b same (Ends-bind g h a b eg eh)

  pub Ends-map :
      (f : ℕ → Option A) (h : Option A → Option B) (a : A) (b : B)
      → h (some a) ≡ some b
      → Ends f a
      → Ends (λ k. h (f k)) b
  Ends-map f h a b same ef = (ef.0, λ k less. ap h (ef.1 k less) ∙ same)
