-- ===== src/Controller/Exec/Costs.antt =====
-- How much a method adds to the state that it passes along, at most.
use janus_idp_operator.Prelude.{ℕ, ◌+◌, ◌≤◌, Bool, true, false, arith, if◌then◌else◌}
use janus_idp_operator.GoError.{GoError, Outcome, ok, err, panic, OnOk}
use janus_idp_operator.Controller.Exec.{Exec, pure, raise, lift, continue, ◌>>=◌}

pub record Costs {S A : Type 0} (size : S → ℕ) (most : ℕ) (method : Exec S A) : Type 0 where
  pub spends : (before : S) → size (method before).1 ≤ size before + most

module _ {S A : Type 0} {size : S → ℕ} where
  -- A method that leaves the state as it finds it costs nothing.
  pub Costs-lift : (outcome : Outcome A) → Costs size 0 (lift outcome)
  Costs-lift outcome = record { spends = λ before. omega arith }

  pub Costs-pure : (result : A) → Costs size 0 (pure result)
  Costs-pure result = Costs-lift (ok result)

  pub Costs-raise : (e : GoError) → Costs size 0 (raise {A = A} e)
  Costs-raise e = Costs-lift (err e)

  pub Costs-more :
      (n n' : ℕ) (method : Exec S A) → n ≤ n' → Costs size n method → Costs size n' method
  Costs-more n n' method more costs = record {
    spends = λ before. omega (arith, more, costs.spends before);
  }

  pub Costs-if :
      (n : ℕ) (test : Bool) (x y : Exec S A)
      → Costs size n x
      → Costs size n y
      → Costs size n (if test then x else y)
  Costs-if n true x y of_x of_y = of_x
  Costs-if n false x y of_x of_y = of_y

  -- Each branch at its own cost.
  pub Costs-branch :
      (n k : ℕ) (test : Bool) (x y : Exec S A)
      → Costs size n x
      → Costs size k y
      → Costs size (if test then n else k) (if test then x else y)
  Costs-branch n k true x y of_x of_y = of_x
  Costs-branch n k false x y of_x of_y = of_y

module _ {S A B : Type 0} {size : S → ℕ} where
  pub continue-spends :
      (P : A → Type 0) (n : ℕ) (next : A → Exec S B)
      → ((result : A) → P result → Costs size n (next result))
      → (outcome : Outcome A) (between : S) → OnOk P outcome
      → size (continue outcome next between).1 ≤ size between + n
  continue-spends P n next of_next (ok result) between holds = (of_next result holds).spends between
  continue-spends P n next of_next (err _) between holds = omega arith
  continue-spends P n next of_next panic between holds = omega arith

  -- The costs of a sequence add up; the second part may rely on what the first one returns.
  Costs-bind_if :
      (P : A → Type 0) (n k : ℕ) (method : Exec S A) (next : A → Exec S B)
      → ((before : S) → OnOk P (method before).0)
      → Costs size n method
      → ((result : A) → P result → Costs size k (next result))
      → Costs size (n + k) (method >>= next)
  Costs-bind_if P n k method next holds of_method of_next = record {
    spends = λ before.
        let (outcome, between) = method before in
        omega (
          arith,
          of_method.spends before,
          continue-spends P k next of_next outcome between (holds before),
        );
  }

  -- The same after a part that costs nothing.
  pub Costs-after :
      (P : A → Type 0) (k : ℕ) (method : Exec S A) (next : A → Exec S B)
      → ((before : S) → OnOk P (method before).0)
      → Costs size 0 method
      → ((result : A) → P result → Costs size k (next result))
      → Costs size k (method >>= next)
  Costs-after P k method next holds of_method of_next =
      Costs-more (0 + k) k _ (omega arith) (Costs-bind_if P 0 k method next holds of_method of_next)

  pub Costs-bind :
      (n k : ℕ) (method : Exec S A) (next : A → Exec S B)
      → Costs size n method
      → ((result : A) → Costs size k (next result))
      → Costs size (n + k) (method >>= next)
  Costs-bind n k method next of_method of_next =
      Costs-bind_if (λ _. Unit) n k method next (λ before. anything (method before).0) of_method
        λ result _. of_next result
    where
      anything : (outcome : Outcome A) → OnOk (λ _. Unit) outcome
      anything (ok result) = tt
      anything (err e) = tt
      anything panic = tt
