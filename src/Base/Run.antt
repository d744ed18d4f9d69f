-- ===== src/Base/Run.antt =====
-- Calls that change a state and return 0 or an errno value.
use mathlib.Core.Bool.{Bool, true, false}
use mathlib.Core.Path.{◌≡◌, refl}
use mofs.Base.Tests.{if◌then◌else◌}
use Prim.Native.Nat.{ℕ}

-- `ok a s`: 0 is returned with the results `a` through the pointers. `err e s`: a non-zero `e` is
-- returned; the changes made before the failure stay.
pub data Run (S A : Type 0) : Type 0 where
  ok : A → S → Run S A
  err : ℕ → S → Run S A

abbrev pub Cmd : Type 0 → Type 0 → Type 0
Cmd S A = S → Run S A

module _ {S : Type 0} where
  abbrev pub pure : {A : Type 0} → A → Cmd S A
  pure = ok

  abbrev pub fail : {A : Type 0} → ℕ → Cmd S A
  fail = err

  abbrev pub and_then : {A B : Type 0} → Run S A → (A → Cmd S B) → Run S B
  and_then (ok a s) k = k a s
  and_then (err e s) k = err e s

  infixl 5 ◌>>=◌ ◌>>◌
  abbrev pub ◌>>=◌ : {A B : Type 0} → Cmd S A → (A → Cmd S B) → Cmd S B
  m >>= k = λ s. and_then (m s) k

  abbrev pub ◌>>◌ : {B : Type 0} → Cmd S (Unit {0}) → Cmd S B → Cmd S B
  m >> n = m >>= λ _. n

  -- the whole state, read and changed
  abbrev pub get : Cmd S S
  get = λ s. ok s s

  abbrev pub modify : (S → S) → Cmd S (Unit {0})
  modify f = λ s. ok tt (f s)

  -- `if (c) return e;`
  abbrev pub fail_if : Bool → ℕ → Cmd S (Unit {0})
  fail_if true e = err e
  fail_if false e = ok tt

  abbrev pub forget : {A : Type 0} → Run S A → Run S (Unit {0})
  forget (ok a s) = ok tt s
  forget (err e s) = ok tt s

  -- `(void)f(...)`: the status is dropped.
  abbrev pub ignore : {A : Type 0} → Cmd S A → Cmd S (Unit {0})
  ignore m = λ s. forget (m s)

  abbrev pub keep_err : {A : Type 0} → ℕ → Run S (Unit {0}) → Run S A
  keep_err e (ok _ s) = err e s
  keep_err e (err _ s) = err e s

  abbrev pub cleanup_of : {A : Type 0} → Run S A → Cmd S (Unit {0}) → Run S A
  cleanup_of (ok a s) c = ok a s
  cleanup_of (err e s) c = keep_err e (c s)

  -- `goto rollback` on an error: run the clean-up, and return the first error.
  abbrev pub or_rollback : {A : Type 0} → Cmd S A → Cmd S (Unit {0}) → Cmd S A
  or_rollback m c = λ s. cleanup_of (m s) c

-- What holds after a call: `P` of the results and the state, or `E` of the error and the state.
pub data Ends {S A : Type 0} (P : A → S → Type 0) (E : ℕ → S → Type 0) : Run S A → Type 0 where
  returns : {a : A} {s : S} → P a s → Ends P E (ok a s)
  fails : {e : ℕ} {s : S} → E e s → Ends P E (err e s)

module _ {S A : Type 0} {P : A → S → Type 0} {E : ℕ → S → Type 0} where
  pub bind :
      {B : Type 0} {Q : B → S → Type 0} {r : Run S A} {k : A → Cmd S B}
      → Ends P E r
      → ((a : A) (s : S) → P a s → Ends Q E (k a s))
      → Ends Q E (and_then r k)
  bind (returns p) next = next _ _ p
  bind (fails p) next = fails p

  pub mono :
      {Q : A → S → Type 0} {F : ℕ → S → Type 0} {r : Run S A}
      → Ends P E r
      → ((a : A) (s : S) → P a s → Q a s)
      → ((e : ℕ) (s : S) → E e s → F e s)
      → Ends Q F r
  mono (returns p) weaken weaken_err = returns (weaken _ _ p)
  mono (fails p) weaken weaken_err = fails (weaken_err _ _ p)

  -- On each outcome of a call, what follows it, errors included.
  pub next :
      {B : Type 0} {Q : B → S → Type 0} {F : ℕ → S → Type 0} {r : Run S A} {k : A → Cmd S B}
      → Ends P E r
      → ((a : A) (s : S) → P a s → Ends Q F (k a s))
      → ((e : ℕ) (s : S) → E e s → F e s)
      → Ends Q F (and_then r k)
  next (returns p) on_ok on_err = on_ok _ _ p
  next (fails p) on_ok on_err = fails (on_err _ _ p)

  -- A call that follows a test: each branch under what the test says.
  pub branch :
      (b : Bool) (m n : Cmd S A) (s : S)
      → (b ≡ true → Ends P E (m s))
      → (b ≡ false → Ends P E (n s))
      → Ends P E ((if b then m else n) s)
  branch true m n s then_end else_end = then_end refl
  branch false m n s then_end else_end = else_end refl

  -- An early return of an error, and what follows it.
  pub guard :
      (b : Bool) (e : ℕ) (k : Unit {0} → Cmd S A) (s : S)
      → (b ≡ true → E e s)
      → (b ≡ false → Ends P E (k tt s))
      → Ends P E ((fail_if b e >>= k) s)
  guard true e k s then_end else_end = fails (then_end refl)
  guard false e k s then_end else_end = else_end refl

module _ {S A : Type 0} where
  -- A status that is dropped: what holds either way holds.
  pub ignored :
      {P : A → S → Type 0} {E : ℕ → S → Type 0} {Q F : S → Type 0} {r : Run S A}
      → Ends P E r
      → ((a : A) (s : S) → P a s → Q s)
      → ((e : ℕ) (s : S) → E e s → Q s)
      → Ends (λ _ s. Q s) (λ _ s. F s) (forget r)
  ignored (returns p) on_ok on_err = returns (on_ok _ _ p)
  ignored (fails p) on_ok on_err = returns (on_err _ _ p)

  kept :
      {P : A → S → Type 0} {Q F : S → Type 0} {r : Run S (Unit {0})} (e : ℕ)
      → Ends (λ _ s. Q s) (λ _ s. F s) r
      → ((s : S) → Q s → F s)
      → Ends P (λ _ s. F s) (keep_err e r)
  kept e (returns p) h = fails (h _ p)
  kept e (fails p) h = fails p

  -- A call with a clean-up for its errors.
  pub rolled_back :
      {P : A → S → Type 0} {E Q F : S → Type 0} {r : Run S A} (c : Cmd S (Unit {0}))
      → Ends P (λ _ s. E s) r
      → ((s : S) → E s → Ends (λ _ t. Q t) (λ _ t. F t) (c s))
      → ((s : S) → Q s → F s)
      → Ends P (λ _ s. F s) (cleanup_of r c)
  rolled_back c (returns p) h k = returns p
  rolled_back c (fails {e} {s} p) h k = kept e (h s p) k

  -- What follows a call may be replaced by what does the same after its outcomes.
  pub same_after :
      {B : Type 0} {P : A → S → Type 0} {E : ℕ → S → Type 0} {r : Run S A} {k l : A → Cmd S B}
      → Ends P E r
      → ((a : A) (s : S) → P a s → k a s ≡ l a s)
      → and_then r k ≡ and_then r l
  same_after (returns p) h = h _ _ p
  same_after (fails p) h = refl

  pub same_else :
      (b : Bool) (m k l : Cmd S A) (s : S)
      → k s ≡ l s
      → (if b then m else k) s ≡ (if b then m else l) s
  same_else true m k l s h = refl
  same_else false m k l s h = h

  -- Whatever a call does, it returns or fails.
  pub anything : (r : Run S A) → Ends (λ _ _. Unit {0}) (λ _ _. Unit {0}) r
  anything (ok a s) = returns tt
  anything (err e s) = fails tt

  -- A call ends as it ends.
  pub exactly : (r : Run S A) → Ends (λ a s. r ≡ ok a s) (λ e s. r ≡ err e s) r
  exactly (ok a s) = returns refl
  exactly (err e s) = fails refl

  -- Two things that hold after the same call.
  pub both :
      {P Q : A → S → Type 0} {E F : ℕ → S → Type 0} {r : Run S A}
      → Ends P E r
      → Ends Q F r
      → Ends (λ a s. P a s × Q a s) (λ e s. E e s × F e s) r
  both (returns p) (returns q) = returns (p, q)
  both (fails p) (fails q) = fails (p, q)
