-- ===== src/Pds/Rules.antt =====
-- Rules for the servo operations of Pds/Control.antt: what every outcome keeps (`Keeps`), and what a
-- successful outcome leaves behind (`Leaves`).
use ingenialink.Base.{Bool, true, false, Option, none, some, Result, ok, err, ◌≡◌, refl, arith}
use ingenialink.Pds.Control.{M, Servo, return, ◌>>=◌}

module _ {W : Type 0} where
  -- Whatever the operation returns, the world still satisfies `P`.
  abbrev pub Keeps : (W → Type 0) → {A : Type 0} → M W A → Type 0
  Keeps P {A} m =
      (s : Servo W) (r : Result A) (s' : Servo W) → P s.world → m s ≡ some (r, s') → P s'.world

  -- Started in `s`, the operation succeeds only with a result and a state that satisfy `Q`.
  abbrev pub Leaves : {A : Type 0} → (A → Servo W → Type 0) → M W A → Servo W → Type 0
  Leaves {A} Q m s = (a : A) (s' : Servo W) → m s ≡ some (ok a, s') → Q a s'

  bind-Keeps :
      {A B : Type 0} (P : W → Type 0) (f : A → M W B) (o : Option (Result A × Servo W))
      (r : Result B) (s' : Servo W)
      → ((r1 : Result A) (s1 : Servo W) → o ≡ some (r1, s1) → P s1.world)
      → ((a : A) → Keeps P (f a))
      → (elim o [
        | none ↦ none
        | some (r1, s1) ↦ elim r1 [ ok a ↦ f a s1 | err e ↦ some (err e, s1) ]
      ])
        ≡ some (r, s')
      → P s'.world
  bind-Keeps P f none r s' h k e = ground arith
  bind-Keeps P f (some (ok a, s1)) r s' h k e = k a s1 r s' (h (ok a) s1 refl) e
  bind-Keeps P f (some (err x, s1)) r s' h k e = ground (arith, h (err x) s1 refl)

  pub Keeps-bind :
      {A B : Type 0} (P : W → Type 0) (m : M W A) (f : A → M W B)
      → Keeps P m
      → ((a : A) → Keeps P (f a))
      → Keeps P (m >>= f)
  Keeps-bind P m f h k s r s' p e = bind-Keeps P f (m s) r s' (λ r1 s1. h s r1 s1 p) k e

  pub Keeps-return : {A : Type 0} (P : W → Type 0) (r : Result A) → Keeps P (return r)
  Keeps-return P r s r' s' p e = ground arith

  pub Keeps-return_bind :
      {A B : Type 0} (P : W → Type 0) (r : Result A) (f : A → M W B)
      → ((a : A) → r ≡ ok a → Keeps P (f a))
      → Keeps P (return r >>= f)
  Keeps-return_bind P (ok a) f h = h a refl
  Keeps-return_bind P (err e) f h = Keeps-return P (err e)

  pub Keeps-none : {A : Type 0} (P : W → Type 0) → Keeps P {A = A} (λ s. none)
  Keeps-none P s r s' p e = ground arith

  pub Keeps-if :
      {A : Type 0} (P : W → Type 0) (b : Bool) (m k : M W A)
      → Keeps P m
      → Keeps P k
      → Keeps P (λ s. elim b [ true ↦ m s | false ↦ k s ])
  Keeps-if P true m k hm hk = hm
  Keeps-if P false m k hm hk = hk

  -- `elim` on a test, its branches in the other order.
  pub Keeps-unless :
      {A : Type 0} (P : W → Type 0) (b : Bool) (m k : M W A)
      → Keeps P m
      → Keeps P k
      → Keeps P (λ s. elim b [ false ↦ m s | true ↦ k s ])
  Keeps-unless P b m k hm hk = Keeps-if P b k m hk hm

  bind-Leaves :
      {A B : Type 0} (Q : A → Servo W → Type 0) (R : B → Servo W → Type 0) (f : A → M W B)
      (o : Option (Result A × Servo W)) (b : B) (s' : Servo W)
      → ((a : A) (s1 : Servo W) → o ≡ some (ok a, s1) → Q a s1)
      → ((a : A) (s1 : Servo W) → Q a s1 → Leaves R (f a) s1)
      → (elim o [
        | none ↦ none
        | some (r1, s1) ↦ elim r1 [ ok a ↦ f a s1 | err e ↦ some (err e, s1) ]
      ])
        ≡ some (ok b, s')
      → R b s'
  bind-Leaves Q R f none b s' h k e = ground arith
  bind-Leaves Q R f (some (ok a, s1)) b s' h k e = k a s1 (h a s1 refl) b s' e
  bind-Leaves Q R f (some (err x, s1)) b s' h k e = ground arith

  pub Leaves-bind :
      {A B : Type 0} (Q : A → Servo W → Type 0) (R : B → Servo W → Type 0) (m : M W A)
      (f : A → M W B) (s : Servo W)
      → Leaves Q m s
      → ((a : A) (s1 : Servo W) → Q a s1 → Leaves R (f a) s1)
      → Leaves R (m >>= f) s
  Leaves-bind Q R m f s h k b s' e = bind-Leaves Q R f (m s) b s' h k e
