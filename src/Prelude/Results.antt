-- ===== src/Prelude/Results.antt =====
-- A value or an error: Go's (T, error) results, in do blocks, with the inversions that proofs use.
use mathlib.Core.Path.{◌≡◌, refl, ap}
use mathlib.Core.Bool.{Bool, true, false, not}
use mathlib.Core.Option.{Option, none, some}
use argvio.Prelude.Tests.{is_some}

-- The error comes with its own type: each package has its own.
pub data Result {i j} (E : Type i) (T : Type j) : Type (i ⊔ j) where
  err : E → Result E T
  ok : T → Result E T

-- if err != nil { return err }, and the code that follows.
module _ {i j k} {E : Type i} {T : Type j} {S : Type k} where
  infixl 5 ◌>>=◌
  abbrev pub ◌>>=◌ : Result E T → (T → Result E S) → Result E S
  err why >>= next = err why
  ok t >>= next = next t

  -- What follows ran to its end only if the first call did.
  pub ok_of_bind :
      (call : Result E T) (next : T → Result E S) {s : S}
      → (call >>= next) ≡ ok s
      → (t : T) × (call ≡ ok t) × (next t ≡ ok s)
  ok_of_bind (err why) next ended = cc
  ok_of_bind (ok t) next ended = (t, refl, ended)

infixl 5 ◌>>◌
abbrev pub ◌>>◌ {i k} : {E : Type i} {S : Type k} → Result E (Unit {0}) → Result E S → Result E S
check >> next = check >>= λ _. next

module _ {i} {E : Type i} where
  -- if b { return why }
  abbrev pub fail_if : Bool → E → Result E (Unit {0})
  fail_if false why = ok tt
  fail_if true why = err why

  abbrev pub or_fail {j} : {T : Type j} → Option T → E → Result E T
  or_fail (some t) why = ok t
  or_fail none why = err why

  abbrev ok_or {j} : {T : Type j} → T → Result E T → T
  ok_or other (err why) = other
  ok_or other (ok t) = t

  pub ok-injective {j} : {T : Type j} {s t : T} → ◌≡◌ {A = Result E T} (ok s) (ok t) → s ≡ t
  ok-injective {s = s} same = ap (ok_or s) same

  abbrev err_or {j} : {T : Type j} → E → Result E T → E
  err_or other (ok t) = other
  err_or other (err why) = why

  pub err-injective {j} : {T : Type j} {d e : E} → ◌≡◌ {A = Result E T} (err d) (err e) → d ≡ e
  err-injective {d = d} same = ap (err_or d) same

  -- What held when a check let the call go on.
  pub none_of_fail_if {j} :
      {T : Type j} (o : Option T) (why : E) (u : Unit {0})
      → fail_if (is_some o) why ≡ ok u
      → o ≡ none
  none_of_fail_if none why u h = refl
  none_of_fail_if (some t) why u h = cc h

  pub true_of_fail_if : (b : Bool) (why : E) (u : Unit {0}) → fail_if (not b) why ≡ ok u → b ≡ true
  true_of_fail_if true why u h = refl
  true_of_fail_if false why u h = cc h

  pub false_of_fail_if : (b : Bool) (why : E) (u : Unit {0}) → fail_if b why ≡ ok u → b ≡ false
  false_of_fail_if true why u h = cc h
  false_of_fail_if false why u h = refl

  pub some_of_or_fail {j} :
      {T : Type j} (o : Option T) (why : E) (t : T) → or_fail o why ≡ ok t → o ≡ some t
  some_of_or_fail none why t h = cc h
  some_of_or_fail (some s) why t h = ap (λ x. some x) (ok-injective h)

-- What follows a check, when it passed.
pub ok_of_check :
    {E S : Type 0} (b : Bool) (why : E) (next : Result E S) {s : S}
    → (fail_if b why >> next) ≡ ok s
    → next ≡ ok s
ok_of_check true why next ended = cc ended
ok_of_check false why next ended = ended
