-- ===== src/Common/Action.antt =====
-- A method call on an object of type `S` that returns or raises: what was written before a raise
-- stays written.
use mathlib.Core.Bool.{Bool, true, false}
use eeveetuber.Common.Result.{Result, ok, err}

abbrev pub Action : Type 0 → Type 0 → Type 0 → Type 0
Action S E A = S → S × Result E A

module _ {S E : Type 0} where
  infixl 5 ◌>>=◌ ◌>>◌
  -- What follows a call, by how the call ended.
  abbrev pub continue : {A B : Type 0} → Result E A → (A → Action S E B) → Action S E B
  continue (ok a) f s = f a s
  continue (err e) f s = (s, err e)

  abbrev pub ◌>>=◌ : {A B : Type 0} → Action S E A → (A → Action S E B) → Action S E B
  ◌>>=◌ m f s = continue (m s).1 f (m s).0

  abbrev pub ◌>>◌ : {A B : Type 0} → Action S E A → Action S E B → Action S E B
  m >> k = m >>= λ _. k

  abbrev pub pure : {A : Type 0} → A → Action S E A
  pure a s = (s, ok a)

  abbrev pub gets : {A : Type 0} → (S → A) → Action S E A
  gets f s = (s, ok (f s))

  abbrev pub modify : (S → S) → Action S E (Unit {0})
  modify f s = (f s, ok tt)

  abbrev pub lift : {A : Type 0} → Result E A → Action S E A
  lift r s = (s, r)

  abbrev pub raise_if : Bool → E → Action S E (Unit {0})
  raise_if true e s = (s, err e)
  raise_if false e s = (s, ok tt)

-- A call whose error is of another type.
abbrev pub map_error : {E F A : Type 0} → (E → F) → Result E A → Result F A
map_error f (ok a) = ok a
map_error f (err e) = err (f e)

module _ {S E A B : Type 0} (I : S → Type 0) where
  pub continue_stable :
      (r : Result E A) (f : A → Action S E B) (s : S)
      → I s
      → ((a : A) (t : S) → I t → I (f a t).0)
      → I (continue r f s).0
  continue_stable (ok a) f s i h = h a s i
  continue_stable (err e) f s i h = i

  -- A property of the state that two calls keep is kept by one after the other.
  pub bind_stable :
      (m : Action S E A) (f : A → Action S E B)
      → ((s : S) → I s → I (m s).0)
      → ((a : A) (s : S) → I s → I (f a s).0)
      → (s : S) → I s
      → I ((m >>= f) s).0
  bind_stable m f hm hf s i = continue_stable (m s).1 f (m s).0 (hm s i) hf
