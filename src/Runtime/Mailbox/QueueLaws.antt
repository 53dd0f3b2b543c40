-- ===== src/Runtime/Mailbox/QueueLaws.antt =====
-- Laws of the mailbox's list operations (src/eeveetuber/runtime/mailbox.py): each one takes exactly
-- one entry out of its place, and that entry is the right one.
use eeveetuber.Common.{
  ℕ, suc, ◌+◌, ◌≤◌, ◌<◌, ◌≡◌, refl, inl, inr, true, false, not, ◌&&◌, some, List, [], ◌∷◌, ◌++◌,
  arith, length, All, Bool-cases, Option-cases, subst, ltb,
}
use eeveetuber.Common.Int.{ℤ, eqb_ℤ}
use eeveetuber.Runtime.Mailbox.Queue.{Entry, outranks, select, pop_newest, insert, delivery_order}

module _ {A : Type 0} where
  -- `ys` is `xs` with one occurrence of `e` taken out of its place.
  pub data Removed (e : Entry A) : List (Entry A) → List (Entry A) → Type 0 where
    here : {xs : List (Entry A)} → Removed e (e ∷ xs) xs
    there : {x : Entry A} {xs ys : List (Entry A)} → Removed e xs ys → Removed e (x ∷ xs) (x ∷ ys)

  -- The orders rise along the list, from at least `lo` to below `hi`.
  abbrev pub Ascending : ℕ → ℕ → List (Entry A) → Type 0
  Ascending lo hi [] = lo ≤ hi
  Ascending lo hi (e ∷ es) = (lo ≤ e.order) × Ascending (suc e.order) hi es

  pub select-Removed :
      (x : Entry A) (xs : List (Entry A)) → Removed (select x xs).0 (x ∷ xs) (select x xs).1
  unfolding select
  select-Removed x [] = here
  select-Removed x (y ∷ ys) = elim (Bool-cases (outranks (select y ys).0 x)) [
    | inl e ↦ rw e (there (select-Removed y ys))
    | inr e ↦ rw e here
  ]

  Removed-here : {x e : Entry A} {xs ys : List (Entry A)} → x ≡ e → xs ≡ ys → Removed e (x ∷ xs) ys
  Removed-here {x} {e} {xs} p q =
      subst (λ l. Removed e (x ∷ xs) l) q (subst (λ t. Removed t (x ∷ xs) xs) p here)

  Removed-there :
      {x b e : Entry A} {xs rest ys : List (Entry A)}
      → Removed b xs rest
      → b ≡ e
      → x ∷ rest ≡ ys
      → Removed e (x ∷ xs) ys
  Removed-there {x} {b} {e} {xs} {rest} r p q =
      subst (λ l. Removed e (x ∷ xs) l) q (subst (λ t. Removed t (x ∷ xs) (x ∷ rest)) p (there r))

  pub pop_newest-Removed :
      (p : ℤ) (xs : List (Entry A)) {e : Entry A} {ys : List (Entry A)}
      → pop_newest p xs ≡ some (e, ys)
      → Removed e xs ys
  unfolding pop_newest
  pop_newest-Removed p [] h = cc
  pop_newest-Removed p (x ∷ xs) {e} {ys} h = elim (Option-cases (pop_newest p xs)) [
    | inl q ↦ Removed-here (ground arith) (ground arith)
    | inr ((b, rest), q) ↦ elim (Bool-cases (eqb_ℤ x.priority p && not (ltb x.order b.order))) [
      | inl t ↦ Removed-here (ground arith) (ground arith)
      | inr f ↦ Removed-there (pop_newest-Removed p xs q) (ground arith) (ground arith)
    ]
  ]

  pub length-Removed :
      {e : Entry A} {xs ys : List (Entry A)} → Removed e xs ys → length xs ≡ suc (length ys)
  length-Removed here = refl
  length-Removed (there r) = omega (arith, length-Removed r)

  pub All-Removed {κ} :
      {e : Entry A} {xs ys : List (Entry A)} (P : Entry A → Type κ)
      → Removed e xs ys
      → All P xs
      → P e × All P ys
  All-Removed P here h = h
  All-Removed P (there r) h = let (p, ps) = All-Removed P r h.1 in (p, (h.0, ps))

  pub Ascending-weaken :
      (lo lo' hi : ℕ) (xs : List (Entry A)) → lo' ≤ lo → Ascending lo hi xs → Ascending lo' hi xs
  Ascending-weaken lo lo' hi [] l h = omega arith
  Ascending-weaken lo lo' hi (x ∷ xs) l h = (omega arith, h.1)

  pub Ascending-Removed :
      {e : Entry A} (lo hi : ℕ) {xs ys : List (Entry A)}
      → Removed e xs ys
      → Ascending lo hi xs
      → Ascending lo hi ys
  Ascending-Removed lo hi (here {xs = xs}) h = Ascending-weaken _ lo hi xs (omega arith) h.1
  Ascending-Removed lo hi (there {x = x} r) h = (h.0, Ascending-Removed (suc x.order) hi r h.1)

  pub Ascending-append :
      (lo hi : ℕ) (xs : List (Entry A)) (e : Entry A)
      → Ascending lo hi xs
      → e.order ≡ hi
      → Ascending lo (hi + 1) (xs ++ e ∷ [])
  Ascending-append lo hi [] e h q = (omega arith, omega arith)
  Ascending-append lo hi (x ∷ xs) e h q = (h.0, Ascending-append (suc x.order) hi xs e h.1 q)

  pub All-of_Removed {κ} :
      {e : Entry A} (P : Entry A → Type κ) {xs ys : List (Entry A)}
      → Removed e xs ys
      → P e
      → All P ys
      → All P xs
  All-of_Removed P here p ps = (p, ps)
  All-of_Removed P (there r) p ps = (ps.0, All-of_Removed P r p ps.1)

  outranks_trans :
      (a b c : Entry A) → outranks a b ≡ true → outranks b c ≡ true → outranks a c ≡ true
  unfolding outranks
  outranks_trans a b c h k = ground arith

  outranks_older : (a b : Entry A) → b.order < a.order → outranks a b ≡ false → outranks b a ≡ true
  unfolding outranks
  outranks_older a b h k = ground arith

  All-outranked :
      (x b : Entry A) (ys : List (Entry A))
      → outranks x b ≡ true
      → All (λ y. outranks b y ≡ true) ys
      → All (λ y. outranks x y ≡ true) ys
  All-outranked x b [] h a = tt
  All-outranked x b (y ∷ ys) h a = (outranks_trans x b y h a.0, All-outranked x b ys h a.1)

  -- Where the orders rise, the selected entry outranks every other one.
  pub select_best :
      (lo hi : ℕ) (x : Entry A) (xs : List (Entry A))
      → Ascending lo hi (x ∷ xs)
      → (lo ≤ (select x xs).0.order) × All (λ y. outranks (select x xs).0 y ≡ true) (select x xs).1
  unfolding select
  select_best lo hi x [] h = (h.0, tt)
  select_best lo hi x (y ∷ ys) h =
      let (later, best) = select_best (suc x.order) hi y ys h.1 in
      let b = (select y ys).0 in
      elim (Bool-cases (outranks b x)) [
        | inl e ↦ rw e (omega (arith, later, h.0), (e, best))
        | inr e ↦
            let up : outranks x b ≡ true = outranks_older b x later e in
            rw e (
              h.0,
              All-of_Removed (λ z. outranks x z ≡ true) (select-Removed y ys) up
                  (All-outranked x b (select y ys).1 up best),
            )
      ]

  -- The delivery order is what repeated selection yields.
  pub delivery_order-select :
      (x : Entry A) (xs : List (Entry A))
      → delivery_order (x ∷ xs) ≡ (select x xs).0 ∷ delivery_order (select x xs).1
  unfolding select delivery_order
  delivery_order-select x [] = refl
  delivery_order-select x (y ∷ ys) =
      let ih = delivery_order-select y ys in
      elim (Bool-cases (outranks (select y ys).0 x)) [
        | inl e ↦ rw (e, ih) (rw e)
        | inr e ↦ rw (e, ih) (rw e)
      ]

  length-insert : (x : Entry A) (xs : List (Entry A)) → length (insert x xs) ≡ suc (length xs)
  unfolding insert
  length-insert x [] = refl
  length-insert x (y ∷ ys) = ground (arith, length-insert x ys)

  pub length-delivery_order : (xs : List (Entry A)) → length (delivery_order xs) ≡ length xs
  unfolding delivery_order
  length-delivery_order [] = refl
  length-delivery_order (x ∷ xs) =
      omega (arith, length-insert x (delivery_order xs), length-delivery_order xs)
