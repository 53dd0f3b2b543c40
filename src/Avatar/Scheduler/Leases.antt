-- ===== src/Avatar/Scheduler/Leases.antt =====
-- Leases that exclude one another (src/eeveetuber/avatar/scheduler.py): one lease for each layer and
-- one for each resource, and the index by layer.
use eeveetuber.Common.{
  ◌⊎◌, ℕ, ◌≡◌, ◌∙◌, ap, sym, subst, refl, inl, inr, Bool, true, false, not, Option, none, some,
  List, [], ◌∷◌, ◌++◌, arith, Bool-cases, if_cases, if◌then◌else◌, All, All-snoc, All-keep, All-map,
  keep, any,
}
use eeveetuber.Avatar.Presentation.{PresentationLayer, same_layer, PresentationCue, ActiveLease}
use eeveetuber.Avatar.Scheduler.State.{has_id, conflicts, find_lease, set_lease}

pub same_layer-eq : (a b : PresentationLayer) → same_layer a b ≡ true → a ≡ b
same_layer-eq a b h = ground arith

pub same_layer_refl : (a : PresentationLayer) → same_layer a a ≡ true
same_layer_refl a = ground arith

-- No lease is in the way of a later one: each has a layer and resources of its own.
abbrev pub Exclusive : List ActiveLease → Type 0
Exclusive [] = Unit
Exclusive (x ∷ xs) = All (λ y. conflicts y.cue x ≡ false) xs × Exclusive xs

-- The identifier of the lease that holds a layer.
abbrev pub layer_id : PresentationLayer → List ActiveLease → Option ℕ
layer_id layer [] = none
layer_id layer (x ∷ xs) =
    if same_layer x.cue.layer layer then some x.cue.cue_id else layer_id layer xs

pub Exclusive-keep :
    (test : ActiveLease → Bool) (xs : List ActiveLease) → Exclusive xs → Exclusive (keep test xs)
Exclusive-keep test [] h = tt
Exclusive-keep test (x ∷ xs) (apart, rest) =
    if_cases Exclusive (test x)
      (λ _. (All-keep (λ y. conflicts y.cue x ≡ false) test xs apart, Exclusive-keep test xs rest))
      (λ _. Exclusive-keep test xs rest)

pub Exclusive-append :
    (xs : List ActiveLease) (new_lease : ActiveLease)
    → Exclusive xs
    → All (λ x. conflicts new_lease.cue x ≡ false) xs
    → Exclusive (xs ++ new_lease ∷ [])
Exclusive-append [] new_lease h free = (tt, tt)
Exclusive-append (x ∷ xs) new_lease (apart, rest) (f, free) = (
  All-snoc (λ y. conflicts y.cue x ≡ false) xs new_lease apart f,
  Exclusive-append xs new_lease rest free,
)

pub same_layer_comm : (a b : PresentationLayer) → same_layer a b ≡ same_layer b a
same_layer_comm a b = ground arith

pub layer_id-none :
    (layer : PresentationLayer) (xs : List ActiveLease)
    → All (λ x. same_layer x.cue.layer layer ≡ false) xs
    → layer_id layer xs ≡ none
layer_id-none layer [] h = refl
layer_id-none layer (x ∷ xs) (other, rest) = rw other (layer_id-none layer xs rest)

pub layer_id-append :
    (layer : PresentationLayer) (xs : List ActiveLease) (new_lease : ActiveLease)
    → All (λ x. conflicts new_lease.cue x ≡ false) xs
    → layer_id layer (xs ++ new_lease ∷ []) ≡ (
        if same_layer layer new_lease.cue.layer
        then some new_lease.cue.cue_id
        else layer_id layer xs)
layer_id-append layer [] new_lease h = rw (same_layer_comm layer new_lease.cue.layer) refl
layer_id-append layer (x ∷ xs) new_lease (free, rest) =
    elim (Bool-cases (same_layer x.cue.layer layer)) [
      | inl held ↦
          let here = same_layer-eq x.cue.layer layer held in
          let apart : same_layer layer new_lease.cue.layer ≡ false =
            subst (λ l. same_layer l new_lease.cue.layer ≡ false) here (ground arith) in
          rw (held, apart) refl
      | inr other ↦ rw other (layer_id-append layer xs new_lease rest)
    ]

-- An identifier is used for cues of one layer only.
module _ (owner : ℕ → PresentationLayer) where
  abbrev pub IsOwned : ActiveLease → Type 0
  IsOwned x = owner x.cue.cue_id ≡ x.cue.layer

  -- A lease with the identifier holds the owner's layer, so nothing apart from it does.
  pub apart_from_id :
      (id : ℕ) (x : ActiveLease) (ys : List ActiveLease)
      → All (λ y. conflicts y.cue x ≡ false) ys
      → All IsOwned ys
      → any (has_id id) ys ≡ true
      → same_layer x.cue.layer (owner id) ≡ false
  apart_from_id id x [] apart owned h = absurd (ground arith)
  apart_from_id id x (y ∷ ys) (a, apart) (o, owned) h = elim (Bool-cases (has_id id y)) [
    | inl same ↦
        let holder : y.cue.layer ≡ owner id = sym o ∙ ap owner (ground arith) in
        subst (λ l. same_layer x.cue.layer l ≡ false) holder (ground arith)
    | inr other ↦ apart_from_id id x ys apart owned (ground arith)
  ]

  pub own_layer :
      (id : ℕ) (x : ActiveLease) → IsOwned x → has_id id x ≡ true → x.cue.layer ≡ owner id
  own_layer id x o h = sym o ∙ ap owner (ground arith)

  -- The index finds the one lease of an identifier.
  pub layer_id-owner :
      (id : ℕ) (xs : List ActiveLease)
      → Exclusive xs
      → All IsOwned xs
      → any (has_id id) xs ≡ true
      → layer_id (owner id) xs ≡ some id
  layer_id-owner id [] e o h = absurd (ground arith)
  layer_id-owner id (x ∷ xs) (apart, rest) (o, owned) h = elim (Bool-cases (has_id id x)) [
    | inl same ↦
        let holds =
          subst (λ l. same_layer l (owner id) ≡ true) (sym (own_layer id x o same))
            (same_layer_refl (owner id)) in
        rw holds (ap some (ground arith))
    | inr other ↦
        let later : any (has_id id) xs ≡ true = ground arith in
        rw (apart_from_id id x xs apart owned later) (layer_id-owner id xs rest owned later)
  ]

  -- After a removal, the identifier's layer is free.
  pub layer_id-freed :
      (id : ℕ) (xs : List ActiveLease)
      → Exclusive xs
      → All IsOwned xs
      → any (has_id id) xs ≡ true
      → layer_id (owner id) (keep (λ y. not (has_id id y)) xs) ≡ none
  layer_id-freed id [] e o h = absurd (ground arith)
  layer_id-freed id (x ∷ xs) (apart, rest) (o, owned) h = elim (Bool-cases (has_id id x)) [
    | inl same ↦
        let others =
          All-map (λ y. conflicts y.cue x ≡ false)
            (λ (y : ActiveLease). same_layer y.cue.layer (owner id) ≡ false) xs
            (λ y free.
              same_layer_comm y.cue.layer (owner id)
              ∙ subst (λ l. same_layer l y.cue.layer ≡ false) (own_layer id x o same)
                  (ground arith))
            apart in
        rw same (
          layer_id-none (owner id) (keep (λ y. not (has_id id y)) xs) (
            All-keep (λ (y : ActiveLease). same_layer y.cue.layer (owner id) ≡ false)
              (λ y. not (has_id id y)) xs others))
    | inr other ↦
        let later : any (has_id id) xs ≡ true = ground arith in
        rw (other, apart_from_id id x xs apart owned later) (layer_id-freed id xs rest owned later)
  ]

  -- The other layers keep their leases.
  pub layer_id-kept :
      (id : ℕ) (layer : PresentationLayer) (xs : List ActiveLease)
      → same_layer layer (owner id) ≡ false
      → All IsOwned xs
      → layer_id layer (keep (λ y. not (has_id id y)) xs) ≡ layer_id layer xs
  layer_id-kept id layer [] d o = refl
  layer_id-kept id layer (x ∷ xs) d (o, owned) = elim (Bool-cases (has_id id x)) [
    | inl same ↦
        let elsewhere : same_layer x.cue.layer layer ≡ false =
          subst (λ l. same_layer l layer ≡ false) (sym (own_layer id x o same))
            (same_layer_comm (owner id) layer ∙ d) in
        rw (same, elsewhere) (layer_id-kept id layer xs d owned)
    | inr other ↦ rw other (
        ap (λ r. if same_layer x.cue.layer layer then some x.cue.cue_id else r)
          (layer_id-kept id layer xs d owned))
  ]

  -- A cue that nothing stands in the way of has an identifier that no lease has.
  pub free_id :
      (cue : PresentationCue) (xs : List ActiveLease)
      → owner cue.cue_id ≡ cue.layer
      → All IsOwned xs
      → All (λ x. conflicts cue x ≡ false) xs
      → All (λ x. has_id cue.cue_id x ≡ false) xs
  free_id cue [] own owned free = tt
  free_id cue (x ∷ xs) own (o, owned) (f, free) = elim (Bool-cases (has_id cue.cue_id x)) [
    | inl same ↦
        let clash : same_layer x.cue.layer cue.layer ≡ true =
          subst (λ l. same_layer l cue.layer ≡ true) (sym (own_layer cue.cue_id x o same ∙ own))
            (same_layer_refl cue.layer) in
        absurd (ground arith)
    | inr other ↦ (other, free_id cue xs own owned free)
  ]

-- Assignment to a new key goes to the end.
pub set_lease_lem :
    (new_lease : ActiveLease) (xs : List ActiveLease)
    → All (λ x. has_id new_lease.cue.cue_id x ≡ false) xs
    → set_lease new_lease xs ≡ xs ++ new_lease ∷ []
unfolding set_lease
set_lease_lem new_lease [] h = refl
set_lease_lem new_lease (x ∷ xs) (other, rest) =
    rw other (ap (λ r. x ∷ r) (set_lease_lem new_lease xs rest))

-- A lookup finds a lease with the key, or there is none.
pub find_lease_lem :
    (id : ℕ) (xs : List ActiveLease)
    → ((find_lease id xs ≡ none) × All (λ x. has_id id x ≡ false) xs)
      ⊎ ((x : ActiveLease) × (find_lease id xs ≡ some x)
          × (has_id id x ≡ true)
          × (any (has_id id) xs ≡ true))
unfolding find_lease
find_lease_lem id [] = inl (refl, tt)
find_lease_lem id (x ∷ xs) = elim (Bool-cases (has_id id x)) [
  | inl same ↦ inr (x, rw same refl, same, rw same refl)
  | inr other ↦ elim (find_lease_lem id xs) [
    | inl (e, none_there) ↦ inl (rw other e, (other, none_there))
    | inr (y, e, same, found) ↦ inr (y, rw other e, same, rw (other, found) refl)
  ]
]

pub keep-All :
    (id : ℕ) (xs : List ActiveLease)
    → All (λ x. has_id id x ≡ false) xs
    → keep (λ y. not (has_id id y)) xs ≡ xs
keep-All id [] h = refl
keep-All id (x ∷ xs) (other, rest) = rw other (ap (λ r. x ∷ r) (keep-All id xs rest))

-- A property of all leases holds of the one that a lookup finds.
pub All-find_lease {κ} :
    (P : ActiveLease → Type κ) (id : ℕ) (x : ActiveLease) (xs : List ActiveLease)
    → All P xs
    → find_lease id xs ≡ some x
    → P x
unfolding find_lease
All-find_lease P id x [] h e = absurd (cc)
All-find_lease P id x (y ∷ ys) (p, rest) e = elim (Bool-cases (has_id id y)) [
  | inl same ↦ subst P (ground arith) p
  | inr other ↦ All-find_lease P id x ys rest (ground arith)
]
