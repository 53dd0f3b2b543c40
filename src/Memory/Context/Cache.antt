-- ===== src/Memory/Context/Cache.antt =====
-- `ContextSnapshotCache` of src/eeveetuber/memory/context.py. A dictionary is a function; a namespace
-- and a snapshot's identifier are numbers. The lock makes a call atomic.
use eeveetuber.Common.{
  ℕ, ◌≤◌, ◌<◌, ◌≡◌, refl, subst, inl, inr, Bool, true, false, Option, none, some, List, [], ◌∷◌,
  ◌⊎◌, arith, Bool-cases, if_cases, if◌then◌else◌, ltb, ◌==◌, All,
}
use eeveetuber.Common.Result.{Result, ok, err}
use eeveetuber.Common.Action.{Action}
use eeveetuber.Memory.Context.{ContextSnapshot}

-- A snapshot with the fields that the cache reads.
pub record PinnedSnapshot : Type 0 where
  pub namespace : ℕ
  pub memory_generation : ℕ
  pub snapshot_id : ℕ
  pub snapshot : ContextSnapshot

pub record ContextSnapshotCache : Type 0 where
  pub latest : ℕ → Option PinnedSnapshot
  pub by_id : ℕ → Option PinnedSnapshot

-- `StaleSnapshotError`
pub data CacheError : Type 0 where
  stale_snapshot : CacheError

abbrev pub empty : ContextSnapshotCache
empty = record { latest = λ _. none; by_id = λ _. none }

abbrev pub set_key : ℕ → PinnedSnapshot → (ℕ → Option PinnedSnapshot) → ℕ → Option PinnedSnapshot
set_key key snapshot f k = if k == key then some snapshot else f k

-- `current and snapshot.generation < current.generation`
abbrev pub is_stale : ℕ → Option PinnedSnapshot → Bool
is_stale generation none = false
is_stale generation (some current) = ltb generation current.memory_generation

abbrev pub store : PinnedSnapshot → ContextSnapshotCache → ContextSnapshotCache
store p s = record {
  latest = set_key p.namespace p s.latest;
  by_id = set_key p.snapshot_id p s.by_id;
}

-- `publish`
unfoldable pub publish : PinnedSnapshot → Action ContextSnapshotCache CacheError (Unit {0})
publish p s =
    if is_stale p.memory_generation (s.latest p.namespace)
    then (s, err stale_snapshot)
    else (store p s, ok tt)

-- `latest` and `get`
abbrev pub latest : ℕ → ContextSnapshotCache → Option PinnedSnapshot
latest namespace s = s.latest namespace

abbrev pub get : ℕ → ContextSnapshotCache → Option PinnedSnapshot
get snapshot_id s = s.by_id snapshot_id

-- The cache after the calls, whichever of them raise.
abbrev pub publish_all : List PinnedSnapshot → ContextSnapshotCache → ContextSnapshotCache
publish_all [] s = s
publish_all (p ∷ ps) s = publish_all ps (publish p s).0

-- The namespace has a snapshot of the generation or of a newer one.
abbrev pub IsAtLeast : ℕ → Option PinnedSnapshot → Type 0
IsAtLeast generation none = ⊥
IsAtLeast generation (some current) = generation ≤ current.memory_generation

-- The namespace has a snapshot of a strictly newer generation, and it has none.
abbrev pub IsSuperseded : ℕ → Option PinnedSnapshot → Type 0
IsSuperseded generation none = ⊥
IsSuperseded generation (some current) = generation < current.memory_generation

abbrev pub IsCurrent : ℕ → Option PinnedSnapshot → Type 0
IsCurrent generation none = Unit
IsCurrent generation (some current) = current.memory_generation ≤ generation

stale-IsSuperseded :
    (generation : ℕ) (current : Option PinnedSnapshot)
    → is_stale generation current ≡ true
    → IsSuperseded generation current
stale-IsSuperseded generation none h = absurd (cc)
stale-IsSuperseded generation (some current) h = ground arith

fresh-IsCurrent :
    (generation : ℕ) (current : Option PinnedSnapshot)
    → is_stale generation current ≡ false
    → IsCurrent generation current
fresh-IsCurrent generation none h = tt
fresh-IsCurrent generation (some current) h = ground arith

-- Publishing raises if the namespace's latest snapshot has a strictly greater generation, and then
-- changes nothing. If there is none or its generation is at most the new one's, the new snapshot
-- becomes its namespace's latest one and is found by its identifier, and the other namespaces and
-- identifiers are as before.
pub publish_lem :
    (p : PinnedSnapshot) (s : ContextSnapshotCache)
    → (IsSuperseded p.memory_generation (latest p.namespace s)
        × (publish p s ≡ (s, err stale_snapshot)))
      ⊎ (IsCurrent p.memory_generation (latest p.namespace s)
          × (((publish p s).1 ≡ ok tt)
              × (((latest p.namespace (publish p s).0 ≡ some p)
                    × (get p.snapshot_id (publish p s).0 ≡ some p))
                  × (((namespace : ℕ)
                        → (namespace == p.namespace) ≡ false
                        → latest namespace (publish p s).0 ≡ latest namespace s)
                      × ((id : ℕ)
                          → (id == p.snapshot_id) ≡ false
                          → get id (publish p s).0 ≡ get id s)))))
unfolding publish
publish_lem p s =
    let generation = p.memory_generation in
    let current = s.latest p.namespace in
    elim (Bool-cases (is_stale generation current)) [
      | inl stale ↦ inl (stale-IsSuperseded generation current stale, rw stale refl)
      | inr fresh ↦
          let same : (n : ℕ) → (n == n) ≡ true = λ n. ground arith in
          inr (
            fresh-IsCurrent generation current fresh,
            rw fresh (
              refl,
              (
                (rw (same p.namespace) refl, rw (same p.snapshot_id) refl),
                (λ namespace other. rw other refl, λ id other. rw other refl),
              ),
            ),
          )
    ]

is_stale-IsAtLeast :
    (generation : ℕ) (current : Option PinnedSnapshot)
    → is_stale generation current ≡ true
    → IsAtLeast generation current
is_stale-IsAtLeast generation none h = absurd (cc)
is_stale-IsAtLeast generation (some current) h = ground arith

is_stale-bound :
    (older generation : ℕ) (current : Option PinnedSnapshot)
    → is_stale generation current ≡ false
    → IsAtLeast older current
    → older ≤ generation
is_stale-bound older generation none fresh h = elim h [ ]
is_stale-bound older generation (some current) fresh h = ground arith

publish-IsAtLeast :
    (p : PinnedSnapshot) (s : ContextSnapshotCache)
    → IsAtLeast p.memory_generation (latest p.namespace (publish p s).0)
unfolding publish
publish-IsAtLeast p s =
    let P = λ (r : ContextSnapshotCache × Result CacheError (Unit {0})).
      IsAtLeast p.memory_generation (latest p.namespace r.0) in
    let same : (p.namespace == p.namespace) ≡ true = ground arith in
    if_cases P (is_stale p.memory_generation (s.latest p.namespace))
      (λ stale. is_stale-IsAtLeast p.memory_generation (s.latest p.namespace) stale)
      (λ _. rw same (omega arith))

publish-monotone :
    (p : PinnedSnapshot) (namespace generation : ℕ) (s : ContextSnapshotCache)
    → IsAtLeast generation (latest namespace s)
    → IsAtLeast generation (latest namespace (publish p s).0)
unfolding publish
publish-monotone p namespace generation s h =
    let P = λ (r : ContextSnapshotCache × Result CacheError (Unit {0})).
      IsAtLeast generation (latest namespace r.0) in
    if_cases P (is_stale p.memory_generation (s.latest p.namespace)) (λ _. h)
      (λ fresh.
        if_cases (IsAtLeast generation) (namespace == p.namespace)
          (λ here.
            let e : namespace ≡ p.namespace = ground arith in
            is_stale-bound generation p.memory_generation (s.latest p.namespace) fresh
              (subst (λ n. IsAtLeast generation (s.latest n)) e h))
          (λ _. h))

publish_all-monotone :
    (ps : List PinnedSnapshot) (namespace generation : ℕ) (s : ContextSnapshotCache)
    → IsAtLeast generation (latest namespace s)
    → IsAtLeast generation (latest namespace (publish_all ps s))
publish_all-monotone [] namespace generation s h = h
publish_all-monotone (p ∷ ps) namespace generation s h =
    publish_all-monotone ps namespace generation (publish p s).0
      (publish-monotone p namespace generation s h)

-- Readers never fall back to an older memory: after any calls of `publish`, whichever of them raise,
-- each namespace's latest snapshot is at least as new as every snapshot that was passed for it.
pub publish_all-IsAtLeast :
    (ps : List PinnedSnapshot) (s : ContextSnapshotCache)
    → All (λ p. IsAtLeast p.memory_generation (latest p.namespace (publish_all ps s))) ps
publish_all-IsAtLeast [] s = tt
publish_all-IsAtLeast (p ∷ ps) s = (
  publish_all-monotone ps p.namespace p.memory_generation (publish p s).0 (publish-IsAtLeast p s),
  publish_all-IsAtLeast ps (publish p s).0,
)
