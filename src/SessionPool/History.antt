-- ===== src/SessionPool/History.antt =====
-- Each method on every branch, and the histories that calls of `Get` and `Reclaim` make.
use grumble.Common.{
  ℕ, ◌+◌, ◌≤◌, ◌≡◌, refl, ap, subst, ◌⊎◌, inl, inr, true, false, List, [], ◌∷◌, Option, none, some,
  ◌==◌, length, arith, Bool-cases, ==_iff,
}
use grumble.Common.Sets.{
  contains, remove, contains-remove_self, length-remove, remove-Distinct, remove-Apart,
  Apart-absent,
}
use grumble.SessionPool.{
  SessionPool, ok, panics, depleted, invalid_session_id, max_uint32, new, mark_used, get,
  check_in_use, reclaim, enable_use_tracking,
}
use grumble.SessionPool.Invariant.{
  IsConsistent, TracksHeld, reuse-IsConsistent, grow-IsConsistent, remove-InRange, contains-InRange,
  new-IsConsistent,
}

abbrev pub IsIssued : SessionPool → List ℕ → ℕ → SessionPool → Type 0
IsIssued pool held id next =
    (get pool ≡ ok (id, next))
    × (contains id held ≡ false)
    × (1 ≤ id)
    × (id ≤ max_uint32)
    × IsConsistent next (id ∷ held)

-- `get` panics exactly when all 2^32 - 1 ids are out; otherwise it issues an id.
abbrev pub GetOutcome : SessionPool → List ℕ → Type 0
GetOutcome pool held =
    ((length held ≡ max_uint32) × (get pool ≡ panics depleted))
    ⊎ ((id : ℕ) × (next : SessionPool) × IsIssued pool held id next)

get_from_stack :
    (pool : SessionPool) (held : List ℕ) (id : ℕ) (rest : List ℕ)
    → pool.unused ≡ id ∷ rest
    → IsConsistent pool held
    → GetOutcome pool held
unfolding get
get_from_stack pool held id rest e v =
    let range = rw e at v.unused_range in
    let apart = rw e at v.apart in
    inr (
      id,
      record { used = mark_used id pool.used; unused = rest; cur = pool.cur },
      (
        rw (e, get) refl,
        apart.0,
        range.0.0,
        omega (arith, range.0.1, v.bounded),
        reuse-IsConsistent pool id rest held e v,
      ),
    )

get_from_counter :
    (pool : SessionPool) (held : List ℕ)
    → pool.unused ≡ []
    → IsConsistent pool held
    → GetOutcome pool held
unfolding get
get_from_counter pool held e v = elim (Bool-cases (pool.cur == max_uint32)) [
  | inl full ↦
      let counted = rw e at v.counted in
      inl (omega (arith, (==_iff pool.cur max_uint32).0 full, counted), rw (e, get, full) refl)
  | inr room ↦
      let grown = grow-IsConsistent pool held e (ground arith) v in
      inr (
        pool.cur + 1,
        record {
          used = mark_used (pool.cur + 1) pool.used;
          unused = pool.unused;
          cur = pool.cur + 1;
        },
        (ground arith, grown.held_distinct.0, omega arith, grown.bounded, grown),
      )
]

List-cases : (xs : List ℕ) → (xs ≡ []) ⊎ ((x : ℕ) × (rest : List ℕ) × (xs ≡ x ∷ rest))
List-cases [] = inl refl
List-cases (x ∷ rest) = inr (x, rest, refl)

-- On a consistent pool `Get` panics exactly when every id from 1 to MaxUint32 is held; otherwise
-- it returns an id in that range that nobody holds, and the pool stays consistent with it held.
pub get_outcome :
    (pool : SessionPool) (held : List ℕ) → IsConsistent pool held → GetOutcome pool held
get_outcome pool held v = elim (List-cases pool.unused) [
  | inl e ↦ get_from_counter pool held e v
  | inr (id, rest, e) ↦ get_from_stack pool held id rest e v
]

-- What `reclaim` makes of an id that is held.
reclaimed-IsConsistent :
    (pool : SessionPool) (held : List ℕ) (id : ℕ) (used : Option (List ℕ))
    → IsConsistent pool held
    → contains id held ≡ true
    → TracksHeld used (remove id held)
    → IsConsistent (record pool { used = used; unused = id ∷ pool.unused }) (remove id held)
reclaimed-IsConsistent pool held id used v c t =
    let fresh = Apart-absent id pool.unused held v.apart c in
    let shorter = length-remove id held v.held_distinct c in
    record {
      tracked = t;
      held_distinct = remove-Distinct id held v.held_distinct;
      unused_distinct = (fresh, v.unused_distinct);
      apart = (contains-remove_self id held, remove-Apart id pool.unused held v.apart);
      held_range = remove-InRange pool.cur id held v.held_range;
      unused_range = (contains-InRange pool.cur id held v.held_range c, v.unused_range);
      counted = omega (arith, shorter, v.counted);
      bounded = v.bounded;
    }

check_in_use_held :
    (id : ℕ) (used : Option (List ℕ)) (held : List ℕ)
    → TracksHeld used held
    → contains id held ≡ true
    → (next : Option (List ℕ)) × (check_in_use id used ≡ ok next) × TracksHeld next (remove id held)
unfolding check_in_use
check_in_use_held id none held t c = (none, refl, tt)
check_in_use_held id (some used) held t c =
    (some (remove id used), rw (t, c) refl, ap (remove id) t)

-- `Reclaim` of a held id succeeds, tracked or not, leaves the pool consistent with that id no
-- longer held, and the next `Get` returns that id.
pub reclaim_held :
    (pool : SessionPool) (held : List ℕ) (id : ℕ)
    → IsConsistent pool held
    → contains id held ≡ true
    → (next last : SessionPool) × (reclaim id pool ≡ ok next)
      × IsConsistent next (remove id held)
      × (get next ≡ ok (id, last))
      × (last.unused ≡ pool.unused)
unfolding reclaim get
reclaim_held pool held id v c =
    let (used, checked, tracks) = check_in_use_held id pool.used held v.tracked c in
    (
      record pool { used = used; unused = id ∷ pool.unused },
      record pool { used = mark_used id used; unused = pool.unused },
      rw (checked, reclaim) refl,
      reclaimed-IsConsistent pool held id used v c tracks,
      refl,
      refl,
    )

-- With tracking on, `Reclaim` of an id that is not held panics.
pub reclaim_not_held :
    (pool : SessionPool) (held : List ℕ) (id : ℕ)
    → pool.used ≡ some held
    → contains id held ≡ false
    → reclaim id pool ≡ panics invalid_session_id
unfolding reclaim check_in_use
reclaim_not_held pool held id e c = rw (e, reclaim, check_in_use, c) refl

-- A pool in use: with use tracking on or off, callers get ids and reclaim ids that they hold.
pub data Reach : SessionPool → List ℕ → Type 0 where
  fresh : Reach new []
  tracking : (pool : SessionPool) → enable_use_tracking new ≡ ok pool → Reach pool []
  getting :
      {pool next : SessionPool} {held : List ℕ} {id : ℕ}
      → Reach pool held
      → get pool ≡ ok (id, next)
      → Reach next (id ∷ held)
  reclaiming :
      {pool next : SessionPool} {held : List ℕ} (id : ℕ)
      → Reach pool held
      → contains id held ≡ true
      → reclaim id pool ≡ ok next
      → Reach next (remove id held)

tracked-IsConsistent : IsConsistent (record new { used = some [] }) []
unfolding new
tracked-IsConsistent = record {
  tracked = refl;
  held_distinct = tt;
  unused_distinct = tt;
  apart = tt;
  held_range = tt;
  unused_range = tt;
  counted = omega arith;
  bounded = omega arith;
}

tracking-IsConsistent :
    (pool : SessionPool) → enable_use_tracking new ≡ ok pool → IsConsistent pool []
unfolding enable_use_tracking new
tracking-IsConsistent pool e =
    let p : record new { used = some [] } ≡ pool = cc in
    subst (λ q. IsConsistent q []) p tracked-IsConsistent

getting-IsConsistent :
    (pool next : SessionPool) (held : List ℕ) (id : ℕ)
    → IsConsistent pool held
    → get pool ≡ ok (id, next)
    → IsConsistent next (id ∷ held)
getting-IsConsistent pool next held id v e = elim (get_outcome pool held v) [
  | inl (_, p) ↦ absurd (cc)
  | inr (i, n, (p, _, _, _, w)) ↦
      let same : i ≡ id = cc in
      let pools : n ≡ next = cc in subst (λ q. IsConsistent q (id ∷ held)) pools (rw same at w)
]

reclaiming-IsConsistent :
    (pool next : SessionPool) (held : List ℕ) (id : ℕ)
    → IsConsistent pool held
    → contains id held ≡ true
    → reclaim id pool ≡ ok next
    → IsConsistent next (remove id held)
reclaiming-IsConsistent pool next held id v c e =
    let (n, _, p, w, _, _) = reclaim_held pool held id v c in
    let same : n ≡ next = cc in subst (λ q. IsConsistent q (remove id held)) same w

-- In every history of `Get`s, and of `Reclaim`s of held ids, on a pool with use tracking on or
-- off, the held ids are pairwise distinct, the free ones are apart from them, all lie between 1
-- and the counter, and together they are as many as the counter says.
pub Reach-IsConsistent :
    {pool : SessionPool} {held : List ℕ} → Reach pool held → IsConsistent pool held
Reach-IsConsistent fresh = new-IsConsistent
Reach-IsConsistent (tracking pool e) = tracking-IsConsistent pool e
Reach-IsConsistent (getting {pool} {next} {held} {id} r e) =
    getting-IsConsistent pool next held id (Reach-IsConsistent r) e
Reach-IsConsistent (reclaiming {pool} {next} {held} id r c e) =
    reclaiming-IsConsistent pool next held id (Reach-IsConsistent r) c e
