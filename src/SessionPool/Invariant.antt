-- ===== src/SessionPool/Invariant.antt =====
-- The ids that are out and the ids that are free split 1 .. cur, whoever tracks them.
use grumble.Common.{
  ℕ, suc, ◌+◌, ◌≤◌, ◌≡◌, refl, ◌≢◌, true, false, List, [], ◌∷◌, Option, none, some, length, All,
  All-map, arith,
}
use grumble.Common.Sets.{contains, insert, remove, Distinct, Apart, cons-Apart, contains_above}
use grumble.SessionPool.{SessionPool, max_uint32, new, mark_used}

-- The callers' view: `held` lists the ids that `get` gave out and nobody reclaimed.
abbrev pub TracksHeld : Option (List ℕ) → List ℕ → Type 0
TracksHeld none held = Unit {0}
TracksHeld (some used) held = used ≡ held

abbrev pub InRange : ℕ → ℕ → Type 0
InRange cur id = (1 ≤ id) × (id ≤ cur)

pub record IsConsistent (pool : SessionPool) (held : List ℕ) : Type 0 where
  pub tracked : TracksHeld pool.used held
  pub held_distinct : Distinct held
  pub unused_distinct : Distinct pool.unused
  pub apart : Apart pool.unused held
  pub held_range : All (InRange pool.cur) held
  pub unused_range : All (InRange pool.cur) pool.unused
  pub counted : length held + length pool.unused ≡ pool.cur
  pub bounded : pool.cur ≤ max_uint32

upper : (n : ℕ) (xs : List ℕ) → All (InRange n) xs → All (λ i. i ≤ n) xs
upper n xs h = All-map xs (λ i r. r.1) h

widen : (n : ℕ) (xs : List ℕ) → All (InRange n) xs → All (InRange (n + 1)) xs
widen n xs h = All-map xs (λ i r. omega arith) h

pub remove-InRange : (n a : ℕ) (xs : List ℕ) → All (InRange n) xs → All (InRange n) (remove a xs)
remove-InRange n a [] h = tt
remove-InRange n a (x ∷ xs) h = ground (arith, remove-InRange n a xs h.1)

pub contains-InRange :
    (n a : ℕ) (xs : List ℕ) → All (InRange n) xs → contains a xs ≡ true → InRange n a
contains-InRange n a [] h c = absurd (cc c)
contains-InRange n a (x ∷ xs) h c = ground (arith, contains-InRange n a xs h.1)

pub new-IsConsistent : IsConsistent new []
unfolding new
new-IsConsistent = omega arith

-- Marking a fresh id keeps the tracked set the held list.
mark_used-TracksHeld :
    (id : ℕ) (used : Option (List ℕ)) (held : List ℕ)
    → TracksHeld used held
    → contains id held ≡ false
    → TracksHeld (mark_used id used) (id ∷ held)
unfolding mark_used insert
mark_used-TracksHeld id none held t fresh = tt
mark_used-TracksHeld id (some used) held t fresh = rw (t, fresh) refl

-- The two ways in which `get` finds an id.
pub reuse-IsConsistent :
    (pool : SessionPool) (id : ℕ) (rest held : List ℕ)
    → pool.unused ≡ id ∷ rest
    → IsConsistent pool held
    → IsConsistent (record pool { used = mark_used id pool.used; unused = rest }) (id ∷ held)
reuse-IsConsistent pool id rest held e v =
    let distinct = rw e at v.unused_distinct in
    let apart = rw e at v.apart in
    let range = rw e at v.unused_range in
    let counted = rw e at v.counted in
    record {
      tracked = mark_used-TracksHeld id pool.used held v.tracked apart.0;
      held_distinct = (apart.0, v.held_distinct);
      unused_distinct = distinct.1;
      apart = cons-Apart id rest held distinct.0 apart.1;
      held_range = (range.0, v.held_range);
      unused_range = range.1;
      counted = omega arith;
      bounded = v.bounded;
    }

pub grow-IsConsistent :
    (pool : SessionPool) (held : List ℕ)
    → pool.unused ≡ []
    → pool.cur ≢ max_uint32
    → IsConsistent pool held
    → let id = pool.cur + 1 in
      IsConsistent (record pool { used = mark_used id pool.used; cur = id }) (id ∷ held)
grow-IsConsistent pool held e h v =
    let fresh =
      contains_above pool.cur (pool.cur + 1) held (upper pool.cur held v.held_range)
        (omega arith) in
    let counted = rw e at v.counted in
    record {
      tracked = mark_used-TracksHeld (pool.cur + 1) pool.used held v.tracked fresh;
      held_distinct = (fresh, v.held_distinct);
      unused_distinct = v.unused_distinct;
      apart = rw e tt;
      held_range = (omega arith, widen pool.cur held v.held_range);
      unused_range = widen pool.cur pool.unused v.unused_range;
      counted = ap_length e counted;
      bounded = omega (arith, v.bounded);
    }
  where
    ap_length :
        pool.unused ≡ []
        → length held + 0 ≡ pool.cur
        → suc (length held) + length pool.unused ≡ pool.cur + 1
    ap_length e c = rw e (omega arith)
