-- ===== src/SessionPool/Tests.antt =====
-- Concrete runs of the session pool.
use grumble.Common.{ℕ, ◌≡◌, refl, List, [], ◌∷◌, none, some, arith}
use grumble.Common.Sets.{insert, remove}
use grumble.SessionPool.{
  SessionPool, ok, panics, depleted, invalid_session_id, existing_pool, new, mark_used, get,
  check_in_use, reclaim, enable_use_tracking,
}
use grumble.SessionPool.Invariant.{IsConsistent}
use grumble.SessionPool.History.{
  GetOutcome, get_outcome, reclaim_held, Reach, tracking, getting, reclaiming, Reach-IsConsistent,
}

abbrev tracked_pool : SessionPool
tracked_pool = record { used = some (3 ∷ 1 ∷ []); unused = 2 ∷ []; cur = 3 }

abbrev held_ids : List ℕ
held_ids = 3 ∷ 1 ∷ []

tracked_pool-IsConsistent : IsConsistent tracked_pool held_ids
tracked_pool-IsConsistent = record {
  tracked = refl;
  held_distinct = (refl, (refl, tt));
  unused_distinct = (refl, tt);
  apart = (refl, tt);
  held_range = omega arith;
  unused_range = omega arith;
  counted = omega arith;
  bounded = omega arith;
}

get_reuses :
    get tracked_pool ≡ ok (2, record tracked_pool { used = some (2 ∷ 3 ∷ 1 ∷ []); unused = [] })
unfolding get mark_used insert
get_reuses = refl

reclaim_unknown : reclaim 2 tracked_pool ≡ panics invalid_session_id
unfolding reclaim check_in_use
reclaim_unknown = refl

enable_late : enable_use_tracking tracked_pool ≡ panics existing_pool
unfolding enable_use_tracking
enable_late = refl

get_full : get (record { used = none; unused = []; cur = 4294967295 }) ≡ panics depleted
unfolding get
get_full = refl

get_outcome_example : GetOutcome tracked_pool held_ids
get_outcome_example = get_outcome tracked_pool held_ids tracked_pool-IsConsistent

reclaim_held_example :
    (next last : SessionPool) × (reclaim 1 tracked_pool ≡ ok next)
    × IsConsistent next (remove 1 held_ids)
    × (get next ≡ ok (1, last))
    × (last.unused ≡ 2 ∷ [])
reclaim_held_example = reclaim_held tracked_pool held_ids 1 tracked_pool-IsConsistent refl

abbrev one_out : SessionPool
one_out = record { used = some (1 ∷ []); unused = []; cur = 1 }

one_out-Reach : Reach one_out (1 ∷ [])
unfolding enable_use_tracking new get mark_used insert
one_out-Reach = getting (tracking (record new { used = some [] }) refl) refl

one_back-Reach : Reach (record { used = some []; unused = 1 ∷ []; cur = 1 }) (remove 1 (1 ∷ []))
unfolding reclaim check_in_use
one_back-Reach = reclaiming 1 one_out-Reach refl refl

Reach-IsConsistent_example : IsConsistent (record { used = some []; unused = 1 ∷ []; cur = 1 }) []
Reach-IsConsistent_example = Reach-IsConsistent one_back-Reach
