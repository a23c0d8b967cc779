-- ===== src/SessionPool.antt =====
-- pkg/sessionpool/sessionpool.go. Every method holds the pool's mutex from its first line to its
-- last, so a method is one step of the state.
pub mod Invariant
pub mod History
pub mod Tests
use grumble.Common.{
  ℕ, ◌+◌, ◌<◌, Bool, true, false, List, [], ◌∷◌, Option, none, some, ◌==◌, if◌then◌else◌,
}
use grumble.Common.Sets.{contains, insert, remove}

-- `used` is nil (`none`) until use tracking is enabled. The head of `unused` is the slice's last
-- element, where `Get` takes and `Reclaim` appends.
pub record SessionPool : Type 0 where
  pub used : Option (List ℕ)
  pub unused : List ℕ
  pub cur : ℕ

pub data Panic : Type 0 where
  existing_pool depleted invalid_session_id : Panic

pub data Result {ℓ} (A : Type ℓ) : Type ℓ where
  ok : A → Result A
  panics : Panic → Result A

abbrev pub max_uint32 : ℕ
max_uint32 = 4294967295

pub new : SessionPool
new = record { used = none; unused = []; cur = 0 }

is_empty : List ℕ → Bool
is_empty [] = true
is_empty (x ∷ xs) = false

pub enable_use_tracking : SessionPool → Result SessionPool
unfolding is_empty
enable_use_tracking pool =
    if is_empty pool.unused
    then (if pool.cur == 0 then ok (record pool { used = some [] }) else panics existing_pool)
    else panics existing_pool

-- `pool.used[id] = true`, deferred by `Get`, where tracking is on.
pub mark_used : ℕ → Option (List ℕ) → Option (List ℕ)
mark_used id none = none
mark_used id (some used) = some (insert id used)

pub get : SessionPool → Result (ℕ × SessionPool)
get pool = elim pool.unused [
  | id ∷ rest ↦ ok (id, record pool { used = mark_used id pool.used; unused = rest })
  | [] ↦
      let id = pool.cur + 1 in
      if pool.cur == max_uint32
      then panics depleted
      else ok (id, record pool { used = mark_used id pool.used; cur = id })
]

-- The check of `Reclaim`: with tracking on, an id that is not in use makes it panic.
pub check_in_use : ℕ → Option (List ℕ) → Result (Option (List ℕ))
check_in_use id none = ok none
check_in_use id (some used) =
    if contains id used then ok (some (remove id used)) else panics invalid_session_id

pub reclaim : ℕ → SessionPool → Result SessionPool
unfolding check_in_use
reclaim id pool = elim (check_in_use id pool.used) [
  | ok used ↦ ok (record pool { used = used; unused = id ∷ pool.unused })
  | panics p ↦ panics p
]
