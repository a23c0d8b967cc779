-- ===== src/Targets/NewChannels.antt =====
-- The channels of one entry of a voice target.
use grumble.Common.{
  ℕ, ◌≡◌, refl, subst, Bool, true, false, ◌&&◌, ◌||◌, List, [], ◌∷◌, some, if◌then◌else◌, arith,
  Bool-cases, inl, inr, ◌⊎◌, ◌↔◌, ==_iff,
}
use grumble.Common.Sets.{contains}
use grumble.Channels.{Channel, links_of, children_of, all_links, all_sub_channels}
use grumble.Channels.Search.{Reaches}
use grumble.Channels.Reach.{all_links-Reaches, all_sub_channels-Reaches}
use grumble.Targets.{VoiceTargetChannel, new_channels, add_allowed}
use grumble.Targets.Sets.{contains-add_allowed}

-- The channel itself, unless links are asked for; else what links lead to; and what is below.
pub data IsTargetChannel (cs : List Channel) (vtc : VoiceTargetChannel) : ℕ → Type 0 where
  itself : vtc.links ≡ false → IsTargetChannel cs vtc vtc.id
  linked : (x : ℕ) → vtc.links ≡ true → Reaches (links_of cs) vtc.id x → IsTargetChannel cs vtc x
  below :
      (x : ℕ)
      → vtc.sub_channels ≡ true
      → Reaches (children_of cs) vtc.id x
      → IsTargetChannel cs vtc x

-- What an entry names without what is below.
abbrev pub IsFirst : List Channel → VoiceTargetChannel → ℕ → Type 0
IsFirst cs vtc x =
    ((vtc.links ≡ true) × Reaches (links_of cs) vtc.id x) ⊎ ((vtc.links ≡ false) × (vtc.id ≡ x))

initial_channels :
    (cs : List Channel) (vtc : VoiceTargetChannel)
    → (ids : List ℕ) × (((if vtc.links then all_links cs vtc.id else some (vtc.id ∷ [])) ≡ some ids)
        × ((x : ℕ) → (contains x ids ≡ true) ↔ IsFirst cs vtc x))
initial_channels cs vtc = elim (Bool-cases vtc.links) [
  | inl e ↦
      let (ids, (q, h)) = all_links-Reaches cs vtc.id in
      (
        ids,
        (
          rw e q,
          λ x. (
            λ m. inl (e, (h x).0 m),
            λ r. elim r [ inl l ↦ (h x).1 l.1 | inr n ↦ absurd (cc (e, n.0)) ],
          ),
        ),
      )
  | inr e ↦ (
    vtc.id ∷ [],
    (
      rw e refl,
      λ x. (
        λ m. inr (e, (==_iff vtc.id x).0 (ground arith)),
        λ r. elim r [
          | inl l ↦ absurd (cc (e, l.0))
          | inr n ↦ ground (arith, (==_iff vtc.id x).1 n.1)
        ],
      ),
    ),
  )
]

target_of :
    (cs : List Channel) (vtc : VoiceTargetChannel) (x : ℕ)
    → IsFirst cs vtc x
    → IsTargetChannel cs vtc x
target_of cs vtc x (inl (e, r)) = linked x e r
target_of cs vtc x (inr (e, same)) = subst (IsTargetChannel cs vtc) same (itself e)

pub parts_of :
    (cs : List Channel) (vtc : VoiceTargetChannel) (x : ℕ)
    → IsTargetChannel cs vtc x
    → IsFirst cs vtc x ⊎ ((vtc.sub_channels ≡ true) × Reaches (children_of cs) vtc.id x)
parts_of cs vtc _ (itself l) = inl (inr (l, refl))
parts_of cs vtc _ (linked x l r) = inl (inl (l, r))
parts_of cs vtc _ (below x t r) = inr (t, r)

-- With what is below.
with_below :
    (cs : List Channel) (vtc : VoiceTargetChannel) (ids sub : List ℕ) (x : ℕ)
    → vtc.sub_channels ≡ true
    → (contains x ids ≡ true) ↔ IsFirst cs vtc x
    → (contains x sub ≡ true) ↔ Reaches (children_of cs) vtc.id x
    → (contains x (add_allowed (λ id. true) sub ids) ≡ true) ↔ IsTargetChannel cs vtc x
with_below cs vtc ids sub x e h g =
    let c : contains x (add_allowed (λ id. true) sub ids)
        ≡ ((contains x sub && true) || contains x ids) =
      contains-add_allowed (λ id. true) x sub ids in
    (
      λ m. elim (Bool-cases (contains x sub)) [
        | inl y ↦ below x e (g.0 y)
        | inr n ↦ target_of cs vtc x (h.0 (ground (arith, c)))
      ],
      λ t. elim (parts_of cs vtc x t) [
        | inl first ↦ let m = h.1 first in ground (arith, c)
        | inr (_, r) ↦ let m = g.1 r in ground (arith, c)
      ],
    )

without_below :
    (cs : List Channel) (vtc : VoiceTargetChannel) (ids : List ℕ) (x : ℕ)
    → vtc.sub_channels ≡ false
    → (contains x ids ≡ true) ↔ IsFirst cs vtc x
    → (contains x ids ≡ true) ↔ IsTargetChannel cs vtc x
without_below cs vtc ids x e h = (
  λ m. target_of cs vtc x (h.0 m),
  λ t. elim (parts_of cs vtc x t) [ inl first ↦ h.1 first | inr (y, _) ↦ absurd (cc (e, y)) ],
)

both_parts :
    (cs : List Channel) (vtc : VoiceTargetChannel) (ids sub : List ℕ)
    → (if vtc.links then all_links cs vtc.id else some (vtc.id ∷ [])) ≡ some ids
    → all_sub_channels cs vtc.id ≡ some sub
    → new_channels cs vtc
      ≡ some (if vtc.sub_channels then add_allowed (λ id. true) sub ids else ids)
unfolding new_channels
both_parts cs vtc ids sub q p = elim (Bool-cases vtc.sub_channels) [
  | inl e ↦ rw (new_channels, q, e, p) refl
  | inr e ↦ rw (new_channels, q, e) refl
]

if_parts :
    (cs : List Channel) (vtc : VoiceTargetChannel) (ids sub : List ℕ) (x : ℕ)
    → (contains x ids ≡ true) ↔ IsFirst cs vtc x
    → (contains x sub ≡ true) ↔ Reaches (children_of cs) vtc.id x
    → (contains x (if vtc.sub_channels then add_allowed (λ id. true) sub ids else ids) ≡ true)
      ↔ IsTargetChannel cs vtc x
if_parts cs vtc ids sub x h g = go vtc.sub_channels refl
  where
    go :
        (b : Bool)
        → vtc.sub_channels ≡ b
        → (contains x (if b then add_allowed (λ id. true) sub ids else ids) ≡ true)
          ↔ IsTargetChannel cs vtc x
    go true e = with_below cs vtc ids sub x e h g
    go false e = without_below cs vtc ids x e h

pub new_channels-IsTargetChannel :
    (cs : List Channel) (vtc : VoiceTargetChannel)
    → (ids : List ℕ) × ((new_channels cs vtc ≡ some ids)
        × ((x : ℕ) → (contains x ids ≡ true) ↔ IsTargetChannel cs vtc x))
new_channels-IsTargetChannel cs vtc =
    let (ids, (q, h)) = initial_channels cs vtc in
    let (sub, (p, g)) = all_sub_channels-Reaches cs vtc.id in
    (
      if vtc.sub_channels then add_allowed (λ id. true) sub ids else ids,
      (both_parts cs vtc ids sub q p, λ x. if_parts cs vtc ids sub x (h x) (g x)),
    )
