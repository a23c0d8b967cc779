-- ===== src/Channels/Links.antt =====
-- Links have two ends: what LinkChannels and UnlinkChannels keep, and what AllLinks gives then.
use grumble.Common.{
  ℕ, ◌≡◌, refl, ap, ◌∙◌, Bool, true, false, not, ◌&&◌, ◌||◌, List, [], ◌∷◌, ◌==◌, if◌then◌else◌,
  arith, Bool-cases, inl, inr, ==_iff, ==_refl,
}
use grumble.Common.Sets.{contains, insert, remove, contains_if_insert, contains_if_remove}
use grumble.Channels.{Channel, change, links_of, link_channels, unlink_channels}
use grumble.Channels.Reach.{links_of-cons}

-- Whether the server has this channel.
abbrev pub is_channel : ℕ → List Channel → Bool
is_channel id [] = false
is_channel id (c ∷ cs) = (c.id == id) || is_channel id cs

-- A change of the links of one channel.
abbrev pub change_links : (List ℕ → List ℕ) → Channel → Channel
change_links f c = record c { links = f c.links }

pub links_of-change :
    (id x : ℕ) (f : List ℕ → List ℕ) (cs : List Channel)
    → links_of (change id (change_links f) cs) x
      ≡ (if (id == x) && is_channel x cs then f (links_of cs x) else links_of cs x)
unfolding change
links_of-change id x f [] = ground arith
links_of-change id x f (c ∷ cs) =
    let rest = change id (change_links f) cs in
    elim (Bool-cases (c.id == id)) [
      | inl e ↦
          rw
            (
              e,
              links_of-cons (change_links f c) rest x,
              links_of-cons c cs x,
              links_of-change id x f cs,
            )
            (ground arith)
      | inr e ↦
          rw (e, links_of-cons c rest x, links_of-cons c cs x, links_of-change id x f cs)
            (ground arith)
    ]

is_channel-change :
    (id x : ℕ) (f : List ℕ → List ℕ) (cs : List Channel)
    → is_channel x (change id (change_links f) cs) ≡ is_channel x cs
unfolding change
is_channel-change id x f [] = refl
is_channel-change id x f (c ∷ cs) = ground (arith, is_channel-change id x f cs)

-- The two ends of a link.
abbrev pub is_link : ℕ → ℕ → ℕ → ℕ → Bool
is_link a b x y = ((a == x) && (b == y)) || ((b == x) && (a == y))

pub is_channel_same :
    (a x : ℕ) (cs : List Channel)
    → is_channel a cs ≡ true
    → ((a == x) && is_channel x cs) ≡ (a == x)
is_channel_same a x cs h = elim (Bool-cases (a == x)) [
  | inl e ↦ let p = (==_iff a x).0 e in rw (← p, ==_refl a) h
  | inr e ↦ rw e refl
]

pub links_of-link_channels :
    (a b : ℕ) (cs : List Channel) (x y : ℕ)
    → is_channel a cs ≡ true
    → is_channel b cs ≡ true
    → contains y (links_of (link_channels a b cs) x)
      ≡ (is_link a b x y || contains y (links_of cs x))
unfolding link_channels
links_of-link_channels a b cs x y ha hb =
    let cs' = change a (change_links (insert b)) cs in
    let first : contains y (links_of cs' x)
        ≡ (((a == x) && (b == y)) || contains y (links_of cs x)) =
      ap (contains y) (links_of-change a x (insert b) cs)
      ∙ contains_if_insert ((a == x) && is_channel x cs) b y (links_of cs x)
      ∙ ap (λ p. (p && (b == y)) || contains y (links_of cs x)) (is_channel_same a x cs ha) in
    let second =
      ap (contains y) (links_of-change b x (insert a) cs')
      ∙ contains_if_insert ((b == x) && is_channel x cs') a y (links_of cs' x) in
    let known =
      ap (λ p. (b == x) && p) (is_channel-change a x (insert b) cs) ∙ is_channel_same b x cs hb in
    second ∙ rw (known, first) (ground arith)

pub links_of-unlink_channels :
    (a b : ℕ) (cs : List Channel) (x y : ℕ)
    → is_channel a cs ≡ true
    → is_channel b cs ≡ true
    → contains y (links_of (unlink_channels a b cs) x)
      ≡ (not (is_link a b x y) && contains y (links_of cs x))
unfolding unlink_channels
links_of-unlink_channels a b cs x y ha hb =
    let cs' = change a (change_links (remove b)) cs in
    let first : contains y (links_of cs' x)
        ≡ (not ((a == x) && (b == y)) && contains y (links_of cs x)) =
      ap (contains y) (links_of-change a x (remove b) cs)
      ∙ contains_if_remove ((a == x) && is_channel x cs) b y (links_of cs x)
      ∙ ap (λ p. not (p && (b == y)) && contains y (links_of cs x)) (is_channel_same a x cs ha) in
    let second =
      ap (contains y) (links_of-change b x (remove a) cs')
      ∙ contains_if_remove ((b == x) && is_channel x cs') a y (links_of cs' x) in
    let known =
      ap (λ p. (b == x) && p) (is_channel-change a x (remove b) cs) ∙ is_channel_same b x cs hb in
    second ∙ rw (known, first) (ground arith)

-- Every link has its other end.
abbrev pub IsSymmetric : List Channel → Type 0
IsSymmetric cs = (x y : ℕ) → contains y (links_of cs x) ≡ contains x (links_of cs y)

-- Calls of LinkChannels and UnlinkChannels on channels of the server.
pub data Linked : List Channel → List Channel → Type 0 where
  no_call : (cs : List Channel) → Linked cs cs
  linking :
      (a b : ℕ) (cs cs' : List Channel)
      → is_channel a cs' ≡ true
      → is_channel b cs' ≡ true
      → Linked cs cs'
      → Linked cs (link_channels a b cs')
  unlinking :
      (a b : ℕ) (cs cs' : List Channel)
      → is_channel a cs' ≡ true
      → is_channel b cs' ≡ true
      → Linked cs cs'
      → Linked cs (unlink_channels a b cs')

pub Linked-IsSymmetric : (cs cs' : List Channel) → IsSymmetric cs → Linked cs cs' → IsSymmetric cs'
Linked-IsSymmetric _ _ s (no_call cs) x y = s x y
Linked-IsSymmetric cs _ s (linking a b _ cs' ha hb r) x y =
    rw
      (
        links_of-link_channels a b cs' x y ha hb,
        links_of-link_channels a b cs' y x ha hb,
        Linked-IsSymmetric cs cs' s r x y,
      )
      (ground arith)
Linked-IsSymmetric cs _ s (unlinking a b _ cs' ha hb r) x y =
    rw
      (
        links_of-unlink_channels a b cs' x y ha hb,
        links_of-unlink_channels a b cs' y x ha hb,
        Linked-IsSymmetric cs cs' s r x y,
      )
      (ground arith)
