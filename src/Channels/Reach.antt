-- ===== src/Channels/Reach.antt =====
-- AllLinks and AllSubChannels against what can be reached over links, and over children.
use grumble.Common.{
  ℕ, suc, ◌≡◌, refl, ap, sym, ◌∙◌, true, ◌||◌, List, [], ◌∷◌, ◌++◌, Option, some, ◌==◌,
  if◌then◌else◌, length, arith, Bool-cases, inl, inr, ◌↔◌,
}
use grumble.Common.Sets.{contains}
use grumble.Channels.{
  Channel, find_channel, links_of, children_of, visit, search, all_links_of, all_children_of,
  all_links, all_sub_channels,
}
use grumble.Channels.Search.{Reaches, search_finds}

pub contains-append :
    (x : ℕ) (xs ys : List ℕ) → contains x (xs ++ ys) ≡ (contains x xs || contains x ys)
contains-append x [] ys = refl
contains-append x (y ∷ xs) ys = ground (arith, contains-append x xs ys)

pub links_of-cons :
    (c : Channel) (cs : List Channel) (a : ℕ)
    → links_of (c ∷ cs) a ≡ (if c.id == a then c.links else links_of cs a)
unfolding links_of find_channel
links_of-cons c cs a = elim (Bool-cases (c.id == a)) [
  | inl e ↦ rw (links_of, find_channel, e) refl
  | inr e ↦ rw (links_of, find_channel, e) refl
]

pub children_of-cons :
    (c : Channel) (cs : List Channel) (a : ℕ)
    → children_of (c ∷ cs) a ≡ (if c.id == a then c.children else children_of cs a)
unfolding children_of find_channel
children_of-cons c cs a = elim (Bool-cases (c.id == a)) [
  | inl e ↦ rw (children_of, find_channel, e) refl
  | inr e ↦ rw (children_of, find_channel, e) refl
]

links_covered :
    (cs : List Channel) (a x : ℕ)
    → contains x (links_of cs a) ≡ true
    → contains x (all_links_of cs) ≡ true
unfolding links_of find_channel all_links_of
links_covered [] a x h = absurd (cc h)
links_covered (c ∷ cs) a x h = elim (Bool-cases (c.id == a)) [
  | inl e ↦
      ground (arith, contains-append x c.links (all_links_of cs), rw (links_of-cons c cs a, e) at h)
  | inr e ↦ ground (
    arith,
    contains-append x c.links (all_links_of cs),
    links_covered cs a x (rw (links_of-cons c cs a, e) at h),
  )
]

children_covered :
    (cs : List Channel) (a x : ℕ)
    → contains x (children_of cs a) ≡ true
    → contains x (all_children_of cs) ≡ true
unfolding children_of find_channel all_children_of
children_covered [] a x h = absurd (cc h)
children_covered (c ∷ cs) a x h = elim (Bool-cases (c.id == a)) [
  | inl e ↦ ground (
    arith,
    contains-append x c.children (all_children_of cs),
    rw (children_of-cons c cs a, e) at h,
  )
  | inr e ↦ ground (
    arith,
    contains-append x c.children (all_children_of cs),
    children_covered cs a x (rw (children_of-cons c cs a, e) at h),
  )
]

-- AllLinks ends on every server and gives the channels that one or more links lead to from the
-- channel, and no others.
pub all_links-Reaches :
    (cs : List Channel) (id : ℕ)
    → (found : List ℕ) × ((all_links cs id ≡ some found)
        × ((x : ℕ) → (contains x found ≡ true) ↔ Reaches (links_of cs) id x))
unfolding all_links
all_links-Reaches cs id = search_finds (links_of cs) (all_links_of cs) id (links_covered cs)

-- AllSubChannels ends on every server and gives the channels that one or more steps to a child lead
-- to from the channel, and no others.
pub all_sub_channels-Reaches :
    (cs : List Channel) (id : ℕ)
    → (found : List ℕ) × ((all_sub_channels cs id ≡ some found)
        × ((x : ℕ) → (contains x found ≡ true) ↔ Reaches (children_of cs) id x))
unfolding all_sub_channels search visit
all_sub_channels-Reaches cs id =
    let (found, (e, h)) =
      search_finds (children_of cs) (all_children_of cs) id (children_covered cs) in
    (found, (guarded (children_of cs id) refl found e, h))
  where
    after : List ℕ → Option (List ℕ)
    after ids =
        let w = visit ids (record { seen = []; todo = [] }) in
        search (children_of cs) (length (all_children_of cs)) w.seen w.todo

    guarded :
        (ids : List ℕ)
        → children_of cs id ≡ ids
        → (found : List ℕ)
        → search (children_of cs) (suc (length (all_children_of cs))) [] (id ∷ []) ≡ some found
        → (elim ids as (λ _. Option (List ℕ)) [
          | [] ↦ some []
          | _ ∷ _ ↦ search (children_of cs) (suc (length (all_children_of cs))) [] (id ∷ [])
        ])
          ≡ some found
    guarded [] e found h = sym (ap after e) ∙ h
    guarded (c ∷ ids) e found h = h
