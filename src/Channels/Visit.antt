-- ===== src/Channels/Visit.antt =====
-- The inner loop of AllLinks and AllSubChannels, and the end of the outer one.
use grumble.Common.{
  ℕ, zero, suc, ◌+◌, ◌≤◌, ◌≡◌, refl, true, false, not, ◌&&◌, ◌||◌, List, [], ◌∷◌, some, ◌==◌,
  if◌then◌else◌, length, arith, Bool-cases, inl, inr, ==_iff,
}
use grumble.Common.Sets.{contains}
use grumble.Channels.{Walk, push, visit, search}

push_seen : (x id : ℕ) (w : Walk) → contains x (push id w).seen ≡ ((id == x) || contains x w.seen)
unfolding push
push_seen x id w = ground arith

push_todo :
    (x id : ℕ) (w : Walk)
    → contains x (push id w).todo ≡ (((id == x) && not (contains x w.seen)) || contains x w.todo)
unfolding push
push_todo x id w = ground arith

pub visit_seen :
    (x : ℕ) (ids : List ℕ) (w : Walk)
    → contains x (visit ids w).seen ≡ (contains x ids || contains x w.seen)
unfolding visit
visit_seen x [] w = refl
visit_seen x (id ∷ ids) w = ground (arith, visit_seen x ids (push id w), push_seen x id w)

pub visit_todo :
    (x : ℕ) (ids : List ℕ) (w : Walk)
    → contains x (visit ids w).todo
      ≡ ((contains x ids && not (contains x w.seen)) || contains x w.todo)
unfolding visit
visit_todo x [] w = refl
visit_todo x (id ∷ ids) w =
    ground (arith, visit_todo x ids (push id w), push_seen x id w, push_todo x id w)

-- How many entries of a list are not seen yet.
unseen : List ℕ → List ℕ → ℕ
unseen [] seen = 0
unseen (u ∷ us) seen = (if contains u seen then 0 else 1) + unseen us seen

unseen_le : (us seen : List ℕ) → unseen us seen ≤ length us
unfolding unseen
unseen_le [] seen = omega arith
unseen_le (u ∷ us) seen = ground (arith, unseen_le us seen)

unseen_cons_le : (us seen : List ℕ) (id : ℕ) → unseen us (id ∷ seen) ≤ unseen us seen
unfolding unseen
unseen_cons_le [] seen id = omega arith
unseen_cons_le (u ∷ us) seen id = ground (arith, unseen_cons_le us seen id)

unseen-cons :
    (us seen : List ℕ) (id : ℕ)
    → contains id us ≡ true
    → contains id seen ≡ false
    → suc (unseen us (id ∷ seen)) ≤ unseen us seen
unfolding unseen
unseen-cons [] seen id h n = absurd (cc h)
unseen-cons (u ∷ us) seen id h n = elim (Bool-cases (u == id)) [
  | inl e ↦
      let same = (==_iff u id).0 e in
      rw (same, n, (==_iff id id).1 refl) (omega (arith, unseen_cons_le us seen id))
  | inr e ↦ ground (arith, unseen-cons us seen id)
]

module _ (all : List ℕ) where
  work : Walk → ℕ
  work w = length w.todo + unseen all w.seen

  work-push : (id : ℕ) (w : Walk) → contains id all ≡ true → work (push id w) ≤ work w
  unfolding push work
  work-push id w h = elim (Bool-cases (contains id w.seen)) [
    | inl e ↦ rw (push, e) (omega arith)
    | inr e ↦ rw (push, e) (omega (arith, unseen-cons all w.seen id h e))
  ]

  work-visit :
      (ids : List ℕ) (w : Walk)
      → ((x : ℕ) → contains x ids ≡ true → contains x all ≡ true)
      → work (visit ids w) ≤ work w
  unfolding visit
  work-visit [] w h = omega arith
  work-visit (id ∷ ids) w h = omega (
    arith,
    work-visit ids (push id w) (λ x m. h x (ground arith)),
    work-push id w (h id (ground (arith, (==_iff id id).1 refl))),
  )

  search_ends :
      (edges : ℕ → List ℕ) (fuel : ℕ) (seen todo : List ℕ)
      → ((a x : ℕ) → contains x (edges a) ≡ true → contains x all ≡ true)
      → work (record { seen = seen; todo = todo }) ≤ fuel
      → (found : List ℕ) × (search edges fuel seen todo ≡ some found)
  unfolding search work
  search_ends edges fuel seen [] covers l = (seen, refl)
  search_ends edges zero seen (current ∷ rest) covers l = absurd (omega arith)
  search_ends edges (suc fuel) seen (current ∷ rest) covers l =
      let w = visit (edges current) (record { seen = seen; todo = rest }) in
      search_ends edges fuel w.seen w.todo covers (
        omega (
          arith,
          work-visit (edges current) (record { seen = seen; todo = rest }) (covers current),
        ))

-- From a root, with more fuel than there are neighbours at all.
pub search_ends_from :
    (edges : ℕ → List ℕ) (all : List ℕ) (root : ℕ)
    → ((a x : ℕ) → contains x (edges a) ≡ true → contains x all ≡ true)
    → (found : List ℕ) × (search edges (suc (length all)) [] (root ∷ []) ≡ some found)
unfolding work
search_ends_from edges all root covers =
    search_ends all edges (suc (length all)) [] (root ∷ []) covers (omega (arith, unseen_le all []))
