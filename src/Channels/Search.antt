-- ===== src/Channels/Search.antt =====
-- The loop of AllLinks and AllSubChannels, over any neighbours: it sees what is reached.
use grumble.Common.{
  ℕ, zero, suc, ◌≡◌, refl, ap, sym, ◌∙◌, true, not, ◌&&◌, ◌||◌, List, [], ◌∷◌, some, ◌==◌, length,
  arith, Bool-cases, inl, inr, ◌⊎◌, ◌↔◌, ==_iff, ==_refl,
}
use grumble.Common.Sets.{contains}
use grumble.Channels.{Walk, visit, search}
use grumble.Channels.Visit.{visit_seen, visit_todo, search_ends_from}

-- One or more steps to a neighbour.
pub data Reaches (edges : ℕ → List ℕ) : ℕ → ℕ → Type 0 where
  neighbour : (a b : ℕ) → contains b (edges a) ≡ true → Reaches edges a b
  further : (a b c : ℕ) → Reaches edges a b → contains c (edges b) ≡ true → Reaches edges a c

-- What the loop keeps: it has seen only what is reached, and all neighbours of what it has done.
record IsSearch (edges : ℕ → List ℕ) (root : ℕ) (seen todo : List ℕ) : Type 0 where
  reached : (x : ℕ) → contains x seen ≡ true → Reaches edges root x
  known : (x : ℕ) → contains x todo ≡ true → (x ≡ root) ⊎ (contains x seen ≡ true)
  done :
      (a x : ℕ)
      → (a ≡ root) ⊎ (contains a seen ≡ true)
      → contains x (edges a) ≡ true
      → (contains a todo ≡ true) ⊎ (contains x seen ≡ true)

step_reached :
    (edges : ℕ → List ℕ) (root current : ℕ) (seen rest : List ℕ) (x : ℕ)
    → IsSearch edges root seen (current ∷ rest)
    → (contains x (edges current) || contains x seen) ≡ true
    → Reaches edges root x
step_reached edges root current seen rest x s h = elim (Bool-cases (contains x seen)) [
  | inl old ↦ s.reached x old
  | inr new ↦
      let e : contains x (edges current) ≡ true = ground arith in
      elim (s.known current (ground (arith, ==_refl current))) [
        | inl same ↦ neighbour root x (rw (← same) e)
        | inr is_seen ↦ further root current x (s.reached current is_seen) e
      ]
]

-- Of a channel that was done before, or is the one that is done now.
done_now :
    (edges : ℕ → List ℕ) (current a x : ℕ) (seen rest : List ℕ)
    → contains x (edges a) ≡ true
    → (contains a (current ∷ rest) ≡ true) ⊎ (contains x seen ≡ true)
    → (((contains a (edges current) && not (contains a seen)) || contains a rest) ≡ true)
      ⊎ ((contains x (edges current) || contains x seen) ≡ true)
done_now edges current a x seen rest e (inr h) = inr (ground arith)
done_now edges current a x seen rest e (inl h) = elim (Bool-cases (current == a)) [
  | inl same ↦ let p = (==_iff current a).0 same in inr (rw (p, e) refl)
  | inr other ↦ inl (ground arith)
]

step_done :
    (edges : ℕ → List ℕ) (root current a x : ℕ) (seen rest : List ℕ)
    → IsSearch edges root seen (current ∷ rest)
    → (a ≡ root) ⊎ ((contains a (edges current) || contains a seen) ≡ true)
    → contains x (edges a) ≡ true
    → (((contains a (edges current) && not (contains a seen)) || contains a rest) ≡ true)
      ⊎ ((contains x (edges current) || contains x seen) ≡ true)
step_done edges root current a x seen rest s (inl h) e =
    done_now edges current a x seen rest e (s.done a x (inl h) e)
step_done edges root current a x seen rest s (inr h) e = elim (Bool-cases (contains a seen)) [
  | inl old ↦ done_now edges current a x seen rest e (s.done a x (inr old) e)
  | inr new ↦ inl (ground arith)
]

step_known :
    (edges : ℕ → List ℕ) (root current : ℕ) (seen rest : List ℕ) (x : ℕ)
    → IsSearch edges root seen (current ∷ rest)
    → ((contains x (edges current) && not (contains x seen)) || contains x rest) ≡ true
    → (x ≡ root) ⊎ ((contains x (edges current) || contains x seen) ≡ true)
step_known edges root current seen rest x s h = elim (Bool-cases (contains x rest)) [
  | inl old ↦ elim (s.known x (ground arith)) [ inl r ↦ inl r | inr is_seen ↦ inr (ground arith) ]
  | inr new ↦ inr (ground arith)
]

visit-IsSearch :
    (edges : ℕ → List ℕ) (root current : ℕ) (seen rest : List ℕ)
    → IsSearch edges root seen (current ∷ rest)
    → (w : Walk) → w ≡ visit (edges current) (record { seen = seen; todo = rest })
    → IsSearch edges root w.seen w.todo
visit-IsSearch edges root current seen rest s w e =
    let start : Walk = record { seen = seen; todo = rest } in
    let vs =
      λ (x : ℕ). ap (λ (v : Walk). contains x v.seen) e ∙ visit_seen x (edges current) start in
    let vt =
      λ (x : ℕ). ap (λ (v : Walk). contains x v.todo) e ∙ visit_todo x (edges current) start in
    record {
      reached = λ x h. step_reached edges root current seen rest x s (sym (vs x) ∙ h);
      known = λ x h. rw (vs x) (step_known edges root current seen rest x s (sym (vt x) ∙ h));
      done = λ a x h e.
          rw (vt a, vs x) (step_done edges root current a x seen rest s (rw (vs a) at h) e);
    }

search-IsSearch :
    (edges : ℕ → List ℕ) (root fuel : ℕ) (seen todo found : List ℕ)
    → IsSearch edges root seen todo
    → search edges fuel seen todo ≡ some found
    → IsSearch edges root found []
unfolding search
search-IsSearch edges root fuel seen [] found s h = let e : seen ≡ found = cc h in rw (← e) s
search-IsSearch edges root zero seen (current ∷ rest) found s h = absurd (cc h)
search-IsSearch edges root (suc fuel) seen (current ∷ rest) found s h =
    let w = visit (edges current) (record { seen = seen; todo = rest }) in
    search-IsSearch edges root fuel w.seen w.todo found
      (visit-IsSearch edges root current seen rest s w refl) h

seen_all :
    (edges : ℕ → List ℕ) (root : ℕ) (found : List ℕ) (x : ℕ)
    → IsSearch edges root found []
    → Reaches edges root x
    → contains x found ≡ true
seen_all edges root found _ s (neighbour _ x e) = elim (s.done root x (inl refl) e) [
  | inl h ↦ absurd (cc h)
  | inr h ↦ h
]
seen_all edges root found _ s (further _ a x r e) =
    elim (s.done a x (inr (seen_all edges root found a s r)) e) [
      | inl h ↦ absurd (cc h)
      | inr h ↦ h
    ]

-- From a root, with more fuel than there are neighbours at all.
pub search_finds :
    (edges : ℕ → List ℕ) (all : List ℕ) (root : ℕ)
    → ((a x : ℕ) → contains x (edges a) ≡ true → contains x all ≡ true)
    → (found : List ℕ) × ((search edges (suc (length all)) [] (root ∷ []) ≡ some found)
        × ((x : ℕ) → (contains x found ≡ true) ↔ Reaches edges root x))
search_finds edges all root covers =
    let (found, e) = search_ends_from edges all root covers in
    let s =
      search-IsSearch edges root (suc (length all)) [] (root ∷ []) found (root-IsSearch edges root)
        e in
    (found, (e, λ x. (s.reached x, seen_all edges root found x s)))
  where
    root-IsSearch : (edges : ℕ → List ℕ) (root : ℕ) → IsSearch edges root [] (root ∷ [])
    root-IsSearch edges root = record {
      reached = λ x h. absurd (cc h);
      known = λ x h. inl (ground arith);
      done = λ a x h e. elim h [
        | inl r ↦ inl (rw r (ground (arith, ==_refl root)))
        | inr n ↦ absurd (cc n)
      ];
    }
