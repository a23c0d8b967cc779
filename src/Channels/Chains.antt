-- ===== src/Channels/Chains.antt =====
-- AllLinks on a server whose links came from LinkChannels and UnlinkChannels.
use grumble.Common.{
  ℕ, ◌≡◌, refl, sym, ◌∙◌, Bool, true, false, List, [], ◌∷◌, some, arith, Bool-cases, inl, inr,
  ==_refl,
}
use grumble.Common.Sets.{contains}
use grumble.Channels.{Channel, links_of, all_links}
use grumble.Channels.Search.{Reaches, neighbour, further}
use grumble.Channels.Reach.{all_links-Reaches}
use grumble.Channels.Links.{IsSymmetric, Linked, Linked-IsSymmetric}

first_step :
    (edges : ℕ → List ℕ) (a b c : ℕ)
    → contains b (edges a) ≡ true
    → Reaches edges b c
    → Reaches edges a c
first_step edges a b _ e (neighbour _ c h) = further a b c (neighbour a b e) h
first_step edges a b _ e (further _ m c r h) = further a m c (first_step edges a b m e r) h

back :
    (cs : List Channel) (a b : ℕ)
    → IsSymmetric cs
    → Reaches (links_of cs) a b
    → Reaches (links_of cs) b a
back cs _ _ s (neighbour a b e) = neighbour b a (s b a ∙ e)
back cs _ _ s (further a m b r e) = first_step (links_of cs) b m a (s b m ∙ e) (back cs a m s r)

same_truth : (a b : Bool) → (a ≡ true → b ≡ true) → (b ≡ true → a ≡ true) → a ≡ b
same_truth true b f g = sym (f refl)
same_truth false true f g = g refl
same_truth false false f g = refl

-- Where all links have two ends at first, then after any calls of LinkChannels and UnlinkChannels,
-- AllLinks of a channel has another channel exactly when AllLinks of that one has the first.
pub all_links_mutual :
    (cs cs' : List Channel) (a b : ℕ)
    → IsSymmetric cs
    → Linked cs cs'
    → (of_a of_b : List ℕ) × ((all_links cs' a ≡ some of_a)
        × ((all_links cs' b ≡ some of_b) × (contains b of_a ≡ contains a of_b)))
all_links_mutual cs cs' a b s r =
    let s' = Linked-IsSymmetric cs cs' s r in
    let (of_a, (ea, ha)) = all_links-Reaches cs' a in
    let (of_b, (eb, hb)) = all_links-Reaches cs' b in
    (
      of_a,
      of_b,
      (
        ea,
        (
          eb,
          same_truth (contains b of_a) (contains a of_b)
              (λ h. (hb a).1 (back cs' a b s' ((ha b).0 h)))
              (λ h. (ha b).1 (back cs' b a s' ((hb a).0 h))),
        ),
      ),
    )

abbrev pub has_links : List ℕ → Bool
has_links [] = false
has_links (_ ∷ _) = true

to_self :
    (cs : List Channel) (id : ℕ) (ids : List ℕ)
    → IsSymmetric cs
    → links_of cs id ≡ ids
    → has_links ids ≡ true
    → Reaches (links_of cs) id id
to_self cs id [] s e h = absurd (cc h)
to_self cs id (x ∷ ids) s e h =
    let there : contains x (links_of cs id) ≡ true = rw e (ground (arith, ==_refl x)) in
    first_step (links_of cs) id x id there (back cs id x s (neighbour id x there))

no_link : (x : ℕ) (ids : List ℕ) → has_links ids ≡ false → contains x ids ≡ true → ⊥
no_link x [] n h = cc h
no_link x (i ∷ ids) n h = cc n

no_step :
    (cs : List Channel) (id x : ℕ)
    → has_links (links_of cs id) ≡ false
    → Reaches (links_of cs) id x
    → ⊥
no_step cs id _ n (neighbour _ x e) = no_link x (links_of cs id) n e
no_step cs id _ n (further _ m x r e) = no_step cs id m n r

-- Where all links have two ends, AllLinks has the channel itself exactly when it has a link.
pub all_links_self :
    (cs : List Channel) (id : ℕ)
    → IsSymmetric cs
    → (found : List ℕ) × ((all_links cs id ≡ some found)
        × (contains id found ≡ has_links (links_of cs id)))
all_links_self cs id s =
    let (found, (e, h)) = all_links-Reaches cs id in
    (
      found,
      (
        e,
        same_truth (contains id found) (has_links (links_of cs id))
            (λ m. elim (Bool-cases (has_links (links_of cs id))) [
              | inl t ↦ t
              | inr f ↦ absurd (no_step cs id id f ((h id).0 m))
            ])
            (λ l. (h id).1 (to_self cs id (links_of cs id) s refl l)),
      ),
    )
