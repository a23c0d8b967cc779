-- ===== src/Targets/Sets.antt =====
-- The sets of clients and channels that a voice target adds up.
use grumble.Common.{
  Option, none, some, Option-cases, ◌⊎◌, ℕ, ◌≡◌, refl, ◌∙◌, Bool, true, false, ◌&&◌, ◌||◌, List, [],
  ◌∷◌, ◌==◌, if◌then◌else◌, arith, Bool-cases, inl, inr, ◌↔◌, ==_iff, ==_refl,
}
use grumble.Common.Sets.{contains, insert, contains_if_insert}
use grumble.Channels.{Channel}
use grumble.Common.Names.{Name}
use grumble.Targets.{
  returned, panicked, Rights, clients_of, add_allowed, add_members, add_channels, group_allows,
}

pub contains-add_allowed :
    (allowed : ℕ → Bool) (x : ℕ) (xs into : List ℕ)
    → contains x (add_allowed allowed xs into) ≡ ((contains x xs && allowed x) || contains x into)
unfolding add_allowed
contains-add_allowed allowed x [] into = refl
contains-add_allowed allowed x (y ∷ xs) into =
    contains-add_allowed allowed x xs (if allowed y then insert y into else into)
    ∙ rw (contains_if_insert (allowed y) y x into) (elim (Bool-cases (y == x)) [
      | inl e ↦ rw ((==_iff y x).0 e) (ground arith)
      | inr e ↦ rw e (ground arith)
    ])

-- A check that says yes, and one that panics.
abbrev pub passes : Option Bool → Bool
passes none = false
passes (some b) = b

abbrev pub fails : Option Bool → Bool
fails none = true
fails (some b) = false

abbrev pub any : (ℕ → Bool) → List ℕ → Bool
any p [] = false
any p (x ∷ xs) = p x || any p xs

-- Whether the channel has the client, and both checks pass.
abbrev pub heard_in : Rights → List Channel → Name → ℕ → ℕ → Bool
heard_in rights cs group session id =
    passes (rights.may_whisper id)
    && (contains session (clients_of cs id) && passes (group_allows rights cs group id session))

-- Whether a check panics in the channel: the first one, or the second one of a client where the
-- first passes.
abbrev pub fails_in : Rights → List Channel → Name → ℕ → Bool
fails_in rights cs group id =
    fails (rights.may_whisper id)
    || (passes (rights.may_whisper id)
        && any (λ s. fails (group_allows rights cs group id s)) (clients_of cs id))

-- The loop over the channels where no check panics.
plain_channels : Rights → List Channel → Name → List ℕ → List ℕ → List ℕ
plain_channels rights cs group [] into = into
plain_channels rights cs group (id ∷ ids) into = plain_channels rights cs group ids (
    if passes (rights.may_whisper id)
    then add_allowed (λ s. passes (group_allows rights cs group id s)) (clients_of cs id) into
    else into)

contains-plain_channels :
    (rights : Rights) (cs : List Channel) (group : Name) (x : ℕ) (ids into : List ℕ)
    → contains x (plain_channels rights cs group ids into)
      ≡ (any (heard_in rights cs group x) ids || contains x into)
unfolding plain_channels
contains-plain_channels rights cs group x [] into = refl
contains-plain_channels rights cs group x (id ∷ ids) into =
    elim (Bool-cases (passes (rights.may_whisper id))) [
      | inl e ↦
          let allowed = λ (s : ℕ). passes (group_allows rights cs group id s) in
          let into' = add_allowed allowed (clients_of cs id) into in
          rw
            (
              e,
              contains-plain_channels rights cs group x ids into',
              contains-add_allowed allowed x (clients_of cs id) into,
            )
            (ground arith)
      | inr e ↦ rw (e, contains-plain_channels rights cs group x ids into) refl
    ]

add_members_lem :
    (rights : Rights) (cs : List Channel) (group : Name) (id : ℕ) (xs into : List ℕ)
    → add_members rights cs group id xs into ≡ (
        if any (λ s. fails (group_allows rights cs group id s)) xs
        then panicked
        else returned (add_allowed (λ s. passes (group_allows rights cs group id s)) xs into))
unfolding add_members add_allowed
add_members_lem rights cs group id [] into = refl
add_members_lem rights cs group id (s ∷ xs) into =
    elim (Option-cases (group_allows rights cs group id s)) [
      | inl n ↦ rw n refl
      | inr (b, e) ↦
          rw e (add_members_lem rights cs group id xs (if b then insert s into else into))
    ]

add_channels_lem :
    (rights : Rights) (cs : List Channel) (group : Name) (ids into : List ℕ)
    → add_channels rights cs group ids into ≡ (
        if any (fails_in rights cs group) ids
        then panicked
        else returned (plain_channels rights cs group ids into))
unfolding add_channels plain_channels
add_channels_lem rights cs group [] into = refl
add_channels_lem rights cs group (id ∷ ids) into = elim (Option-cases (rights.may_whisper id)) [
  | inl n ↦ rw n refl
  | inr (false, e) ↦ rw e (add_channels_lem rights cs group ids into)
  | inr (true, e) ↦
      let f = λ (s : ℕ). fails (group_allows rights cs group id s) in
      let p = λ (s : ℕ). passes (group_allows rights cs group id s) in
      elim (Bool-cases (any f (clients_of cs id))) [
        | inl y ↦ rw (e, add_members_lem rights cs group id (clients_of cs id) into, y) refl
        | inr n ↦
            rw (e, add_members_lem rights cs group id (clients_of cs id) into, n)
              (add_channels_lem rights cs group ids (add_allowed p (clients_of cs id) into))
      ]
]

-- The loop panics when a check does, and else has the clients of the channels that pass.
pub add_channels_cases :
    (rights : Rights) (cs : List Channel) (group : Name) (ids into : List ℕ)
    → ((add_channels rights cs group ids into ≡ panicked)
        × (any (fails_in rights cs group) ids ≡ true))
      ⊎ ((into' : List ℕ) × ((add_channels rights cs group ids into ≡ returned into')
            × ((any (fails_in rights cs group) ids ≡ false)
                × ((x : ℕ)
                    → contains x into'
                      ≡ (any (heard_in rights cs group x) ids || contains x into)))))
add_channels_cases rights cs group ids into =
    elim (Bool-cases (any (fails_in rights cs group) ids)) [
      | inl y ↦ inl (rw (add_channels_lem rights cs group ids into, y) refl, y)
      | inr n ↦ inr (
        plain_channels rights cs group ids into,
        (
          rw (add_channels_lem rights cs group ids into, n) refl,
          (n, λ x. contains-plain_channels rights cs group x ids into),
        ),
      )
    ]

pub any_found :
    (p : ℕ → Bool) (xs : List ℕ)
    → (any p xs ≡ true) ↔ ((x : ℕ) × ((contains x xs ≡ true) × (p x ≡ true)))
any_found p xs = (to p xs, from p xs)
  where
    to :
        (p : ℕ → Bool) (xs : List ℕ)
        → any p xs ≡ true
        → (x : ℕ) × ((contains x xs ≡ true) × (p x ≡ true))
    to p [] h = absurd (cc h)
    to p (x ∷ xs) h = elim (Bool-cases (p x)) [
      | inl e ↦ (x, (ground (arith, ==_refl x), e))
      | inr e ↦ let (y, (m, q)) = to p xs (ground arith) in (y, (ground arith, q))
    ]

    from :
        (p : ℕ → Bool) (xs : List ℕ)
        → (x : ℕ) × ((contains x xs ≡ true) × (p x ≡ true))
        → any p xs ≡ true
    from p [] (x, (m, q)) = absurd (cc m)
    from p (y ∷ xs) (x, (m, q)) = elim (Bool-cases (y == x)) [
      | inl e ↦ let same = (==_iff y x).0 e in rw (same, q) refl
      | inr e ↦ let r = from p xs (x, (ground arith, q)) in ground arith
    ]
