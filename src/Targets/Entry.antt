-- ===== src/Targets/Entry.antt =====
-- The clients that one entry of a voice target adds.
use grumble.Common.{
  [], ◌∷◌, Option-cases, ℕ, ◌≡◌, refl, sym, subst, ◌∙◌, Bool, true, false, not, ◌&&◌, ◌||◌, List,
  some, if◌then◌else◌, arith, Bool-cases, inl, inr, ◌⊎◌, ◌↔◌,
}
use grumble.Common.Names.{Name}
use grumble.Common.Sets.{contains}
use grumble.Channels.{Channel, find_channel}
use grumble.Targets.{
  returned, panicked, Rights, VoiceTargetChannel, is_nil, clients_of, add_allowed, group_allows,
  add_target,
}
use grumble.Targets.Sets.{
  contains-add_allowed, passes, fails, heard_in, fails_in, any, any_found, add_channels_cases,
}
use grumble.Targets.NewChannels.{IsTargetChannel, itself, parts_of, new_channels-IsTargetChannel}

module _ (rights : Rights) (cs : List Channel) where
  -- An entry reaches a session through one of its channels.
  pub Hears : VoiceTargetChannel → ℕ → Type 0
  Hears vtc s =
      (x : ℕ) × (IsTargetChannel cs vtc x × (heard_in rights cs vtc.only_group s x ≡ true))

  -- A check panics in one of an entry's channels.
  pub Breaks : VoiceTargetChannel → Type 0
  Breaks vtc = (x : ℕ) × (IsTargetChannel cs vtc x × (fails_in rights cs vtc.only_group x ≡ true))

  many_channels :
      (vtc : VoiceTargetChannel) (ids into into' : List ℕ) (s : ℕ)
      → ((x : ℕ) → (contains x ids ≡ true) ↔ IsTargetChannel cs vtc x)
      → contains s into' ≡ (any (heard_in rights cs vtc.only_group s) ids || contains s into)
      → (contains s into' ≡ true) ↔ (Hears vtc s ⊎ (contains s into ≡ true))
  unfolding Hears
  many_channels vtc ids into into' s h c =
      let found = any_found (heard_in rights cs vtc.only_group s) ids in
      (
        λ m. elim (Bool-cases (any (heard_in rights cs vtc.only_group s) ids)) [
          | inl y ↦ let (x, (mx, hx)) = found.0 y in inl (x, ((h x).0 mx, hx))
          | inr n ↦ inr (rw (c, n) at m)
        ],
        λ u. elim u [
          | inl (x, (t, hx)) ↦ let y = found.1 (x, ((h x).1 t, hx)) in rw (c, y) refl
          | inr old ↦ rw c (ground arith)
        ],
      )

  broken :
      (vtc : VoiceTargetChannel) (ids : List ℕ)
      → ((x : ℕ) → (contains x ids ≡ true) ↔ IsTargetChannel cs vtc x)
      → (any (fails_in rights cs vtc.only_group) ids ≡ true) ↔ Breaks vtc
  unfolding Breaks
  broken vtc ids h =
      let found = any_found (fails_in rights cs vtc.only_group) ids in
      (
        λ y. let (x, (m, f)) = found.0 y in (x, ((h x).0 m, f)),
        λ (x, (t, f)). found.1 (x, ((h x).1 t, f)),
      )

  contains_whispered :
      (channel : Channel) (w : Bool) (into : List ℕ) (s : ℕ)
      → contains s (if w then add_allowed (λ t. true) channel.clients into else into)
        ≡ ((w && contains s channel.clients) || contains s into)
  contains_whispered channel false into s = refl
  contains_whispered channel true into s =
      contains-add_allowed (λ t. true) s channel.clients into ∙ ground arith

  heard_in_plain :
      (vtc : VoiceTargetChannel) (channel : Channel) (s : ℕ)
      → find_channel vtc.id cs ≡ some channel
      → is_nil vtc.only_group ≡ true
      → heard_in rights cs vtc.only_group s vtc.id
        ≡ (passes (rights.may_whisper vtc.id) && contains s channel.clients)
  unfolding clients_of group_allows
  heard_in_plain vtc channel s e nil = rw (clients_of, e, group_allows, nil) (ground arith)

  only_itself :
      (vtc : VoiceTargetChannel) (x : ℕ)
      → vtc.sub_channels ≡ false
      → vtc.links ≡ false
      → IsTargetChannel cs vtc x
      → vtc.id ≡ x
  only_itself vtc x no_sub no_links t = elim (parts_of cs vtc x t) [
    | inl (inl (l, _)) ↦ absurd (cc (l, no_links))
    | inl (inr (_, same)) ↦ same
    | inr (y, _) ↦ absurd (cc (y, no_sub))
  ]

  one_channel :
      (vtc : VoiceTargetChannel) (channel : Channel) (into : List ℕ) (s : ℕ)
      → find_channel vtc.id cs ≡ some channel
      → (not vtc.sub_channels && (not vtc.links && is_nil vtc.only_group)) ≡ true
      → (contains s (
            if passes (rights.may_whisper vtc.id)
            then add_allowed (λ t. true) channel.clients into
            else into)
          ≡ true)
        ↔ (Hears vtc s ⊎ (contains s into ≡ true))
  unfolding Hears
  one_channel vtc channel into s e plain =
      let w = passes (rights.may_whisper vtc.id) in
      let c = contains_whispered channel w into s in
      let no_sub : vtc.sub_channels ≡ false = ground arith in
      let no_links : vtc.links ≡ false = ground arith in
      let here = heard_in_plain vtc channel s e (ground arith) in
      (
        λ m. elim (Bool-cases (w && contains s channel.clients)) [
          | inl y ↦ inl (vtc.id, (itself no_links, here ∙ y))
          | inr n ↦ inr (rw (c, n) at m)
        ],
        λ u. elim u [
          | inl (x, (t, hx)) ↦
              let at_id =
                subst (λ y. heard_in rights cs vtc.only_group s y ≡ true)
                  (sym (only_itself vtc x no_sub no_links t)) hx in
              rw (c, sym here ∙ at_id) refl
          | inr old ↦ rw c (ground arith)
        ],
      )

  no_group_fails :
      (group : Name) (id : ℕ) (xs : List ℕ)
      → is_nil group ≡ true
      → any (λ s. fails (group_allows rights cs group id s)) xs ≡ false
  unfolding group_allows
  no_group_fails group id [] nil = refl
  no_group_fails group id (s ∷ xs) nil = rw nil (no_group_fails group id xs nil)

  one_broken :
      (vtc : VoiceTargetChannel)
      → (not vtc.sub_channels && (not vtc.links && is_nil vtc.only_group)) ≡ true
      → (fails (rights.may_whisper vtc.id) ≡ true) ↔ Breaks vtc
  unfolding Breaks
  one_broken vtc plain =
      let no_sub : vtc.sub_channels ≡ false = ground arith in
      let no_links : vtc.links ≡ false = ground arith in
      let here : fails_in rights cs vtc.only_group vtc.id ≡ fails (rights.may_whisper vtc.id) =
        rw (no_group_fails vtc.only_group vtc.id (clients_of cs vtc.id) (ground arith))
          (ground arith) in
      (
        λ f. (vtc.id, (itself no_links, here ∙ f)),
        λ (x, (t, f)).
            sym here
            ∙ subst (λ y. fails_in rights cs vtc.only_group y ≡ true)
                (sym (only_itself vtc x no_sub no_links t)) f,
      )

  pub target_added :
      (vtc : VoiceTargetChannel) (channel : Channel) (into : List ℕ)
      → find_channel vtc.id cs ≡ some channel
      → ((add_target rights cs vtc channel into ≡ panicked) × Breaks vtc)
        ⊎ ((into' : List ℕ) × ((add_target rights cs vtc channel into ≡ returned into')
              × ((Breaks vtc → ⊥)
                  × ((s : ℕ)
                      → (contains s into' ≡ true) ↔ (Hears vtc s ⊎ (contains s into ≡ true))))))
  unfolding add_target
  target_added vtc channel into e =
      elim (Bool-cases (not vtc.sub_channels && (not vtc.links && is_nil vtc.only_group))) [
        | inl plain ↦ elim (Option-cases (rights.may_whisper vtc.id)) [
          | inl n ↦ inl (rw (add_target, plain, n) refl, (one_broken vtc plain).0 (rw n refl))
          | inr (w, y) ↦ inr (
            if w then add_allowed (λ t. true) channel.clients into else into,
            (
              rw (add_target, plain, y) refl,
              (
                λ b.
                    let f = (one_broken vtc plain).1 b in
                    let g : false ≡ true = rw y at f in absurd (cc g),
                λ s. let c = one_channel vtc channel into s e plain in rw y at c,
              ),
            ),
          )
        ]
        | inr many ↦
            let (ids, (q, h)) = new_channels-IsTargetChannel cs vtc in
            let both = broken vtc ids h in
            elim (add_channels_cases rights cs vtc.only_group ids into) [
              | inl (p, y) ↦ inl (rw (add_target, many, q) p, both.0 y)
              | inr (into', (p, (n, c))) ↦ inr (
                into',
                (
                  rw (add_target, many, q) p,
                  (
                    λ b. let y = both.1 b in absurd (cc (y, n)),
                    λ s. many_channels vtc ids into into' s h (c s),
                  ),
                ),
              )
            ]
      ]
