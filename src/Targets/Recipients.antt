-- ===== src/Targets/Recipients.antt =====
-- The sets of clients that a voice target sends to.
use grumble.Common.{
  ℕ, ◌≡◌, refl, true, false, not, ◌&&◌, List, [], ◌∷◌, none, some, arith, Bool-cases, Option-cases,
  inl, inr, ◌⊎◌, ◌↔◌, ◌≢◌, ==_iff,
}
use grumble.Common.Sets.{contains, remove, contains-remove}
use grumble.Channels.{Channel, find_channel}
use grumble.Targets.{
  returned, panicked, Rights, VoiceTargetChannel, VoiceTarget, add_target, from_channels,
  direct_sessions, collect,
}
use grumble.Targets.Sets.{contains-add_allowed}
use grumble.Targets.Entry.{Hears, Breaks, target_added}

module _ (rights : Rights) (cs : List Channel) where
  -- One of the entries is of a channel of the server and has the property.
  pub data SomeEntry (p : VoiceTargetChannel → Type 0) : List VoiceTargetChannel → Type 0 where
    here :
        (vtc : VoiceTargetChannel) (vtcs : List VoiceTargetChannel) (channel : Channel)
        → find_channel vtc.id cs ≡ some channel
        → p vtc
        → SomeEntry p (vtc ∷ vtcs)
    later :
        (vtc : VoiceTargetChannel) (vtcs : List VoiceTargetChannel)
        → SomeEntry p vtcs
        → SomeEntry p (vtc ∷ vtcs)

  -- One of the entries reaches the session.
  abbrev pub IsTargeted : ℕ → List VoiceTargetChannel → Type 0
  IsTargeted s = SomeEntry (λ vtc. Hears rights cs vtc s)

  -- In a channel of one of the entries a check panics.
  abbrev pub MeetsPanic : List VoiceTargetChannel → Type 0
  MeetsPanic = SomeEntry (λ vtc. Breaks rights cs vtc)

  not_a_channel :
      (p : VoiceTargetChannel → Type 0) (vtc : VoiceTargetChannel) (vtcs : List VoiceTargetChannel)
      → find_channel vtc.id cs ≡ none
      → SomeEntry p (vtc ∷ vtcs)
      → SomeEntry p vtcs
  not_a_channel p vtc vtcs e (here _ _ channel f h) = absurd (cc (e, f))
  not_a_channel p vtc vtcs e (later _ _ t) = t

  by_entry :
      (p : VoiceTargetChannel → Type 0) (vtc : VoiceTargetChannel) (vtcs : List VoiceTargetChannel)
      → SomeEntry p (vtc ∷ vtcs)
      → p vtc ⊎ SomeEntry p vtcs
  by_entry p vtc vtcs (here _ _ channel f h) = inl h
  by_entry p vtc vtcs (later _ _ t) = inr t

  no_entry : (p : VoiceTargetChannel → Type 0) → SomeEntry p [] → ⊥
  no_entry p t = elim t [ ]

  -- The loop over the entries: it panics where a check does, and else adds whom they reach.
  abbrev Walked : List VoiceTargetChannel → List ℕ → Type 0
  Walked vtcs into =
      ((from_channels rights cs vtcs into ≡ panicked) × MeetsPanic vtcs)
      ⊎ ((found : List ℕ) × ((from_channels rights cs vtcs into ≡ returned found)
            × ((MeetsPanic vtcs → ⊥)
                × ((s : ℕ)
                    → (contains s found ≡ true) ↔ (IsTargeted s vtcs ⊎ (contains s into ≡ true))))))

  skipped :
      (vtc : VoiceTargetChannel) (vtcs : List VoiceTargetChannel) (into : List ℕ)
      → find_channel vtc.id cs ≡ none
      → Walked vtcs into
      → Walked (vtc ∷ vtcs) into
  unfolding from_channels
  skipped vtc vtcs into e (inl (q, m)) = inl (rw (from_channels, e) q, later vtc vtcs m)
  skipped vtc vtcs into e (inr (found, (q, (n, h)))) = inr (
    found,
    (
      rw (from_channels, e) q,
      (
        λ m. n (not_a_channel (λ v. Breaks rights cs v) vtc vtcs e m),
        λ s. (
          λ m. elim ((h s).0 m) [ inl t ↦ inl (later vtc vtcs t) | inr o ↦ inr o ],
          λ u. (h s).1 (elim u [
            | inl t ↦ inl (not_a_channel (λ v. Hears rights cs v s) vtc vtcs e t)
            | inr o ↦ inr o
          ]),
        ),
      ),
    ),
  )

  one_more :
      (vtc : VoiceTargetChannel) (vtcs : List VoiceTargetChannel) (channel : Channel)
      (into into' : List ℕ)
      → find_channel vtc.id cs ≡ some channel
      → add_target rights cs vtc channel into ≡ returned into'
      → (Breaks rights cs vtc → ⊥)
      → ((s : ℕ) → (contains s into' ≡ true) ↔ (Hears rights cs vtc s ⊎ (contains s into ≡ true)))
      → Walked vtcs into'
      → Walked (vtc ∷ vtcs) into
  unfolding from_channels
  one_more vtc vtcs channel into into' e p b g (inl (q, m)) =
      inl (rw (from_channels, e, p) q, later vtc vtcs m)
  one_more vtc vtcs channel into into' e p b g (inr (found, (q, (n, h)))) = inr (
    found,
    (
      rw (from_channels, e, p) q,
      (
        λ m. elim (by_entry (λ v. Breaks rights cs v) vtc vtcs m) [ inl x ↦ b x | inr x ↦ n x ],
        λ s. (
          λ m. elim ((h s).0 m) [
            | inl t ↦ inl (later vtc vtcs t)
            | inr m' ↦ elim ((g s).0 m') [
              | inl heard ↦ inl (here vtc vtcs channel e heard)
              | inr o ↦ inr o
            ]
          ],
          λ u. (h s).1 (elim u [
            | inl t ↦ elim (by_entry (λ v. Hears rights cs v s) vtc vtcs t) [
              | inl heard ↦ inr ((g s).1 (inl heard))
              | inr t' ↦ inl t'
            ]
            | inr o ↦ inr ((g s).1 (inr o))
          ]),
        ),
      ),
    ),
  )

  targets_added : (vtcs : List VoiceTargetChannel) (into : List ℕ) → Walked vtcs into
  unfolding from_channels
  targets_added [] into = inr (
    into,
    (
      refl,
      (
        λ m. no_entry (λ v. Breaks rights cs v) m,
        λ s. (
          λ m. inr m,
          λ u. elim u [ inl t ↦ absurd (no_entry (λ v. Hears rights cs v s) t) | inr m ↦ m ],
        ),
      ),
    ),
  )
  targets_added (vtc ∷ vtcs) into = elim (Option-cases (find_channel vtc.id cs)) [
    | inl e ↦ skipped vtc vtcs into e (targets_added vtcs into)
    | inr (channel, e) ↦ elim (target_added rights cs vtc channel into e) [
      | inl (p, b) ↦ inl (rw (from_channels, e, p) refl, here vtc vtcs channel e b)
      | inr (into', (p, (b, g))) ↦
          one_more vtc vtcs channel into into' e p b g (targets_added vtcs into')
    ]
  ]

  -- Who is in the two sets: the sessions of the entries, and the sessions that are named and online
  -- and not among those; never the sender.
  pub record IsCollected (online : List ℕ) (sender : ℕ) (vt : VoiceTarget) (direct found : List ℕ)
      : Type 0 where
    pub from_entries :
        (s : ℕ) → (contains s found ≡ true) ↔ ((s ≢ sender) × IsTargeted s vt.channels)
    pub named :
        (s : ℕ)
        → (contains s direct ≡ true) ↔ (
            (s ≢ sender)
            × ((contains s vt.sessions ≡ true)
                × ((contains s online ≡ true) × (IsTargeted s vt.channels → ⊥))))

  others :
      (sender s : ℕ) (xs : List ℕ)
      → (contains s (remove sender xs) ≡ true) ↔ ((s ≢ sender) × (contains s xs ≡ true))
  others sender s xs =
      let c = contains-remove sender s xs in
      (
        λ m. (ground (arith, ==_iff sender s), ground arith),
        λ (ne, m). rw c (ground (arith, ==_iff sender s)),
      )

  direct_ones :
      (online found sessions : List ℕ) (s : ℕ)
      → (contains s (direct_sessions online found sessions) ≡ true)
        ↔ ((contains s sessions ≡ true) × ((contains s online ≡ true) × (contains s found ≡ false)))
  unfolding direct_sessions
  direct_ones online found sessions s =
      let c =
        contains-add_allowed (λ t. contains t online && not (contains t found)) s sessions [] in
      (λ m. (ground arith, (ground arith, ground arith)), λ (m, (o, f)). rw (c, m, o, f) refl)

  collected_direct :
      (online : List ℕ) (sender s : ℕ) (vt : VoiceTarget) (found : List ℕ)
      → (contains s found ≡ true) ↔ IsTargeted s vt.channels
      → (contains s (remove sender (direct_sessions online found vt.sessions)) ≡ true) ↔ (
          (s ≢ sender)
          × ((contains s vt.sessions ≡ true)
              × ((contains s online ≡ true) × (IsTargeted s vt.channels → ⊥))))
  collected_direct online sender s vt found h =
      let all = direct_sessions online found vt.sessions in
      let d = direct_ones online found vt.sessions s in
      (
        λ m.
            let (ne, m') = (others sender s all).0 m in
            let (named, (on, new)) = d.0 m' in
            (ne, (named, (on, λ t. let old = h.1 t in cc (old, new)))),
        λ (ne, (named, (on, n))). (others sender s all).1 (
          ne,
          d.1 (
            named,
            (
              on,
              elim (Bool-cases (contains s found)) [
                | inl old ↦ absurd (n (h.0 old))
                | inr new ↦ new
              ],
            ),
          ),
        ),
      )

  -- SendVoiceBroadcast without both caches panics exactly when a check does that it makes: the check
  -- to whisper in a channel of an entry, where links and subchannels count, or behind it the check
  -- of the entry's group for a client in that channel. Else it returns with both sets: a session is
  -- in the one of the channels exactly when it is not the sender's and an entry of the target
  -- reaches it, past both checks, and in the direct one exactly when it is not the sender's, the
  -- target names it, it is online, and no entry reaches it.
  pub collect-IsCollected :
      (online : List ℕ) (sender : ℕ) (vt : VoiceTarget)
      → ((collect rights cs online sender vt ≡ panicked) × MeetsPanic vt.channels)
        ⊎ ((direct found : List ℕ) × ((collect rights cs online sender vt
                ≡ returned (direct, found))
              × ((MeetsPanic vt.channels → ⊥) × IsCollected online sender vt direct found)))
  unfolding collect
  collect-IsCollected online sender vt = elim (targets_added vt.channels []) [
    | inl (e, m) ↦ inl (rw (collect, e) refl, m)
    | inr (found, (e, (n, h))) ↦
        let targeted : (s : ℕ) → (contains s found ≡ true) ↔ IsTargeted s vt.channels = λ s.
          (λ m. elim ((h s).0 m) [ inl t ↦ t | inr o ↦ absurd (cc o) ], λ t. (h s).1 (inl t)) in
        inr (
          remove sender (direct_sessions online found vt.sessions),
          remove sender found,
          (
            rw (collect, e) refl,
            (
              n,
              record {
                from_entries = λ s. (
                  λ m. let (ne, m') = (others sender s found).0 m in (ne, (targeted s).0 m'),
                  λ (ne, t). (others sender s found).1 (ne, (targeted s).1 t),
                );
                named = λ s. collected_direct online sender s vt found (targeted s);
              },
            ),
          ),
        )
  ]
