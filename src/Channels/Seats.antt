-- ===== src/Channels/Seats.antt =====
-- Clients in channels: AddClient and RemoveClient of cmd/grumble/channel.go, and the move of a client
-- in userEnterChannel of cmd/grumble/server.go.
use grumble.Common.{
  ℕ, ◌≡◌, refl, ap, sym, subst, ◌∙◌, true, false, not, ◌&&◌, ◌||◌, List, [], ◌∷◌, Option, none,
  some, ◌==◌, if◌then◌else◌, arith, Bool-cases, Option-cases, inl, inr, ◌↔◌, ==_iff, ==_refl,
}
use grumble.Common.Sets.{contains, insert, remove, contains_if_insert, contains_if_remove}
use grumble.Channels.{Channel, find_channel, change}
use grumble.Channels.Links.{is_channel, is_channel_same}

-- The channels, and the channel that each client names, if it is not nil.
pub record Seats : Type 0 where
  pub channels : List Channel
  pub place : ℕ → Option ℕ

-- `channel.clients`
unfoldable pub members : ℕ → List Channel → List ℕ
members id cs = elim (find_channel id cs) [ none ↦ [] | some c ↦ c.clients ]

abbrev pub change_clients : (List ℕ → List ℕ) → Channel → Channel
change_clients f c = record c { clients = f c.clients }

abbrev pub set_place : ℕ → Option ℕ → (ℕ → Option ℕ) → ℕ → Option ℕ
set_place session at place s = if session == s then at else place s

-- `AddClient`
unfoldable pub add_client : ℕ → ℕ → Seats → Seats
add_client id session st = record {
  channels = change id (change_clients (insert session)) st.channels;
  place = set_place session (some id) st.place;
}

-- `RemoveClient`
unfoldable pub remove_client : ℕ → ℕ → Seats → Seats
remove_client id session st = record {
  channels = change id (change_clients (remove session)) st.channels;
  place = set_place session none st.place;
}

-- The move in userEnterChannel.
unfoldable pub enter_channel : ℕ → ℕ → Seats → Seats
enter_channel session id st = elim (st.place session) [
  | none ↦ add_client id session st
  | some old ↦ if old == id then st else add_client id session (remove_client old session st)
]

-- A client is in exactly the channel that it names.
pub record IsSeated (st : Seats) : Type 0 where
  pub seated :
      (session id : ℕ)
      → (contains session (members id st.channels) ≡ true) ↔ (st.place session ≡ some id)

pub members-cons :
    (c : Channel) (cs : List Channel) (x : ℕ)
    → members x (c ∷ cs) ≡ (if c.id == x then c.clients else members x cs)
unfolding members find_channel
members-cons c cs x = elim (Bool-cases (c.id == x)) [
  | inl e ↦ rw (members, find_channel, e) refl
  | inr e ↦ rw (members, find_channel, e) refl
]

members-change :
    (id x : ℕ) (f : List ℕ → List ℕ) (cs : List Channel)
    → members x (change id (change_clients f) cs)
      ≡ (if (id == x) && is_channel x cs then f (members x cs) else members x cs)
unfolding change
members-change id x f [] = ground arith
members-change id x f (c ∷ cs) =
    let rest = change id (change_clients f) cs in
    elim (Bool-cases (c.id == id)) [
      | inl e ↦
          rw
            (
              e,
              members-cons (change_clients f c) rest x,
              members-cons c cs x,
              members-change id x f cs,
            )
            (ground arith)
      | inr e ↦
          rw (e, members-cons c rest x, members-cons c cs x, members-change id x f cs)
            (ground arith)
    ]

is_channel-change :
    (id x : ℕ) (f : List ℕ → List ℕ) (cs : List Channel)
    → is_channel x (change id (change_clients f) cs) ≡ is_channel x cs
unfolding change
is_channel-change id x f [] = refl
is_channel-change id x f (c ∷ cs) = ground (arith, is_channel-change id x f cs)

members-is_channel :
    (s x : ℕ) (cs : List Channel) → contains s (members x cs) ≡ true → is_channel x cs ≡ true
unfolding members find_channel
members-is_channel s x [] h = absurd (cc h)
members-is_channel s x (c ∷ cs) h = elim (Bool-cases (c.id == x)) [
  | inl e ↦ rw e refl
  | inr e ↦ rw e (members-is_channel s x cs (rw (members-cons c cs x, e) at h))
]

contains-add_client :
    (id session s x : ℕ) (cs : List Channel)
    → is_channel id cs ≡ true
    → contains s (members x (change id (change_clients (insert session)) cs))
      ≡ (((id == x) && (session == s)) || contains s (members x cs))
contains-add_client id session s x cs h =
    ap (contains s) (members-change id x (insert session) cs)
    ∙ contains_if_insert ((id == x) && is_channel x cs) session s (members x cs)
    ∙ ap (λ p. (p && (session == s)) || contains s (members x cs)) (is_channel_same id x cs h)

contains-remove_client :
    (id session s x : ℕ) (cs : List Channel)
    → is_channel id cs ≡ true
    → contains s (members x (change id (change_clients (remove session)) cs))
      ≡ (not ((id == x) && (session == s)) && contains s (members x cs))
contains-remove_client id session s x cs h =
    ap (contains s) (members-change id x (remove session) cs)
    ∙ contains_if_remove ((id == x) && is_channel x cs) session s (members x cs)
    ∙ ap (λ p. not (p && (session == s)) && contains s (members x cs)) (is_channel_same id x cs h)

added_seat :
    (id session s x : ℕ) (st : Seats)
    → IsSeated st
    → st.place session ≡ none
    → ((((id == x) && (session == s)) || contains s (members x st.channels)) ≡ true)
      ↔ (set_place session (some id) st.place s ≡ some x)
added_seat id session s x st h free = elim (Bool-cases (session == s)) [
  | inl e ↦
      let free_s = subst (λ z. st.place z ≡ none) ((==_iff session s).0 e) free in
      let empty : contains s (members x st.channels) ≡ false =
        elim (Bool-cases (contains s (members x st.channels))) [
          | inl t ↦ absurd (cc (free_s, (h.seated s x).0 t))
          | inr f ↦ f
        ] in
      rw (e, empty)
        (
          λ m. ap some ((==_iff id x).0 (ground arith)),
          λ m. let same : id ≡ x = cc m in ground (arith, (==_iff id x).1 same),
        )
  | inr e ↦
      rw e (λ m. (h.seated s x).0 (ground arith), λ m. let c = (h.seated s x).1 m in ground arith)
]

removed_seat :
    (old session s x : ℕ) (st : Seats)
    → IsSeated st
    → st.place session ≡ some old
    → ((not ((old == x) && (session == s)) && contains s (members x st.channels)) ≡ true)
      ↔ (set_place session none st.place s ≡ some x)
removed_seat old session s x st h held = elim (Bool-cases (session == s)) [
  | inl e ↦
      let held_s = subst (λ z. st.place z ≡ some old) ((==_iff session s).0 e) held in
      rw e (
        λ m.
            let at_x = (h.seated s x).0 (ground arith) in
            let same : old ≡ x = cc (held_s, at_x) in
            let t = (==_iff old x).1 same in absurd (ground arith),
        λ m. absurd (cc m),
      )
  | inr e ↦
      rw e (λ m. (h.seated s x).0 (ground arith), λ m. let c = (h.seated s x).1 m in ground arith)
]

add_client-IsSeated :
    (id session : ℕ) (st : Seats)
    → is_channel id st.channels ≡ true
    → IsSeated st
    → st.place session ≡ none
    → IsSeated (add_client id session st)
unfolding add_client
add_client-IsSeated id session st c h free = record {
  seated = λ s x.
      let eq = contains-add_client id session s x st.channels c in
      let seat = added_seat id session s x st h free in
      (λ m. seat.0 (sym eq ∙ m), λ m. eq ∙ seat.1 m);
}

remove_client-IsSeated :
    (old session : ℕ) (st : Seats)
    → IsSeated st
    → st.place session ≡ some old
    → IsSeated (remove_client old session st)
unfolding remove_client
remove_client-IsSeated old session st h held =
    let c = members-is_channel session old st.channels ((h.seated session old).1 held) in
    record {
      seated = λ s x.
          let eq = contains-remove_client old session s x st.channels c in
          let seat = removed_seat old session s x st h held in
          (λ m. seat.0 (sym eq ∙ m), λ m. eq ∙ seat.1 m);
    }

freed : (old session : ℕ) (st : Seats) → (remove_client old session st).place session ≡ none
unfolding remove_client
freed old session st = rw (==_refl session) refl

still_channel :
    (old session id : ℕ) (st : Seats)
    → is_channel id st.channels ≡ true
    → is_channel id (remove_client old session st).channels ≡ true
unfolding remove_client
still_channel old session id st h = is_channel-change old id (remove session) st.channels ∙ h

-- A client that enters a channel of the server names it then; and when every client was in exactly
-- the channel that it names, that stays so.
pub enter_channel-IsSeated :
    (session id : ℕ) (st : Seats)
    → is_channel id st.channels ≡ true
    → IsSeated st
    → IsSeated (enter_channel session id st)
      × ((enter_channel session id st).place session ≡ some id)
unfolding enter_channel add_client
enter_channel-IsSeated session id st c h = elim (Option-cases (st.place session)) [
  | inl free ↦
      rw (enter_channel, free) (add_client-IsSeated id session st c h free, placed id session st)
  | inr (old, held) ↦ elim (Bool-cases (old == id)) [
    | inl same ↦ rw (enter_channel, held, same) (h, held ∙ ap some ((==_iff old id).0 same))
    | inr other ↦
        let st' = remove_client old session st in
        rw (enter_channel, held, other)
          (
            add_client-IsSeated id session st' (still_channel old session id st c)
                (remove_client-IsSeated old session st h held) (freed old session st),
            placed id session st',
          )
  ]
]
  where
    placed : (id session : ℕ) (st : Seats) → (add_client id session st).place session ≡ some id
    placed id session st = rw (==_refl session) refl
