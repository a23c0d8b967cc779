-- ===== src/Targets/Isolation.antt =====
-- Voice packets do not leave the room of a board, whatever the voice target and its caches.
use grumble.Common.{
  ℕ, ◌≡◌, refl, sym, subst, ◌∙◌, Bool, true, false, not, ◌&&◌, List, [], ◌∷◌, ◌++◌, some, ◌==◌,
  arith, Bool-cases, Option-cases, inl, inr, ==_iff, ==_refl,
}
use grumble.Common.Names.{lookup}
use grumble.Common.Sets.{contains}
use grumble.Channels.{Channel}
use grumble.Channels.Reach.{contains-append}
use grumble.Voice.{
  Trim, Client, Server, UserIdentity, VoiceRoom, VoiceRoomManager, isolation_applies,
  can_receive_from_client, can_receive_voice, can_receive_audio,
}
use grumble.Voice.Rooms.{IsSound}
use grumble.Voice.Isolation.{can_receive_isolated}
use grumble.Targets.{
  Outcome, returned, panicked, cut_off, Rights, VoiceTarget, recipients, clients_of,
}
use grumble.Targets.Broadcast.{
  filter, find_target, set_target, VoiceBroadcast, Broadcast, sent, stopped, unfinished, receives,
  broadcast_here, broadcast,
}

pub contains-filter :
    (p : ℕ → Bool) (x : ℕ) (xs : List ℕ) → contains x (filter p xs) ≡ (contains x xs && p x)
unfolding filter
contains-filter p x [] = refl
contains-filter p x (y ∷ xs) = elim (Bool-cases (y == x)) [
  | inl e ↦
      let same = (==_iff y x).0 e in rw same (ground (arith, contains-filter p x xs, ==_refl x))
  | inr e ↦ ground (arith, contains-filter p x xs)
]

module _ (trim : Trim) (server : Server) (client_of : ℕ → Client) where
  here_receives :
      (sender s : ℕ) (clients to : List ℕ)
      → filter (λ x. not (x == sender) && receives trim server client_of sender x) clients ≡ to
      → contains s to ≡ true
      → receives trim server client_of sender s ≡ true
  here_receives sender s clients to e m =
      let p = λ (x : ℕ). not (x == sender) && receives trim server client_of sender x in
      let c = contains-filter p s clients in
      let m' : contains s (filter p clients) ≡ true = rw e m in ground arith

  target_receives :
      (sender s : ℕ) (found direct to : List ℕ)
      → filter (receives trim server client_of sender) found
          ++ filter (receives trim server client_of sender) direct
        ≡ to
      → contains s to ≡ true
      → receives trim server client_of sender s ≡ true
  target_receives sender s found direct to e m =
      let p = receives trim server client_of sender in
      let c = contains-append s (filter p found) (filter p direct) in
      let cf = contains-filter p s found in
      let cd = contains-filter p s direct in
      let m' : contains s (filter p found ++ filter p direct) ≡ true = rw e m in ground arith

  sent_receives :
      (rights : Rights) (cs : List Channel) (online : List ℕ) (vts vts' : List (ℕ × VoiceTarget))
      (vb : VoiceBroadcast) (to : List ℕ) (s : ℕ)
      → broadcast trim server client_of rights cs online vts vb ≡ sent to vts'
      → contains s to ≡ true
      → receives trim server client_of vb.sender s ≡ true
  unfolding broadcast broadcast_here
  sent_receives rights cs online vts vts' vb to s h m = elim (Bool-cases (vb.target == 0)) [
    | inl z ↦ elim (Option-cases (client_of vb.sender).channel) [
      | inl n ↦ absurd (cc (rw (broadcast, z, broadcast_here, n) at h))
      | inr (id, e) ↦
          here_receives vb.sender s (clients_of cs id) to
            (cc (rw (broadcast, z, broadcast_here, e) at h)) m
    ]
    | inr z ↦ elim (Option-cases (find_target vb.target vts)) [
      | inl n ↦
          let none_sent : [] ≡ to = cc (rw (broadcast, z, n) at h) in
          let absent : false ≡ true = subst (λ l. contains s l ≡ true) (sym none_sent) m in
          absurd (cc absent)
      | inr (vt, e) ↦
          let h' = rw (broadcast, z, e) at h in
          sent_to vt (recipients rights cs online vb.sender vt) h'
    ]
  ]
    where
      sent_to :
          (vt : VoiceTarget) (r : Outcome ((List ℕ × List ℕ) × VoiceTarget))
          → (elim r as (λ _. Broadcast) [
            | cut_off ↦ unfinished
            | panicked ↦ stopped
            | returned ((direct, found), vt') ↦
                sent
                  (filter (receives trim server client_of vb.sender) found
                    ++ filter (receives trim server client_of vb.sender) direct)
                  (set_target vb.target vt' vts)
          ])
            ≡ sent to vts'
          → receives trim server client_of vb.sender s ≡ true
      sent_to vt cut_off h = absurd (cc h)
      sent_to vt panicked h = absurd (cc h)
      sent_to vt (returned ((direct, found), vt')) h =
          target_receives vb.sender s found direct to (cc h) m

  gets_audio :
      (c : Client) (identity : UserIdentity)
      → can_receive_voice server c ≡ true
      → c.identity ≡ some identity
      → isolation_applies trim server (some identity) ≡ true
      → identity.permissions.receive_audio ≡ true
  unfolding can_receive_voice can_receive_audio isolation_applies
  gets_audio c identity h i applies =
      let on : server.enforcement_enabled ≡ true = ground arith in
      sym (rw (can_receive_voice, on, i, can_receive_audio) refl) ∙ h

  in_room :
      (rooms : VoiceRoomManager) (c sender : Client) (identity : UserIdentity)
      → server.voice_rooms ≡ some rooms
      → IsSound trim rooms
      → c.identity ≡ some identity
      → isolation_applies trim server (some identity) ≡ true
      → can_receive_from_client trim server (some c) (some sender) ≡ true
      → (room : VoiceRoom) × ((lookup (trim.trim_space identity.board_id) rooms ≡ some room)
          × (sender.channel ≡ some room.channel_id))
  in_room rooms c sender identity v sound i applies h =
      can_receive_isolated trim server rooms identity c.channel sender v sound applies (
        subst
          (λ known.
            can_receive_from_client trim server
              (some (record { identity = known; channel = c.channel })) (some sender)
            ≡ true)
          i h)

  -- While the isolation applies to a client, with rooms that are sound, a voice packet is sent to it
  -- only if its board has a room and the sender is in that room's channel, and only if the client
  -- may receive audio. This holds of every voice target, of packets to the current channel, and of
  -- whatever stands in the caches.
  pub broadcast_isolated :
      (rights : Rights) (cs : List Channel) (online : List ℕ) (vts vts' : List (ℕ × VoiceTarget))
      (vb : VoiceBroadcast) (to : List ℕ) (s : ℕ) (rooms : VoiceRoomManager)
      (identity : UserIdentity)
      → broadcast trim server client_of rights cs online vts vb ≡ sent to vts'
      → contains s to ≡ true
      → server.voice_rooms ≡ some rooms
      → IsSound trim rooms
      → (client_of s).identity ≡ some identity
      → isolation_applies trim server (some identity) ≡ true
      → ((room : VoiceRoom) × ((lookup (trim.trim_space identity.board_id) rooms ≡ some room)
            × ((client_of vb.sender).channel ≡ some room.channel_id)))
        × (identity.permissions.receive_audio ≡ true)
  unfolding receives
  broadcast_isolated rights cs online vts vts' vb to s rooms identity h m v sound i applies =
      let r = sent_receives rights cs online vts vts' vb to s h m in
      (
        in_room rooms (client_of s) (client_of vb.sender) identity v sound i applies (ground arith),
        gets_audio (client_of s) identity (ground arith) i applies,
      )
