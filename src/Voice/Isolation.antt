-- ===== src/Voice/Isolation.antt =====
-- The isolation of boards (teamlancer_voice.go): who receives from whom, and who may move where.
use grumble.Common.{
  ℕ, true, not, [], ◌∷◌, Option, none, some, ◌≡◌, refl, ap, sym, ◌∙◌, Bool-cases, Option-cases, inl,
  inr, ◌==◌, ==_iff,
}
use grumble.Common.Names.{
  same_name, same_name→eq, same_name_refl, is_empty, lookup, both_on, bool_clash,
}
use grumble.Voice.{
  UserIdentity, VoiceRoom, VoiceRoomManager, Trim, find_by_channel_id, same_board, Server, Client,
  isolation_applies, find_room_by_channel, can_move_client, can_receive_from_client,
}
use grumble.Voice.Rooms.{IsSound, some_inj}

-- A room found by its channel is the one that is stored for its board.
find_by_channel_id-lookup :
    (trim : Trim) (channel : ℕ) (rooms : VoiceRoomManager) (room : VoiceRoom)
    → IsSound trim rooms
    → find_by_channel_id channel rooms ≡ some room
    → (room.channel_id ≡ channel)
      × ((lookup room.board_id rooms ≡ some room) × (trim.trim_space room.board_id ≡ room.board_id))
unfolding find_by_channel_id
find_by_channel_id-lookup trim channel [] room s h = absurd (cc h)
find_by_channel_id-lookup trim channel ((b, r) ∷ rooms) room s h =
    elim (Bool-cases (r.channel_id == channel)) [
      | inl e ↦ rw (← some_inj r room (rw e at h)) (
        (==_iff r.channel_id channel).0 e,
        (rw (lookup, s.0.0, same_name_refl b) refl, rw (s.0.0) s.0.1.0),
      )
      | inr e ↦
          let ih = find_by_channel_id-lookup trim channel rooms room s.1.1 (rw e at h) in
          elim (Bool-cases (same_name b room.board_id)) [
            | inl d ↦
                let n = rw (same_name→eq b room.board_id d) at s.1.0 in absurd (cc (sym n ∙ ih.1.0))
            | inr d ↦ (ih.0, (rw (lookup, d) ih.1.0, ih.1.1))
          ]
    ]

-- What a test of the board against a channel's room says.
same_board-room :
    (trim : Trim) (server : Server) (rooms : VoiceRoomManager) (identity : UserIdentity)
    (channel : Option ℕ)
    → server.voice_rooms ≡ some rooms
    → IsSound trim rooms
    → same_board trim (some identity) (find_room_by_channel trim server channel) ≡ true
    → (room : VoiceRoom) × ((lookup (trim.trim_space identity.board_id) rooms ≡ some room)
        × (channel ≡ some room.channel_id))
unfolding same_board find_room_by_channel
same_board-room trim server rooms identity none v s h = bool_clash h
same_board-room trim server rooms identity (some c) v s h =
    elim (Option-cases (find_by_channel_id c rooms)) [
      | inl e ↦ bool_clash (rw (find_room_by_channel, v, e) at h)
      | inr (room, e) ↦
          let q =
            both_on (not (is_empty (trim.trim_space identity.board_id))) _
              (rw (find_room_by_channel, v, e) at h) in
          let f = find_by_channel_id-lookup trim c rooms room s e in
          let same =
            same_name→eq (trim.trim_space identity.board_id) (trim.trim_space room.board_id) q.1 in
          (room, (rw (same, f.1.1) f.1.0, ap some (sym f.0)))
    ]

-- Isolation of listeners: while it applies to a client, on a manager of sound rooms, he receives
-- only from senders whose channel is that of the room which is stored for his own board.
pub can_receive_isolated :
    (trim : Trim) (server : Server) (rooms : VoiceRoomManager) (identity : UserIdentity)
    (channel : Option ℕ) (sender : Client)
    → server.voice_rooms ≡ some rooms
    → IsSound trim rooms
    → isolation_applies trim server (some identity) ≡ true
    → can_receive_from_client trim server
        (some (record { identity = some identity; channel = channel }))
        (some sender)
      ≡ true
    → (room : VoiceRoom) × ((lookup (trim.trim_space identity.board_id) rooms ≡ some room)
        × (sender.channel ≡ some room.channel_id))
unfolding can_receive_from_client
can_receive_isolated trim server rooms identity channel sender v s i h =
    same_board-room trim server rooms identity sender.channel v s
      (rw (can_receive_from_client, i) at h)

-- Isolation of moves and of voice targets: while it applies to a client, on a manager of sound
-- rooms, the only channel that he may enter or speak to is that of the room stored for his own
-- board.
pub can_move_isolated :
    (trim : Trim) (server : Server) (rooms : VoiceRoomManager) (identity : UserIdentity)
    (from : Option ℕ) (channel : ℕ)
    → server.voice_rooms ≡ some rooms
    → IsSound trim rooms
    → isolation_applies trim server (some identity) ≡ true
    → can_move_client trim server
        (some (record { identity = some identity; channel = from }))
        (some channel)
      ≡ true
    → (room : VoiceRoom) × ((lookup (trim.trim_space identity.board_id) rooms ≡ some room)
        × (channel ≡ room.channel_id))
unfolding can_move_client
can_move_isolated trim server rooms identity from channel v s i h =
    let r =
      same_board-room trim server rooms identity (some channel) v s
        (rw (can_move_client, i) at h) in
    (r.0, (r.1.0, some_inj channel r.0.channel_id r.1.1))
