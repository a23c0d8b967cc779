-- ===== src/Voice/Tests.antt =====
-- Concrete boards, users and rooms.
use grumble.Common.{
  true, false, [], ◌∷◌, none, some, ◌≡◌, refl, ◌==◌, if◌then◌else◌, Bool-cases, inl, inr,
}
use grumble.Common.Names.{Name, mem_name, lookup}
use grumble.Voice.{
  Permissions, UserIdentity, VoiceRoom, VoiceRoomManager, Trim, joined, Server, join,
  can_receive_from_client, can_move_client, isolation_applies, can_join_voice, enter_room,
  new_room_id, find_by_channel_id, same_board, find_room_by_channel,
}
use grumble.Voice.Rooms.{IsTrim, IsSound, start, joining, Reach-IsSound}
use grumble.Voice.Outcome.{join_outcome}
use grumble.Voice.Isolation.{can_receive_isolated, can_move_isolated}

-- Blanks in front are cut off; these texts have no others.
abbrev without_blanks : Name → Name
without_blanks [] = []
without_blanks (c ∷ name) = let rest = without_blanks name in if c == b' ' then rest else c ∷ name

abbrev blanks_in_front : Trim
blanks_in_front = record { trim_space = without_blanks }

twice : (s : Name) → without_blanks (without_blanks s) ≡ without_blanks s
twice [] = refl
twice (c ∷ name) = elim (Bool-cases (c == b' ')) [
  | inl e ↦ rw e (twice name)
  | inr e ↦ rw (e, without_blanks, e) refl
]

blanks_in_front-IsTrim : IsTrim blanks_in_front
blanks_in_front-IsTrim = record { trim_twice = twice }

abbrev voice : Permissions
voice = record {
  join_voice = true;
  publish_audio = true;
  receive_audio = true;
  moderate_voice = false;
  presented = [];
}

abbrev alice : UserIdentity
alice = record {
  user_id = b'a' ∷ [];
  display_name = [];
  team_id = b't' ∷ [];
  board_id = b' ' ∷ b'1' ∷ [];
  permissions = voice;
}

abbrev bob : UserIdentity
bob = record alice { user_id = b'b' ∷ [] }

abbrev board : Name
board = b'1' ∷ []

abbrev room : VoiceRoom
room = record {
  room_id = b't' ∷ b':' ∷ b'1' ∷ [];
  team_id = b't' ∷ [];
  board_id = board;
  channel_id = 11;
  created_at = 100;
  participants = (b'a' ∷ []) ∷ [];
}

abbrev rooms : VoiceRoomManager
rooms = (board, room) ∷ []

rooms-IsSound : IsSound blanks_in_front rooms
rooms-IsSound = ((refl, (refl, (refl, refl))), (refl, tt))

abbrev server : Server
server = record { enforcement_enabled = true; voice_rooms = some rooms }

both_join :
    (join blanks_in_front 100 (some bob) 12 (join blanks_in_front 100 (some alice) 11 []).1).0
    ≡ joined (record room { participants = (b'b' ∷ []) ∷ (b'a' ∷ []) ∷ [] }) false
unfolding join can_join_voice enter_room new_room_id
both_join = refl

Reach-IsSound_example : IsSound blanks_in_front (join blanks_in_front 100 (some alice) 11 []).1
Reach-IsSound_example =
    Reach-IsSound blanks_in_front (join blanks_in_front 100 (some alice) 11 []).1
      blanks_in_front-IsTrim (joining 100 (some alice) 11 [] start)

join_outcome_example :
    (after : VoiceRoom) × (((join blanks_in_front 100 (some bob) 12 rooms).0 ≡ joined after false)
      × ((lookup board (join blanks_in_front 100 (some bob) 12 rooms).1 ≡ some after)
          × ((mem_name (b'a' ∷ []) after.participants ≡ true)
              × (lookup (b'2' ∷ []) (join blanks_in_front 100 (some bob) 12 rooms).1 ≡ none))))
join_outcome_example =
    join_outcome blanks_in_front 100 bob 12 rooms (b'a' ∷ []) (b'2' ∷ []) refl refl refl refl

can_receive_isolated_example :
    (r : VoiceRoom) × ((lookup board rooms ≡ some r) × (some 11 ≡ some r.channel_id))
unfolding isolation_applies can_receive_from_client find_by_channel_id same_board
    find_room_by_channel
can_receive_isolated_example =
    can_receive_isolated blanks_in_front server rooms alice none
      (record { identity = some bob; channel = some 11 }) refl rooms-IsSound refl refl

can_move_isolated_example : (r : VoiceRoom) × ((lookup board rooms ≡ some r) × (11 ≡ r.channel_id))
unfolding isolation_applies can_move_client find_by_channel_id same_board find_room_by_channel
can_move_isolated_example =
    can_move_isolated blanks_in_front server rooms alice none 11 refl rooms-IsSound refl refl
