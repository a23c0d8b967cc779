-- ===== src/Targets/Tests.antt =====
-- Voice targets on a server with four channels.
use grumble.Common.{
  ◌⊎◌, ℕ, ◌≡◌, refl, true, false, not, List, [], ◌∷◌, none, some, ◌==◌, if◌then◌else◌,
}
use grumble.Common.Sets.{insert}
use grumble.Common.Names.{lookup}
use grumble.Channels.{
  Channel, find_channel, children_of, push, visit, search, all_children_of, all_sub_channels,
}
use grumble.Voice.{
  Client, Server, UserIdentity, VoiceRoom, VoiceRoomManager, Trim, isolation_applies,
  can_receive_from_client, can_receive_voice, can_receive_audio, find_room_by_channel,
  find_by_channel_id, same_board,
}
use grumble.Voice.Rooms.{IsSound}
use grumble.Acl.{
  Chain, User, has_permission, walk, build_chain, apply_acls, allows, group_member_check,
  parse_name, member_of,
}
use grumble.Common.Int.{pos}
use grumble.Targets.{
  returned, panicked, rights_of, add_members, Rights, VoiceTarget, new_voice_target, add_session,
  add_channel, clients_of, add_allowed, group_allows, add_channels, new_channels, add_target,
  from_channels, direct_sessions, collect, recipients,
}
use grumble.Targets.Recipients.{MeetsPanic, IsCollected, collect-IsCollected}
use grumble.Targets.Broadcast.{
  VoiceBroadcast, sent, broadcast, receives, filter, find_target, set_target,
}
use grumble.Targets.Isolation.{broadcast_isolated}

abbrev tree : List Channel
tree =
    record { id = 0; temporary = false; clients = []; parent = none; children = 1 ∷ []; links = [] }
    ∷ record {
      id = 1;
      temporary = false;
      clients = 8 ∷ 7 ∷ [];
      parent = some 0;
      children = 3 ∷ 2 ∷ [];
      links = 3 ∷ [];
    }
    ∷ record {
      id = 2;
      temporary = false;
      clients = 6 ∷ [];
      parent = some 1;
      children = [];
      links = [];
    }
    ∷ record {
      id = 3;
      temporary = true;
      clients = 9 ∷ [];
      parent = some 1;
      children = [];
      links = 1 ∷ [];
    }
    ∷ []

-- The sender may whisper in all channels but 2; every group has session 9.
abbrev rights : Rights
rights = record { may_whisper = λ id. some (not (id == 2)); in_group = λ id group s. some (s == 9) }

abbrev below_0 : VoiceTarget
below_0 = add_session 6 (add_session 7 (add_channel 0 true false [] new_voice_target))

below_0_collected :
    collect rights tree (6 ∷ 7 ∷ 8 ∷ 9 ∷ []) 8 below_0 ≡ returned (6 ∷ [], 9 ∷ 7 ∷ [])
unfolding collect from_channels add_target new_channels all_sub_channels search visit push
    children_of find_channel all_children_of add_allowed add_channels add_members clients_of
    group_allows direct_sessions add_session add_channel insert
below_0_collected = refl

-- Each channel has a context of its own, in which clients who are registered may whisper.
abbrev context_of : ℕ → Chain
context_of id = record { address = id; acls = []; groups = []; inherit_acl = true } ∷ []

abbrev user_of : ℕ → User
user_of s = record {
  session = s;
  user_id = pos s;
  cert_hash = [];
  tokens = [];
  acl_context = some 1;
}

abbrev checks : Rights
checks = rights_of (record { to_lower = λ name. name }) context_of user_of 8

-- The group that the sender's client names is checked for the clients of the channel.
abbrev to_sub : VoiceTarget
to_sub = add_channel 1 false false (b's' ∷ b'u' ∷ b'b' ∷ []) new_voice_target

sub_panics : collect checks tree (6 ∷ 7 ∷ 8 ∷ 9 ∷ []) 8 to_sub ≡ panicked
unfolding collect from_channels add_target new_channels find_channel add_members add_channels
    clients_of group_allows add_channel has_permission walk build_chain apply_acls allows
    group_member_check parse_name member_of
sub_panics = refl

abbrev online : List ℕ
online = 6 ∷ 7 ∷ 8 ∷ 9 ∷ []

collect-IsCollected_example :
    ((collect rights tree online 8 below_0 ≡ panicked) × MeetsPanic rights tree below_0.channels)
    ⊎ ((direct found : List ℕ) × ((collect rights tree online 8 below_0 ≡ returned (direct, found))
          × ((MeetsPanic rights tree below_0.channels → ⊥)
              × IsCollected rights tree online 8 below_0 direct found)))
collect-IsCollected_example = collect-IsCollected rights tree online 8 below_0

abbrev whole : Trim
whole = record { trim_space = λ name. name }

abbrev alice : UserIdentity
alice = record {
  user_id = b'a' ∷ [];
  display_name = [];
  team_id = b't' ∷ [];
  board_id = b'1' ∷ [];
  permissions = record {
    join_voice = true;
    publish_audio = true;
    receive_audio = true;
    moderate_voice = false;
    presented = [];
  };
}

abbrev rooms : VoiceRoomManager
rooms =
    (
      b'1' ∷ [],
      record {
        room_id = b't' ∷ b':' ∷ b'1' ∷ [];
        team_id = b't' ∷ [];
        board_id = b'1' ∷ [];
        channel_id = 1;
        created_at = 100;
        participants = (b'a' ∷ []) ∷ [];
      },
    )
    ∷ []

rooms-IsSound : IsSound whole rooms
rooms-IsSound = ((refl, (refl, (refl, refl))), (refl, tt))

abbrev server : Server
server = record { enforcement_enabled = true; voice_rooms = some rooms }

abbrev client_of : ℕ → Client
client_of s =
    if s == 9
    then record { identity = none; channel = some 3 }
    else record { identity = some alice; channel = some 1 }

abbrev packet : VoiceBroadcast
packet = record { sender = 8; target = 5 }

abbrev warm : VoiceTarget
warm = record below_0 { direct_cache = some (6 ∷ []); from_channels_cache = some (9 ∷ 7 ∷ []) }

-- The client of session 9 has no board and is left out.
packet_sent :
    broadcast whole server client_of rights tree (6 ∷ 7 ∷ 8 ∷ 9 ∷ []) ((5, below_0) ∷ []) packet
    ≡ sent (7 ∷ 6 ∷ []) ((5, warm) ∷ [])
unfolding broadcast recipients collect from_channels add_target new_channels all_sub_channels search
    visit push children_of find_channel all_children_of add_allowed add_channels add_members
    clients_of group_allows direct_sessions add_session add_channel insert filter find_target
    set_target receives can_receive_from_client can_receive_voice can_receive_audio
    isolation_applies find_room_by_channel find_by_channel_id same_board
packet_sent = refl

broadcast_isolated_example :
    ((room : VoiceRoom) × ((lookup (b'1' ∷ []) rooms ≡ some room)
        × ((client_of 8).channel ≡ some room.channel_id)))
    × (alice.permissions.receive_audio ≡ true)
unfolding isolation_applies
broadcast_isolated_example =
    broadcast_isolated whole server client_of rights tree (6 ∷ 7 ∷ 8 ∷ 9 ∷ []) ((5, below_0) ∷ [])
      ((5, warm) ∷ []) packet (7 ∷ 6 ∷ []) 7 rooms alice packet_sent refl refl rooms-IsSound refl
      refl
