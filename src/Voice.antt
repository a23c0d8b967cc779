-- ===== src/Voice.antt =====
-- The voice rooms of boards: pkg/teamlancer/voice (manager.go, policy.go, room.go), the guard in
-- pkg/teamlancer/auth/guard and their use in cmd/grumble/teamlancer_voice.go.
pub mod Rooms
pub mod Outcome
pub mod Isolation
pub mod Tests
use grumble.Common.{
  ℕ, Bool, true, false, not, ◌&&◌, ◌||◌, List, [], ◌∷◌, ◌++◌, Option, none, some, ◌==◌,
  if◌then◌else◌,
}
use grumble.Common.Names.{Name, same_name, is_empty, insert_name, remove_name, lookup, delete, put}

-- auth.Permissions and auth.UserIdentity.
pub record Permissions : Type 0 where
  pub join_voice : Bool
  pub publish_audio : Bool
  pub receive_audio : Bool
  pub moderate_voice : Bool
  pub presented : List Name

pub record UserIdentity : Type 0 where
  pub user_id : Name
  pub display_name : Name
  pub team_id : Name
  pub board_id : Name
  pub permissions : Permissions

pub record VoiceRoom : Type 0 where
  pub room_id : Name
  pub team_id : Name
  pub board_id : Name
  pub channel_id : ℕ
  pub created_at : ℕ
  pub participants : List Name

-- `roomsByBoard`. Go's iteration order is the list's.
abbrev pub VoiceRoomManager : Type 0
VoiceRoomManager = List (Name × VoiceRoom)

pub data JoinError : Type 0 where
  join_denied missing_board missing_user : JoinError

-- The room, and whether it was created.
pub data Joined : Type 0 where
  joined : VoiceRoom → Bool → Joined
  denied : JoinError → Joined

-- A nil pointer is `none`.
unfoldable pub can_join_voice : Option UserIdentity → Bool
can_join_voice none = false
can_join_voice (some identity) = identity.permissions.join_voice

unfoldable pub can_receive_audio : Option UserIdentity → Bool
can_receive_audio none = false
can_receive_audio (some identity) = identity.permissions.receive_audio

-- The first room in the order of iteration.
unfoldable pub find_by_channel_id : ℕ → VoiceRoomManager → Option VoiceRoom
find_by_channel_id channel_id [] = none
find_by_channel_id channel_id ((b, room) ∷ rooms) =
    if room.channel_id == channel_id then some room else find_by_channel_id channel_id rooms

-- `teamlancer-board-`
abbrev channel_name_prefix : Name
channel_name_prefix =
    b't' ∷ b'e' ∷ b'a' ∷ b'm' ∷ b'l' ∷ b'a' ∷ b'n' ∷ b'c' ∷ b'e' ∷ b'r' ∷ b'-' ∷ b'b' ∷ b'o' ∷ b'a'
    ∷ b'r' ∷ b'd' ∷ b'-' ∷ []

abbrev pub with_participant : Name → VoiceRoom → VoiceRoom
with_participant user_id room = record room { participants = insert_name user_id room.participants }

-- `strings.TrimSpace`.
pub record Trim : Type 0 where
  pub trim_space : Name → Name

module _ (trim : Trim) where
  unfoldable pub find : Name → VoiceRoomManager → Option VoiceRoom
  find board_id rooms = lookup (trim.trim_space board_id) rooms

  unfoldable pub same_board : Option UserIdentity → Option VoiceRoom → Bool
  same_board (some identity) (some room) =
      let board_id = trim.trim_space identity.board_id in
      not (is_empty board_id) && same_name board_id (trim.trim_space room.board_id)
  same_board _ _ = false

  unfoldable pub channel_name : Name → Name
  channel_name board_id = channel_name_prefix ++ trim.trim_space board_id

  unfoldable pub new_room_id : Name → Name → Name
  new_room_id team_id board_id =
      let team = trim.trim_space team_id in
      if is_empty team then channel_name board_id else team ++ (b':' ∷ trim.trim_space board_id)

  -- The room that `Join` creates.
  abbrev pub new_room : ℕ → UserIdentity → ℕ → VoiceRoom
  new_room now identity channel_id = record {
    room_id = new_room_id identity.team_id (trim.trim_space identity.board_id);
    team_id = trim.trim_space identity.team_id;
    board_id = trim.trim_space identity.board_id;
    channel_id = channel_id;
    created_at = now;
    participants = [];
  }

  -- `Join` behind its guards, which have trimmed the board and the user.
  unfoldable pub enter_room : ℕ → UserIdentity → ℕ → VoiceRoomManager → Joined × VoiceRoomManager
  enter_room now identity channel_id rooms =
      let board_id = trim.trim_space identity.board_id in
      let user_id = trim.trim_space identity.user_id in
      elim (lookup board_id rooms) [
        | some old ↦ (
          joined (with_participant user_id old) false,
          put board_id (with_participant user_id old) rooms,
        )
        | none ↦ (
          joined (with_participant user_id (new_room now identity channel_id)) true,
          put board_id (with_participant user_id (new_room now identity channel_id)) rooms,
        )
      ]

  -- `Join` at the time `now`.
  unfoldable pub join : ℕ → Option UserIdentity → ℕ → VoiceRoomManager → Joined × VoiceRoomManager
  join now none channel_id rooms = (denied join_denied, rooms)
  join now (some identity) channel_id rooms =
      if not (can_join_voice (some identity))
      then (denied join_denied, rooms)
      else if is_empty (trim.trim_space identity.board_id)
      then (denied missing_board, rooms)
      else if is_empty (trim.trim_space identity.user_id)
      then (denied missing_user, rooms)
      else enter_room now identity channel_id rooms

  -- The room as it is left, and whether it was destroyed: the two Booleans of `Leave` are equal.
  unfoldable pub leave_room :
      Name → Name → VoiceRoomManager → (Option VoiceRoom × Bool) × VoiceRoomManager
  leave_room board_id user_id rooms = elim (lookup board_id rooms) [
    | none ↦ ((none, false), rooms)
    | some room ↦
        let rest = remove_name user_id room.participants in
        let after = record room { participants = rest } in
        if is_empty rest
        then ((some after, true), delete board_id rooms)
        else ((some after, false), put board_id after rooms)
  ]

  unfoldable pub leave :
      Name → Name → VoiceRoomManager → (Option VoiceRoom × Bool) × VoiceRoomManager
  leave board_id user_id rooms =
      if is_empty (trim.trim_space board_id) || is_empty (trim.trim_space user_id)
      then ((none, false), rooms)
      else leave_room (trim.trim_space board_id) (trim.trim_space user_id) rooms

-- cmd/grumble/teamlancer_voice.go

-- What its tests read of the server: whether permissions are enforced, and the rooms, which may be
-- nil.
pub record Server : Type 0 where
  pub enforcement_enabled : Bool
  pub voice_rooms : Option VoiceRoomManager

pub record Client : Type 0 where
  pub identity : Option UserIdentity
  pub channel : Option ℕ

module _ (trim : Trim) (server : Server) where
  unfoldable pub isolation_applies : Option UserIdentity → Bool
  isolation_applies none = false
  isolation_applies (some identity) =
      server.enforcement_enabled && not (is_empty (trim.trim_space identity.board_id))

  unfoldable pub find_room_by_channel : Option ℕ → Option VoiceRoom
  find_room_by_channel none = none
  find_room_by_channel (some channel) = elim server.voice_rooms [
    | none ↦ none
    | some rooms ↦ find_by_channel_id channel rooms
  ]

  -- `canMoveBoardScopedClient` and `canAccessVoiceTargetChannel`, which are the same code.
  unfoldable pub can_move_client : Option Client → Option ℕ → Bool
  can_move_client none channel = true
  can_move_client (some client) none = true
  can_move_client (some client) (some channel) =
      if not (isolation_applies client.identity)
      then true
      else same_board trim client.identity (find_room_by_channel (some channel))

  unfoldable pub can_receive_from_client : Option Client → Option Client → Bool
  can_receive_from_client (some target) (some sender) =
      if not (isolation_applies target.identity) && not (isolation_applies sender.identity)
      then true
      else same_board trim target.identity (find_room_by_channel sender.channel)
  can_receive_from_client _ _ = false

-- `canReceiveVoice`
unfoldable pub can_receive_voice : Server → Client → Bool
can_receive_voice server client =
    if not server.enforcement_enabled then true else can_receive_audio client.identity
