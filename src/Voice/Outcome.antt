-- ===== src/Voice/Outcome.antt =====
-- Joining and leaving (manager.go): what one call answers and changes.
use grumble.Common.{
  ℕ, Bool, true, false, not, ◌&&◌, ◌||◌, List, [], Option, none, some, ◌≡◌, refl, if◌then◌else◌,
  Bool-cases, Option-cases, inl, inr,
}
use grumble.Common.Names.{
  Name, same_name, is_empty, mem_name, remove_name, lookup, lookup-put_self, lookup-put_ne,
  lookup-delete_self, lookup-delete_ne, mem_name-insert_name, mem_name-remove_name,
}
use grumble.Voice.{
  UserIdentity, VoiceRoom, VoiceRoomManager, joined, Trim, can_join_voice, new_room,
  with_participant, enter_room, join, leave_room, leave,
}

-- The members of a room that may be missing.
abbrev pub participants_of : Option VoiceRoom → List Name
participants_of none = []
participants_of (some room) = room.participants

abbrev pub is_missing : Option VoiceRoom → Bool
is_missing none = true
is_missing (some room) = false

enter_room-outcome :
    (trim : Trim) (now : ℕ) (identity : UserIdentity) (channel_id : ℕ) (rooms : VoiceRoomManager)
    (member other : Name)
    → same_name (trim.trim_space identity.board_id) other ≡ false
    → (let board = trim.trim_space identity.board_id in
        let after = enter_room trim now identity channel_id rooms in
        (room : VoiceRoom) × ((after.0 ≡ joined room (is_missing (lookup board rooms)))
          × ((lookup board after.1 ≡ some room)
              × ((mem_name member room.participants ≡ (
                    same_name (trim.trim_space identity.user_id) member
                    || mem_name member (participants_of (lookup board rooms))))
                  × (lookup other after.1 ≡ lookup other rooms)))))
unfolding enter_room
enter_room-outcome trim now identity channel_id rooms member other o =
    let board = trim.trim_space identity.board_id in
    let user = trim.trim_space identity.user_id in
    elim (Option-cases (lookup board rooms)) [
      | inl e ↦
          let room = with_participant user (new_room trim now identity channel_id) in
          (
            room,
            (
              rw (enter_room, e) refl,
              (
                rw (enter_room, e) (lookup-put_self board room rooms),
                (
                  rw e (mem_name-insert_name user member []),
                  rw (enter_room, e) (lookup-put_ne board other room rooms o),
                ),
              ),
            ),
          )
      | inr (old, e) ↦
          let room = with_participant user old in
          (
            room,
            (
              rw (enter_room, e) refl,
              (
                rw (enter_room, e) (lookup-put_self board room rooms),
                (
                  rw e (mem_name-insert_name user member old.participants),
                  rw (enter_room, e) (lookup-put_ne board other room rooms o),
                ),
              ),
            ),
          )
    ]

-- A user with the permission to join, and with a board and an id that are not blank, joins: the
-- answer is the board's room, which is created where there was none, and is stored for the board;
-- its members are those of before and the user; no other board's room changes.
pub join_outcome :
    (trim : Trim) (now : ℕ) (identity : UserIdentity) (channel_id : ℕ) (rooms : VoiceRoomManager)
    (member other : Name)
    → identity.permissions.join_voice ≡ true
    → is_empty (trim.trim_space identity.board_id) ≡ false
    → is_empty (trim.trim_space identity.user_id) ≡ false
    → same_name (trim.trim_space identity.board_id) other ≡ false
    → (let board = trim.trim_space identity.board_id in
        let after = join trim now (some identity) channel_id rooms in
        (room : VoiceRoom) × ((after.0 ≡ joined room (is_missing (lookup board rooms)))
          × ((lookup board after.1 ≡ some room)
              × ((mem_name member room.participants ≡ (
                    same_name (trim.trim_space identity.user_id) member
                    || mem_name member (participants_of (lookup board rooms))))
                  × (lookup other after.1 ≡ lookup other rooms)))))
unfolding join can_join_voice
join_outcome trim now identity channel_id rooms member other c b u o =
    let e : join trim now (some identity) channel_id rooms
        ≡ enter_room trim now identity channel_id rooms =
      rw (join, can_join_voice, c, b, u) refl in
    rw e (enter_room-outcome trim now identity channel_id rooms member other o)

leave_room-outcome :
    (trim : Trim) (board_id user_id : Name) (rooms : VoiceRoomManager) (room : VoiceRoom)
    (member other : Name)
    → lookup board_id rooms ≡ some room
    → same_name board_id other ≡ false
    → (let after = leave_room trim board_id user_id rooms in
        (left : VoiceRoom) × ((after.0.0 ≡ some left)
          × ((lookup board_id after.1 ≡ (if after.0.1 then none else some left))
              × ((after.0.1 ≡ is_empty left.participants)
                  × ((mem_name member left.participants
                        ≡ (mem_name member room.participants && not (same_name user_id member)))
                      × (lookup other after.1 ≡ lookup other rooms))))))
unfolding leave_room
leave_room-outcome trim board_id user_id rooms room member other e o =
    let left = record room { participants = remove_name user_id room.participants } in
    let m = mem_name-remove_name user_id member room.participants in
    elim (Bool-cases (is_empty left.participants)) [
      | inl d ↦ (
        left,
        (
          rw (leave_room, e, d) refl,
          (
            rw (leave_room, e, d) (lookup-delete_self board_id rooms),
            (
              rw (leave_room, e, d) refl,
              (m, rw (leave_room, e, d) (lookup-delete_ne board_id other rooms o)),
            ),
          ),
        ),
      )
      | inr d ↦ (
        left,
        (
          rw (leave_room, e, d) refl,
          (
            rw (leave_room, e, d) (lookup-put_self board_id left rooms),
            (
              rw (leave_room, e, d) refl,
              (m, rw (leave_room, e, d) (lookup-put_ne board_id other left rooms o)),
            ),
          ),
        ),
      )
    ]

-- Leaving with a board and a user that are not blank, where the board has a room: the answer is the
-- room without the user and with its other members, and whether it is empty now; it is no longer
-- stored where it is empty, and stored for the board otherwise; no other board's room changes.
pub leave_outcome :
    (trim : Trim) (board_id user_id : Name) (rooms : VoiceRoomManager) (room : VoiceRoom)
    (member other : Name)
    → is_empty (trim.trim_space board_id) ≡ false
    → is_empty (trim.trim_space user_id) ≡ false
    → lookup (trim.trim_space board_id) rooms ≡ some room
    → same_name (trim.trim_space board_id) other ≡ false
    → (let after = leave trim board_id user_id rooms in
        (left : VoiceRoom) × ((after.0.0 ≡ some left)
          × ((lookup (trim.trim_space board_id) after.1 ≡ (if after.0.1 then none else some left))
              × ((after.0.1 ≡ is_empty left.participants)
                  × ((mem_name member left.participants ≡ (
                        mem_name member room.participants
                        && not (same_name (trim.trim_space user_id) member)))
                      × (lookup other after.1 ≡ lookup other rooms))))))
unfolding leave
leave_outcome trim board_id user_id rooms room member other b u e o =
    let same : leave trim board_id user_id rooms
        ≡ leave_room trim (trim.trim_space board_id) (trim.trim_space user_id) rooms =
      rw (leave, b, u) refl in
    rw same (
      leave_room-outcome trim (trim.trim_space board_id) (trim.trim_space user_id) rooms room member
        other e o)
