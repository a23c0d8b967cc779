-- ===== src/Voice/Rooms.antt =====
-- Joining and leaving (manager.go): the rooms that a board has, and who is in them.
use grumble.Common.{
  ℕ, false, ◌||◌, List, [], ◌∷◌, Option, none, some, ◌≡◌, refl, ap, ◌∙◌, Bool-cases, Option-cases,
  inl, inr,
}
use grumble.Common.Names.{
  Name, same_name, same_name→eq, is_empty, mem_name, insert_name, remove_name, lookup, delete, put,
  lookup-delete_self, lookup-delete_ne,
}
use grumble.Voice.{
  UserIdentity, VoiceRoom, VoiceRoomManager, Trim, can_join_voice, new_room, with_participant,
  enter_room, join, leave_room, leave,
}

-- What the code relies on: trimming a second time changes nothing.
pub record IsTrim (trim : Trim) : Type 0 where
  pub trim_twice : (s : Name) → trim.trim_space (trim.trim_space s) ≡ trim.trim_space s

-- A room as it is stored: under its own board, trimmed and not empty, with someone in it.
abbrev pub IsKept : Trim → Name → VoiceRoom → Type 0
IsKept trim board_id room =
    (room.board_id ≡ board_id)
    × ((trim.trim_space board_id ≡ board_id)
        × ((is_empty board_id ≡ false) × (is_empty room.participants ≡ false)))

-- One room for each board.
abbrev pub IsSound : Trim → VoiceRoomManager → Type 0
IsSound trim [] = Unit {0}
IsSound trim ((board_id, room) ∷ rooms) =
    IsKept trim board_id room × ((lookup board_id rooms ≡ none) × IsSound trim rooms)

insert_name-is_empty : (u : Name) (xs : List Name) → is_empty (insert_name u xs) ≡ false
insert_name-is_empty u [] = refl
insert_name-is_empty u (x ∷ xs) = elim (Bool-cases (mem_name u (x ∷ xs))) [
  | inl e ↦ rw e refl
  | inr e ↦ rw e refl
]

from_some : {A : Type 0} → A → Option A → A
from_some x none = x
from_some x (some z) = z

pub some_inj : {A : Type 0} (x y : A) → some x ≡ some y → x ≡ y
unfolding from_some
some_inj x y h = ap (from_some x) h

pub lookup-IsKept :
    (trim : Trim) (board_id : Name) (rooms : VoiceRoomManager) (room : VoiceRoom)
    → IsSound trim rooms
    → lookup board_id rooms ≡ some room
    → IsKept trim board_id room
lookup-IsKept trim board_id [] room s h = absurd (cc h)
lookup-IsKept trim board_id ((b, r) ∷ rooms) room s h = elim (Bool-cases (same_name b board_id)) [
  | inl e ↦ rw (← same_name→eq b board_id e, ← some_inj r room (rw e at h)) s.0
  | inr e ↦ lookup-IsKept trim board_id rooms room s.1.1 (rw e at h)
]

delete-absent :
    (name board_id : Name) (rooms : VoiceRoomManager)
    → lookup board_id rooms ≡ none
    → lookup board_id (delete name rooms) ≡ none
delete-absent name board_id rooms h = elim (Bool-cases (same_name name board_id)) [
  | inl e ↦ rw (← same_name→eq name board_id e) (lookup-delete_self name rooms)
  | inr e ↦ lookup-delete_ne name board_id rooms e ∙ h
]

delete-IsSound :
    (trim : Trim) (board_id : Name) (rooms : VoiceRoomManager)
    → IsSound trim rooms
    → IsSound trim (delete board_id rooms)
delete-IsSound trim board_id [] s = tt
delete-IsSound trim board_id ((b, r) ∷ rooms) s =
    let ih = delete-IsSound trim board_id rooms s.1.1 in
    elim (Bool-cases (same_name b board_id)) [
      | inl e ↦ rw e ih
      | inr e ↦ rw e (s.0, (delete-absent board_id b rooms s.1.0, ih))
    ]

put-IsSound :
    (trim : Trim) (board_id : Name) (room : VoiceRoom) (rooms : VoiceRoomManager)
    → IsKept trim board_id room
    → IsSound trim rooms
    → IsSound trim (put board_id room rooms)
put-IsSound trim board_id room rooms k s =
    (k, (lookup-delete_self board_id rooms, delete-IsSound trim board_id rooms s))

enter_room-IsSound :
    (trim : Trim) (now : ℕ) (identity : UserIdentity) (channel_id : ℕ) (rooms : VoiceRoomManager)
    → IsTrim trim
    → is_empty (trim.trim_space identity.board_id) ≡ false
    → IsSound trim rooms
    → IsSound trim (enter_room trim now identity channel_id rooms).1
unfolding enter_room
enter_room-IsSound trim now identity channel_id rooms law full s =
    let board = trim.trim_space identity.board_id in
    let user = trim.trim_space identity.user_id in
    elim (Option-cases (lookup board rooms)) [
      | inl e ↦
          rw (e, enter_room)
            (put-IsSound trim board (with_participant user (new_room trim now identity channel_id))
              rooms (refl, (law.trim_twice identity.board_id, (full, insert_name-is_empty user [])))
              s)
      | inr (old, e) ↦
          let k = lookup-IsKept trim board rooms old s e in
          rw (e, enter_room)
            (put-IsSound trim board (with_participant user old) rooms
              (k.0, (k.1.0, (full, insert_name-is_empty user old.participants))) s)
    ]

join-IsSound :
    (trim : Trim) (now : ℕ) (identity : Option UserIdentity) (channel_id : ℕ)
    (rooms : VoiceRoomManager)
    → IsTrim trim
    → IsSound trim rooms
    → IsSound trim (join trim now identity channel_id rooms).1
unfolding join
join-IsSound trim now none channel_id rooms law s = s
join-IsSound trim now (some identity) channel_id rooms law s =
    elim (Bool-cases (can_join_voice (some identity))) [
      | inr c ↦ rw (c, join) s
      | inl c ↦ elim (Bool-cases (is_empty (trim.trim_space identity.board_id))) [
        | inl b ↦ rw (c, b, join) s
        | inr b ↦ elim (Bool-cases (is_empty (trim.trim_space identity.user_id))) [
          | inl u ↦ rw (c, b, u, join) s
          | inr u ↦
              rw (c, b, u, join) (enter_room-IsSound trim now identity channel_id rooms law b s)
        ]
      ]
    ]

leave_room-IsSound :
    (trim : Trim) (board_id user_id : Name) (rooms : VoiceRoomManager)
    → IsSound trim rooms
    → IsSound trim (leave_room trim board_id user_id rooms).1
unfolding leave_room
leave_room-IsSound trim board_id user_id rooms s = elim (Option-cases (lookup board_id rooms)) [
  | inl e ↦ rw (e, leave_room) s
  | inr (room, e) ↦
      let k = lookup-IsKept trim board_id rooms room s e in
      elim (Bool-cases (is_empty (remove_name user_id room.participants))) [
        | inl d ↦ rw (e, d, leave_room) (delete-IsSound trim board_id rooms s)
        | inr d ↦
            rw (e, d, leave_room)
              (put-IsSound trim board_id
                (record room { participants = remove_name user_id room.participants }) rooms
                (k.0, (k.1.0, (k.1.1.0, d))) s)
      ]
]

leave-IsSound :
    (trim : Trim) (board_id user_id : Name) (rooms : VoiceRoomManager)
    → IsSound trim rooms
    → IsSound trim (leave trim board_id user_id rooms).1
unfolding leave
leave-IsSound trim board_id user_id rooms s =
    elim (Bool-cases (is_empty (trim.trim_space board_id) || is_empty (trim.trim_space user_id))) [
      | inl e ↦ rw (e, leave) s
      | inr e ↦
          rw (e, leave)
            (leave_room-IsSound trim (trim.trim_space board_id) (trim.trim_space user_id) rooms s)
    ]

-- A manager in use: any calls of `Join` and `Leave`, denied ones too.
pub data Reach (trim : Trim) : VoiceRoomManager → Type 0 where
  start : Reach trim []
  joining :
      (now : ℕ) (identity : Option UserIdentity) (channel_id : ℕ) (rooms : VoiceRoomManager)
      → Reach trim rooms
      → Reach trim (join trim now identity channel_id rooms).1
  leaving :
      (board_id user_id : Name) (rooms : VoiceRoomManager)
      → Reach trim rooms
      → Reach trim (leave trim board_id user_id rooms).1

-- After any calls of `Join` and `Leave` on a new manager, each board has one room at most, which
-- is stored under the board's trimmed name and not an empty one, and has someone in it. The
-- trimming changes nothing the second time.
pub Reach-IsSound :
    (trim : Trim) (rooms : VoiceRoomManager) → IsTrim trim → Reach trim rooms → IsSound trim rooms
Reach-IsSound trim _ law start = tt
Reach-IsSound trim _ law (joining now identity channel_id rooms h) =
    join-IsSound trim now identity channel_id rooms law (Reach-IsSound trim rooms law h)
Reach-IsSound trim _ law (leaving board_id user_id rooms h) =
    leave-IsSound trim board_id user_id rooms (Reach-IsSound trim rooms law h)
