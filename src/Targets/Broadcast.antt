-- ===== src/Targets/Broadcast.antt =====
-- The case of a voice packet in handlerLoop (cmd/grumble/server.go) and the two loops at the end of
-- SendVoiceBroadcast (cmd/grumble/voicetarget.go): the sessions that a packet is sent to.
use grumble.Common.{
  ℕ, Bool, not, ◌&&◌, List, [], ◌∷◌, ◌++◌, Option, none, some, ◌==◌, if◌then◌else◌,
}
use grumble.Channels.{Channel}
use grumble.Voice.{Trim, Client, Server, can_receive_from_client, can_receive_voice}
use grumble.Targets.{returned, panicked, cut_off, Rights, VoiceTarget, clients_of, recipients}

unfoldable pub filter : (ℕ → Bool) → List ℕ → List ℕ
filter p [] = []
filter p (x ∷ xs) = let rest = filter p xs in if p x then x ∷ rest else rest

-- `client.voiceTargets`, by the number of the target.
unfoldable pub find_target : ℕ → List (ℕ × VoiceTarget) → Option VoiceTarget
find_target id [] = none
find_target id ((k, vt) ∷ vts) = if k == id then some vt else find_target id vts

unfoldable pub set_target : ℕ → VoiceTarget → List (ℕ × VoiceTarget) → List (ℕ × VoiceTarget)
set_target id vt [] = (id, vt) ∷ []
set_target id vt ((k, old) ∷ vts) =
    let rest = set_target id vt vts in if k == id then (k, vt) ∷ vts else (k, old) ∷ rest

-- A packet: the sender's session and the number of the target.
pub record VoiceBroadcast : Type 0 where
  pub sender : ℕ
  pub target : ℕ

-- What a broadcast does; `unfinished` is a search that does not end, `stopped` a panic of a check,
-- and `no_channel` the use of a nil channel.
pub data Broadcast : Type 0 where
  sent : List ℕ → List (ℕ × VoiceTarget) → Broadcast
  no_channel : Broadcast
  stopped : Broadcast
  unfinished : Broadcast

module _ (trim : Trim) (server : Server) (client_of : ℕ → Client) where
  -- Both tests in front of SendUDP.
  unfoldable pub receives : ℕ → ℕ → Bool
  receives sender session =
      can_receive_from_client trim server (some (client_of session)) (some (client_of sender))
      && can_receive_voice server (client_of session)

  -- The current channel.
  unfoldable pub broadcast_here : List Channel → ℕ → Option (List ℕ)
  broadcast_here cs sender = elim (client_of sender).channel [
    | none ↦ none
    | some id ↦ some (filter (λ s. not (s == sender) && receives sender s) (clients_of cs id))
  ]

  unfoldable pub broadcast :
      Rights → List Channel → List ℕ → List (ℕ × VoiceTarget) → VoiceBroadcast → Broadcast
  broadcast rights cs online vts vb =
      if vb.target == 0
      then elim (broadcast_here cs vb.sender) [ none ↦ no_channel | some to ↦ sent to vts ]
      else elim (find_target vb.target vts) [
        | none ↦ sent [] vts
        | some vt ↦ elim (recipients rights cs online vb.sender vt) [
          | cut_off ↦ unfinished
          | panicked ↦ stopped
          | returned ((direct, found), vt') ↦
              sent (filter (receives vb.sender) found ++ filter (receives vb.sender) direct)
                (set_target vb.target vt' vts)
        ]
      ]
