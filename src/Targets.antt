-- ===== src/Targets.antt =====
-- cmd/grumble/voicetarget.go: to whom a packet for a voice target goes, over the channels, their
-- links and their subchannels.
pub mod Sets
pub mod NewChannels
pub mod Entry
pub mod Recipients
pub mod Broadcast
pub mod Isolation
pub mod Tests
use grumble.Common.{
  ℕ, Bool, true, false, not, ◌&&◌, ◌||◌, List, [], ◌∷◌, ◌++◌, Option, none, some, if◌then◌else◌,
}
use grumble.Common.Names.{Name}
use grumble.Common.Sets.{contains, insert, remove}
use grumble.Channels.{Channel, find_channel, all_links, all_sub_channels}
use grumble.Acl.{Chain, User, Text, has_permission, group_member_check, whisper_permission}

pub record VoiceTargetChannel : Type 0 where
  pub id : ℕ
  pub sub_channels : Bool
  pub links : Bool
  pub only_group : Name

-- The caches are `none` where the source has nil.
pub record VoiceTarget : Type 0 where
  pub sessions : List ℕ
  pub channels : List VoiceTargetChannel
  pub direct_cache : Option (List ℕ)
  pub from_channels_cache : Option (List ℕ)

abbrev pub new_voice_target : VoiceTarget
new_voice_target = record {
  sessions = [];
  channels = [];
  direct_cache = none;
  from_channels_cache = none;
}

-- `AddSession`
unfoldable pub add_session : ℕ → VoiceTarget → VoiceTarget
add_session session vt = record vt { sessions = vt.sessions ++ (session ∷ []) }

-- `AddChannel`
unfoldable pub add_channel : ℕ → Bool → Bool → Name → VoiceTarget → VoiceTarget
add_channel id sub_channels links group vt =
    let vtc : VoiceTargetChannel = record {
      id = id;
      sub_channels = sub_channels;
      links = links;
      only_group = group;
    } in
    record vt { channels = vt.channels ++ (vtc ∷ []) }

abbrev pub is_nil {ℓ} : {A : Type ℓ} → List A → Bool
is_nil [] = true
is_nil (_ ∷ _) = false

-- `IsEmpty`
unfoldable pub is_empty : VoiceTarget → Bool
is_empty vt = is_nil vt.sessions && is_nil vt.channels

-- `ClearCache`
unfoldable pub clear_cache : VoiceTarget → VoiceTarget
clear_cache vt = record vt { direct_cache = none; from_channels_cache = none }

-- The two checks, by channel: HasPermission of the sender with the permission to whisper; and
-- GroupMemberCheck in a channel of a group's name and a session. `none` is a panic of the check.
pub record Rights : Type 0 where
  pub may_whisper : ℕ → Option Bool
  pub in_group : ℕ → Name → ℕ → Option Bool

-- The checks of pkg/acl, with the context of each channel and the user of each session.
abbrev pub rights_of : Text → (ℕ → Chain) → (ℕ → User) → ℕ → Rights
rights_of text context_of user_of sender = record {
  may_whisper = λ id. has_permission text (context_of id) (user_of sender) whisper_permission;
  in_group = λ id group session.
      group_member_check text (context_of id) (context_of id) group (user_of session);
}

-- What a part of SendVoiceBroadcast comes to; `cut_off` is a search that does not end.
pub data Outcome (A : Type 0) : Type 0 where
  returned : A → Outcome A
  panicked : Outcome A
  cut_off : Outcome A

infixl 5 ◌>>=◌
abbrev pub ◌>>=◌ : {A B : Type 0} → Outcome A → (A → Outcome B) → Outcome B
returned a >>= f = f a
panicked >>= f = panicked
cut_off >>= f = cut_off

abbrev pub check : Option Bool → Outcome Bool
check none = panicked
check (some b) = returned b

abbrev pub both : Option (List ℕ) → Option (List ℕ) → Option (List ℕ × List ℕ)
both (some direct) (some found) = some (direct, found)
both _ _ = none

abbrev pub or_else : Option (List ℕ) → List ℕ → List ℕ
or_else none xs = xs
or_else (some cached) xs = cached

-- `ClientsSnapshot`
unfoldable pub clients_of : List Channel → ℕ → List ℕ
clients_of cs id = elim (find_channel id cs) [ none ↦ [] | some c ↦ c.clients ]

-- Entries of a set that are allowed, put into another one.
unfoldable pub add_allowed : (ℕ → Bool) → List ℕ → List ℕ → List ℕ
add_allowed allowed [] into = into
add_allowed allowed (x ∷ xs) into =
    add_allowed allowed xs (if allowed x then insert x into else into)

-- `newchans`
unfoldable pub new_channels : List Channel → VoiceTargetChannel → Option (List ℕ)
new_channels cs vtc = elim (if vtc.links then all_links cs vtc.id else some (vtc.id ∷ [])) [
  | none ↦ none
  | some ids ↦
      if vtc.sub_channels
      then elim (all_sub_channels cs vtc.id) [
        | none ↦ none
        | some below ↦ some (add_allowed (λ id. true) below ids)
      ]
      else some ids
]

-- `for _, session := range vt.sessions`; `online` are the server's clients.
unfoldable pub direct_sessions : List ℕ → List ℕ → List ℕ → List ℕ
direct_sessions online found sessions =
    add_allowed (λ s. contains s online && not (contains s found)) sessions []

module _ (rights : Rights) (cs : List Channel) where
  unfoldable pub group_allows : Name → ℕ → ℕ → Option Bool
  group_allows group id session =
      if is_nil group then some true else rights.in_group id group session

  -- `for _, target := range newchan.ClientsSnapshot()`
  unfoldable pub add_members : Name → ℕ → List ℕ → List ℕ → Outcome (List ℕ)
  add_members group id [] into = returned into
  add_members group id (s ∷ sessions) into = check (group_allows group id s) >>= λ allowed.
      add_members group id sessions (if allowed then insert s into else into)

  -- `for _, newchan := range newchans`
  unfoldable pub add_channels : Name → List ℕ → List ℕ → Outcome (List ℕ)
  add_channels group [] into = returned into
  add_channels group (id ∷ ids) into = check (rights.may_whisper id) >>= λ allowed.
      (if allowed then add_members group id (clients_of cs id) into else returned into)
      >>= add_channels group ids

  -- The body of `for _, vtc := range vt.channels`, behind the lookup of the channel.
  unfoldable pub add_target : VoiceTargetChannel → Channel → List ℕ → Outcome (List ℕ)
  add_target vtc channel into =
      if not vtc.sub_channels && (not vtc.links && is_nil vtc.only_group)
      then (check (rights.may_whisper vtc.id) >>= λ allowed.
          returned (if allowed then add_allowed (λ s. true) channel.clients into else into))
      else elim (new_channels cs vtc) [
        | none ↦ cut_off
        | some ids ↦ add_channels vtc.only_group ids into
      ]

  unfoldable pub from_channels : List VoiceTargetChannel → List ℕ → Outcome (List ℕ)
  from_channels [] into = returned into
  from_channels (vtc ∷ vtcs) into = elim (find_channel vtc.id cs) [
    | none ↦ from_channels vtcs into
    | some channel ↦ add_target vtc channel into >>= from_channels vtcs
  ]

  -- The two sets, the direct one first, when they are not both cached. `online` are the sessions of
  -- the server's clients, and `sender` is the client's own.
  unfoldable pub collect : List ℕ → ℕ → VoiceTarget → Outcome (List ℕ × List ℕ)
  collect online sender vt = from_channels vt.channels [] >>= λ found.
      returned (remove sender (direct_sessions online found vt.sessions), remove sender found)

  -- The two sets that SendVoiceBroadcast sends to, and the target with its caches.
  unfoldable pub recipients : List ℕ → ℕ → VoiceTarget → Outcome ((List ℕ × List ℕ) × VoiceTarget)
  recipients online sender vt = elim (both vt.direct_cache vt.from_channels_cache) [
    | some cached ↦ returned (cached, vt)
    | none ↦ collect online sender vt >>= λ sets. returned (
      sets,
      record vt {
        direct_cache = some (or_else vt.direct_cache sets.0);
        from_channels_cache = some (or_else vt.from_channels_cache sets.1);
      },
    )
  ]
