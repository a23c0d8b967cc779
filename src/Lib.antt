-- ===== src/Lib.antt =====
-- Verification of parts of Grumble, a server for the Mumble voice chat.
--
-- The program. A client gets a session id from a pool and speaks a control protocol over TLS and a
-- voice protocol over encrypted datagrams. Voice packets are sealed by a crypt state over a cipher
-- mode, and are read and written through a packet data buffer with integers of variable length.
-- What a client may do in a channel is decided by the access control lists of the channel and of
-- its ancestors, with groups of users. Users who come with a board meet in the board's voice room,
-- which is kept apart from the rooms of other boards.
--
-- The files, with the code that they model:
--   SessionPool  pkg/sessionpool/sessionpool.go: `new`, `get`, `reclaim`, `enable_use_tracking` are
--                New, Get, Reclaim, EnableUseTracking. The unused stack has its top first. A panic
--                is a value of `Result`. A call under the mutex is one step.
--   PacketData   pkg/packetdata/packetdata.go: `add_varint` and `get_varint` are addVarint and
--                getVarint, `append` and `next` their bytes, `put_bytes` and `copy_bytes` PutBytes and
--                CopyBytes. The numbers are unsigned, with the wrap of 64 bits written out; signed
--                ones and floats are given as their bits.
--   CryptState   pkg/cryptstate/cryptstate.go: `encrypt` and `decrypt` are Encrypt and Decrypt;
--                `in_order`, `out_of_order` and `check_replay` are the branches that choose the
--                nonce, `open_packet` and `accepted` what follows. Nonces are lists of bytes.
--   Ocb2         pkg/cryptstate/ocb2/ocb2.go over a block cipher that is a parameter, and
--                pkg/cryptstate/mode_ocb2.go, which makes a cipher mode of it.
--   Acl          pkg/acl: `has_permission` is HasPermission, `group_member_check` GroupMemberCheck,
--                `members_in_context` MembersInContext. A context is a list of records, itself
--                first and its ancestors behind it; maps are association lists and sets lists.
--   Voice        pkg/teamlancer/voice and cmd/grumble/teamlancer_voice.go: `join` and `leave` are
--                Join and Leave of the manager, `can_move_client` and `can_receive_from_client` the
--                tests that keep boards apart. The manager's map is an association list.
--   Login        cmd/grumble/teamlancer_auth.go: `legacy_authenticate` is handleLegacyAuthenticate and
--                `token_authenticate` handleTeamlancerAuthenticate behind the call of the
--                authenticator, whose answer is an argument.
--   Tokens       pkg/teamlancer/auth/jwt/jwt.go and auth.go: `validate` is Validate, `authenticate`
--                Authenticate, whose answer Login takes. A JSON value is its bytes.
--   Freezer      pkg/freezer and the loop over a log in cmd/grumble/freeze.go: `put_value` and `commit`
--                are Put and Commit of a transaction, `next_group` is Next of the walker, `read_log`
--                the loop. A log file is its list of bytes.
--   Channels     cmd/grumble/channel.go, with LinkChannels and UnlinkChannels of cmd/grumble/server.go:
--                `all_links` and `all_sub_channels` are AllLinks and AllSubChannels,
--                `enter_channel` the move in userEnterChannel. A server's
--                channels are a list of records that name each other by id; a field that the source
--                sets on a shared channel is changed in the list.
--   Targets      cmd/grumble/voicetarget.go: `recipients` are the two sets of SendVoiceBroadcast, with
--                its caches, and `broadcast` is the case of a voice packet in handlerLoop.
--   Bans         pkg/ban/ban.go, and RemoveExpiredBans, IsConnectionBanned and IsCertHashBanned of
--                cmd/grumble/server.go, at a time that is an argument.
--   Connections  reserveConnection and releaseReservedConnection of cmd/grumble/server.go. The map
--                by hosts is an association list.
--   Common       what these share: tests, lists, sets, integers, and the bits of native numbers.
--
-- Outside the repository, and so parameters: the block cipher (AES), of which the proofs use that
-- it inverts itself on blocks of 16 bytes; the comparison of tags, of which they use that it holds
-- of equal lists; the clock; strings.ToLower, of which they use nothing; strings.TrimSpace, of which
-- they use that a second time changes nothing. In Login the answer of the Authenticator interface
-- and the two checks of configured passwords are arguments too, of which nothing is used. In
-- Freezer the package proto and the checksum are parameters, of which the proofs use that what is
-- marshalled is unmarshalled to itself, and that a checksum has 32 bits. In Targets the answers of
-- HasPermission and GroupMemberCheck, panics included, are a record of two functions, `Rights`, which
-- `rights_of` fills with the definitions of Acl; the proofs use nothing of them. In Tokens
-- base64, HMAC, json.Unmarshal and the answers of the clock are fields of `Libs`. Of these the proofs
-- use that json.Unmarshal reads a text as UTF-8, with three bytes for a byte that is not (`IsUnquoting`
-- of Tokens/Unquoting), and that TrimSpace cuts off whole characters and does it once.
--
-- Fuel: `get_varint` has two more than the bytes left, since each recursion takes one; the rounds
-- of OCB2 have the input's length, since each takes 16 bytes. `read_log` has one more than the bytes
-- of the log, since each group takes some. The searches of Channels have one more than there are
-- links, or children, in all: each round takes a channel, and a channel is put down only once.
-- `read_permissions` has two more than three times the length of the claim: what json.Unmarshal reads
-- first is at most three times as long and is UTF-8, and from then on a text is shorter than its JSON.
--
-- Not modelled: the network, the protocol messages, the database of the server's state and what a
-- server does with the entries of its log, the configuration and the web listener, which are mostly
-- input and output and calls of libraries; and the handlers of the other messages.
pub mod Acl
pub mod Bans
pub mod Channels
pub mod Common
pub mod Connections
pub mod CryptState
pub mod Freezer
pub mod Login
pub mod Ocb2
pub mod PacketData
pub mod SessionPool
pub mod Targets
pub mod Tokens
pub mod Voice
