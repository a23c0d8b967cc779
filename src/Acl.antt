-- ===== src/Acl.antt =====
-- pkg/acl: contexts (context.go), groups (group.go) and permissions (acl.go).
pub mod Groups
pub mod Names
pub mod Bit
pub mod LastWord
pub mod Decision
pub mod Tests
use grumble.Common.{
  ℕ, zero, suc, ◌+◌, ◌-◌, ◌^◌, ◌<◌, Bool, true, false, not, ◌&&◌, ◌||◌, List, [], ◌∷◌, ◌++◌, Option,
  none, some, ltb, leb, ◌==◌, if◌then◌else◌, bit_and, bit_or, map,
}
use grumble.Common.Names.{Name, same_name, lookup}
use grumble.Common.Int.{ℤ, pos, negsuc, eqb_ℤ, is_nonneg, neg}

abbrev pub mem_id : ℤ → List ℤ → Bool
mem_id a [] = false
mem_id a (x ∷ xs) = eqb_ℤ x a || mem_id a xs

-- The sets of user ids are lists.
pub record Group : Type 0 where
  pub name : Name
  pub inherit : Bool
  pub inheritable : Bool
  pub add : List ℤ
  pub remove : List ℤ
  pub temporary : List ℤ

unfoldable pub empty_group_with_name : Name → Group
empty_group_with_name name = record {
  name = name;
  inherit = false;
  inheritable = false;
  add = [];
  remove = [];
  temporary = [];
}

pub record Acl : Type 0 where
  pub user_id : ℤ
  pub group : Name
  pub apply_here : Bool
  pub apply_subs : Bool
  pub allow : ℕ
  pub deny : ℕ

-- `address` stands for the pointer by which contexts are compared. The map of groups is an
-- association list.
pub record Context : Type 0 where
  pub address : ℕ
  pub acls : List Acl
  pub groups : List (Name × Group)
  pub inherit_acl : Bool

-- A context with its ancestors, itself first; the empty chain is the nil pointer.
abbrev pub Chain : Type 0
Chain = List Context

-- The interface User. `acl_context` is the address of the user's channel's context.
pub record User : Type 0 where
  pub session : ℕ
  pub user_id : ℤ
  pub cert_hash : Name
  pub tokens : List Name
  pub acl_context : Option ℕ

-- `buildChain`: the final ancestor first, each context with its own ancestors.
unfoldable pub build_chain : Chain → List Chain
build_chain [] = []
build_chain (ctx ∷ parents) = build_chain parents ++ ((ctx ∷ parents) ∷ [])

unfoldable pub find_group : Name → List (Name × Group) → Option Group
find_group name [] = none
find_group name ((n, g) ∷ groups) = if same_name n name then some g else find_group name groups

-- Groups

-- The prefixes of a group's name.
pub record Flags : Type 0 where
  pub invert : Bool
  pub in_acl : Bool
  pub token : Bool
  pub hash : Bool

abbrev pub no_flags : Flags
no_flags = record { invert = false; in_acl = false; token = false; hash = false }

-- `none`: the name, or what its prefixes leave, is empty.
unfoldable pub parse_name : Flags → Name → Option (Flags × Name)
parse_name f [] = none
parse_name f (c ∷ name) =
    let inverted = parse_name (record f { invert = true }) name in
    let in_acl = parse_name (record f { in_acl = true }) name in
    let token = parse_name (record f { token = true }) name in
    let hash = parse_name (record f { hash = true }) name in
    if c == b'!'
    then inverted
    else if c == b'~'
    then in_acl
    else if c == b'#'
    then token
    else if c == b'$'
    then hash
    else some (f, c ∷ name)

-- The groups of that name from a context up, the farthest first. `first` tells the context that
-- the walk starts from.
unfoldable pub collect_groups : Bool → Name → Chain → List Group
collect_groups first name [] = []
collect_groups first name (ctx ∷ parents) =
    let above = collect_groups false name parents in
    elim (find_group name ctx.groups) [
      | none ↦ above
      | some g ↦
          if not first && not g.inheritable
          then []
          else if not g.inherit
          then g ∷ []
          else above ++ (g ∷ [])
    ]

-- The loop over the collected groups.
unfoldable pub is_member : User → Bool → List Group → Bool
is_member user so_far [] = so_far
is_member user so_far (g ∷ groups) =
    let added =
      mem_id user.user_id g.add
      || (mem_id user.user_id g.temporary || mem_id (neg user.session) g.temporary) in
    let after_add = if added then true else so_far in
    is_member user (if mem_id user.user_id g.remove then false else after_add) groups

-- `MembersInContext`: whether `id` is in the resulting set.
unfoldable pub in_members : ℤ → Bool → List Group → Bool
in_members id so_far [] = so_far
in_members id so_far (g ∷ groups) =
    let after_add = mem_id id g.add || so_far in
    in_members id (if mem_id id g.remove then false else after_add) groups

unfoldable pub members_in_context : Name → Chain → ℤ → Bool
members_in_context name ctx id = in_members id false (collect_groups true name ctx)

-- `strings.ToLower`.
pub record Text : Type 0 where
  pub to_lower : Name → Name

abbrev pub is_at : Option ℕ → Chain → Bool
is_at (some a) (ctx ∷ parents) = a == ctx.address
is_at none [] = true
is_at _ _ = false

-- The deferred inversion.
abbrev pub inverted : Bool → Option Bool → Option Bool
inverted invert none = none
inverted invert (some b) = some (if invert then not b else b)

module _ (text : Text) where
  unfoldable pub has_token : Name → List Name → Bool
  has_token name [] = false
  has_token name (t ∷ tokens) =
      same_name (text.to_lower name) (text.to_lower t) || has_token name tokens

  -- The cases of the name that the prefixes leave. `none` is the panic of `name[4:]`, which the
  -- case "sub" evaluates on its three bytes; the code behind it is not reached.
  unfoldable pub member_of : Flags → Chain → Name → User → Option Bool
  member_of f channel name user =
      if f.token
      then some (has_token name user.tokens)
      else if f.hash
      then some (same_name (text.to_lower name) (text.to_lower user.cert_hash))
      else if same_name name (b'n' ∷ b'o' ∷ b'n' ∷ b'e' ∷ [])
      then some false
      else if same_name name (b'a' ∷ b'l' ∷ b'l' ∷ [])
      then some true
      else if same_name name (b'a' ∷ b'u' ∷ b't' ∷ b'h' ∷ [])
      then some (is_nonneg user.user_id)
      else if same_name name (b's' ∷ b't' ∷ b'r' ∷ b'o' ∷ b'n' ∷ b'g' ∷ [])
      then some false
      else if same_name name (b'i' ∷ b'n' ∷ [])
      then some (is_at user.acl_context channel)
      else if same_name name (b'o' ∷ b'u' ∷ b't' ∷ [])
      then some (not (is_at user.acl_context channel))
      else if same_name name (b's' ∷ b'u' ∷ b'b' ∷ [])
      then none
      else some (is_member user false (collect_groups true name channel))

  unfoldable pub group_member_check : Chain → Chain → Name → User → Option Bool
  group_member_check current acl name user = elim (parse_name no_flags name) [
    | none ↦ some false
    | some (f, rest) ↦ inverted f.invert (member_of f (if f.in_acl then acl else current) rest user)
  ]

-- Permissions

abbrev pub write_permission : ℕ
write_permission = 0x1

abbrev pub traverse_permission : ℕ
traverse_permission = 0x2

abbrev pub speak_permission : ℕ
speak_permission = 0x8

abbrev pub whisper_permission : ℕ
whisper_permission = 0x100

-- Traverse, enter, speak, whisper and text message.
abbrev pub defaults : ℕ
defaults = 0x30e

unfoldable pub is_set : ℕ → ℕ → Bool
is_set perm check = bit_and perm check == check

-- `^perm` on a uint32.
abbrev pub not_u32 : ℕ → ℕ
not_u32 perm = 0xffff_ffff - perm

abbrev pub is_user_acl : Acl → Bool
is_user_acl acl = not (eqb_ℤ acl.user_id (negsuc 0))

pub record Access : Type 0 where
  pub granted : ℕ
  pub traverse : Bool
  pub write : Bool

abbrev pub address_of : Chain → ℕ
address_of [] = 0
address_of (ctx ∷ parents) = ctx.address

-- What an ACL that applies to the user changes.
unfoldable pub apply_acl : Bool → Acl → Access → Access
apply_acl here acl a =
    let t1 = if is_set acl.allow traverse_permission then true else a.traverse in
    let w1 = if is_set acl.allow write_permission then true else a.write in
    record {
      traverse = if is_set acl.deny traverse_permission then false else t1;
      write = if is_set acl.deny write_permission then false else w1;
      granted =
          if (here && acl.apply_here) || (not here && acl.apply_subs)
          then bit_and (bit_or a.granted acl.allow) (not_u32 acl.deny)
          else a.granted;
    }

abbrev pub is_spoken : ℕ → Bool
is_spoken perm = (perm == speak_permission) || (perm == whisper_permission)

unfoldable pub allows : ℕ → ℕ → Bool
allows perm granted =
    if is_spoken perm
    then not (bit_and granted perm == 0)
    else not (bit_and granted (bit_or perm write_permission) == 0)

module _ (text : Text) (orig : Chain) (user : User) where
  -- `matchUser || matchGroup`; the group check is made in any case.
  unfoldable pub matches : Chain → Acl → Option Bool
  matches ctx acl = elim (group_member_check text orig ctx acl.group user) [
    | none ↦ none
    | some in_group ↦ some ((is_user_acl acl && eqb_ℤ acl.user_id user.user_id) || in_group)
  ]

  unfoldable pub apply_acls : Chain → List Acl → Access → Option Access
  apply_acls ctx [] a = some a
  apply_acls ctx (acl ∷ acls) a = elim (matches ctx acl) [
    | none ↦ none
    | some true ↦ apply_acls ctx acls (apply_acl (address_of orig == address_of ctx) acl a)
    | some false ↦ apply_acls ctx acls a
  ]

  -- The loop over the contexts, with its `break`. A chain in it is not empty.
  unfoldable pub walk : List Chain → Access → Option Access
  walk [] a = some a
  walk ([] ∷ contexts) a = walk contexts a
  walk ((ctx ∷ parents) ∷ contexts) a =
      let start = if ctx.inherit_acl then a else record a { granted = defaults } in
      elim (apply_acls (ctx ∷ parents) ctx.acls start) [
        | none ↦ none
        | some b ↦
            if not b.traverse && not b.write
            then some (record b { granted = 0 })
            else walk contexts b
      ]

  -- `HasPermission`; `none` is a panic, which it also is on a nil context.
  unfoldable pub has_permission : ℕ → Option Bool
  has_permission perm = elim orig [
    | [] ↦ none
    | ctx ∷ parents ↦
        if eqb_ℤ user.user_id (pos 0)
        then some (not (is_spoken perm))
        else elim (walk (build_chain (ctx ∷ parents))
            (record { granted = defaults; traverse = true; write = false })) [
              | none ↦ none
              | some a ↦ some (allows perm a.granted)
            ]
  ]
