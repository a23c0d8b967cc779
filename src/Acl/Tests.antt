-- ===== src/Acl/Tests.antt =====
-- Concrete contexts, groups and users: a root, a channel under it and a channel under that.
use grumble.Common.{
  ℕ, ◌+◌, true, false, ◌&&◌, [], ◌∷◌, some, leb, if◌then◌else◌, ◌≡◌, refl, map, arith,
}
use grumble.Common.Int.{pos, negsuc}
use grumble.Common.Names.{Name}
use grumble.Acl.{
  Group, Context, Chain, User, Text, group_member_check, has_permission, walk, build_chain,
  apply_acls, matches, parse_name, member_of, is_member, collect_groups, find_group, apply_acl,
  is_set, allows,
}
use grumble.Acl.Names.{
  with_prefixes, group_member_check-nearest, is_some, group_member_check-is_some,
}
use grumble.Acl.Decision.{has_permission_last_word}

abbrev ascii_lower : ℕ → ℕ
ascii_lower c = if leb b'A' c && leb c b'Z' then c + 32 else c

abbrev ascii : Text
ascii = record { to_lower = λ name. map ascii_lower name }

abbrev admin : Name
admin = b'a' ∷ b'd' ∷ b'm' ∷ []

abbrev all_users : Name
all_users = b'a' ∷ b'l' ∷ b'l' ∷ []

abbrev sub : Name
sub = b's' ∷ b'u' ∷ b'b' ∷ []

-- Seven and eight are in the group at the root; the channel removes eight.
abbrev root_group : Group
root_group = record {
  name = admin;
  inherit = true;
  inheritable = true;
  add = pos 7 ∷ pos 8 ∷ [];
  remove = [];
  temporary = [];
}

abbrev channel_group : Group
channel_group = record root_group { add = []; remove = pos 8 ∷ [] }

-- Everyone loses the right to speak at the root; the group gets it back with the right to write.
abbrev root : Context
root = record {
  address = 1;
  acls =
      record {
        user_id = negsuc 0;
        group = all_users;
        apply_here = true;
        apply_subs = true;
        allow = 0;
        deny = 0x8;
      }
      ∷ record {
        user_id = negsuc 0;
        group = admin;
        apply_here = true;
        apply_subs = true;
        allow = 0x9;
        deny = 0;
      }
      ∷ [];
  groups = (admin, root_group) ∷ [];
  inherit_acl = true;
}

abbrev channel : Context
channel = record {
  address = 2;
  acls = [];
  groups = (admin, channel_group) ∷ [];
  inherit_acl = true;
}

abbrev chain : Chain
chain = channel ∷ root ∷ []

abbrev user : ℕ → User
user n = record { session = 3; user_id = pos n; cert_hash = []; tokens = []; acl_context = some 2 }

seven_speaks : has_permission ascii chain (user 7) 8 ≡ some true
unfolding has_permission walk build_chain apply_acls matches group_member_check parse_name member_of
    is_member collect_groups find_group apply_acl is_set allows
seven_speaks = refl

eight_is_silent : has_permission ascii chain (user 8) 8 ≡ some false
unfolding has_permission walk build_chain apply_acls matches group_member_check parse_name member_of
    is_member collect_groups find_group apply_acl is_set allows
eight_is_silent = refl

group_member_check-nearest_example :
    group_member_check ascii chain (root ∷ []) (with_prefixes true true admin) (user 8) ≡ some false
unfolding find_group
group_member_check-nearest_example =
    group_member_check-nearest ascii chain (root ∷ []) admin (user 8) true true refl

group_member_check-is_some_example :
    is_some (group_member_check ascii chain chain (with_prefixes true false sub) (user 7)) ≡ false
group_member_check-is_some_example =
    group_member_check-is_some ascii chain chain (with_prefixes true false sub) (user 7)

has_permission_last_word_example : has_permission ascii chain (user 7) 0x8 ≡ some true
unfolding find_group group_member_check parse_name member_of is_member collect_groups
has_permission_last_word_example =
    has_permission_last_word ascii (user 7) channel (root ∷ []) 3 (omega arith)
      (tt, (((refl, omega arith), ((refl, omega arith), tt)), tt))
