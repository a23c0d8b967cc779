-- ===== src/Acl/Names.antt =====
-- The names of groups (GroupMemberCheck in group.go): the prefixes, the built-in names, and the
-- groups of the contexts by the nearest one.
use grumble.Common.{
  ℕ, Bool, true, false, not, ◌&&◌, ◌||◌, [], ◌∷◌, ◌++◌, Option, none, some, ◌≡◌, refl, ap, ◌∙◌,
  arith, if◌then◌else◌, ◌==◌, inl, inr, Bool-cases,
}
use grumble.Common.Names.{Name, same_name, same_name→eq, bool_clash, both_on}
use grumble.Acl.{
  Chain, User, Flags, no_flags, parse_name, collect_groups, is_member, Text, member_of, inverted,
  group_member_check,
}
use grumble.Acl.Groups.{nearest, adds_user, removes_user, member_nearest}

abbrev is_prefix : ℕ → Bool
is_prefix c = (c == b'!') || ((c == b'~') || ((c == b'#') || (c == b'$')))

abbrev is_magic : Name → Bool
is_magic name =
    same_name name (b'n' ∷ b'o' ∷ b'n' ∷ b'e' ∷ [])
    || (same_name name (b'a' ∷ b'l' ∷ b'l' ∷ [])
        || (same_name name (b'a' ∷ b'u' ∷ b't' ∷ b'h' ∷ [])
            || (same_name name (b's' ∷ b't' ∷ b'r' ∷ b'o' ∷ b'n' ∷ b'g' ∷ [])
                || (same_name name (b'i' ∷ b'n' ∷ [])
                    || (same_name name (b'o' ∷ b'u' ∷ b't' ∷ [])
                        || same_name name (b's' ∷ b'u' ∷ b'b' ∷ []))))))

-- The name of a group of the contexts: no prefix and no built-in name.
abbrev pub is_plain : Name → Bool
is_plain [] = false
is_plain (c ∷ name) = not (is_prefix c) && not (is_magic (c ∷ name))

abbrev pub with_prefixes : Bool → Bool → Name → Name
with_prefixes invert in_acl name =
    (if invert then b'!' ∷ [] else []) ++ ((if in_acl then b'~' ∷ [] else []) ++ name)

both_off : (x y : Bool) → (not x && not y) ≡ true → (x ≡ false) × (y ≡ false)
both_off x y h = ground arith

abbrev pub is_some : {A : Type 0} → Option A → Bool
is_some none = false
is_some (some a) = true

parse_name_stop :
    (f : Flags) (c : ℕ) (name : Name)
    → is_prefix c ≡ false
    → parse_name f (c ∷ name) ≡ some (f, c ∷ name)
unfolding parse_name
parse_name_stop f c name h = ground arith

module _ (text : Text) where
  member_of_plain :
      (f : Flags) (channel : Chain) (name : Name) (user : User)
      → f.token ≡ false
      → f.hash ≡ false
      → is_magic name ≡ false
      → member_of text f channel name user
        ≡ some (is_member user false (collect_groups true name channel))
  unfolding member_of
  member_of_plain f channel name user t h m = ground arith

  parse_name-with_prefixes :
      (invert in_acl : Bool) (name : Name)
      → parse_name no_flags (with_prefixes invert in_acl name)
        ≡ parse_name (record no_flags { invert = invert; in_acl = in_acl }) name
  unfolding parse_name
  parse_name-with_prefixes true true name = refl
  parse_name-with_prefixes true false name = refl
  parse_name-with_prefixes false true name = refl
  parse_name-with_prefixes false false name = refl

  plain_check :
      (f : Flags) (channel : Chain) (name : Name) (user : User)
      → f.token ≡ false
      → f.hash ≡ false
      → is_plain name ≡ true
      → (parse_name f name ≡ some (f, name))
        × (member_of text f channel name user
            ≡ some (nearest (adds_user user) (removes_user user) true name channel))
  plain_check f channel [] user t h p = absurd (bool_clash p)
  plain_check f channel (c ∷ name) user t h p =
      let q = both_off (is_prefix c) (is_magic (c ∷ name)) p in
      (
        parse_name_stop f c name q.0,
        rw (member_of_plain f channel (c ∷ name) user t h q.1)
            (ap some (member_nearest user (c ∷ name) channel)),
      )

  -- A group of the contexts, named with the prefixes `!` and `~` or without: the nearest group of
  -- that name that mentions the user decides, where one that removes him says no and one that adds
  -- him says yes. The walk goes no further than a group that does not inherit, and enters no group
  -- of an ancestor that is not inheritable; when it ends so, or meets no group that mentions him,
  -- the answer is no. It starts at the ACL's context under `~` and at the current one without, and
  -- the answer is negated under `!`.
  pub group_member_check-nearest :
      (current acl : Chain) (name : Name) (user : User) (invert in_acl : Bool)
      → is_plain name ≡ true
      → group_member_check text current acl (with_prefixes invert in_acl name) user
        ≡ some (
            let member =
              nearest
                (adds_user user)
                (removes_user user)
                true
                name
                (if in_acl then acl else current) in
            if invert then not member else member)
  unfolding group_member_check
  group_member_check-nearest current acl name user invert in_acl p =
      let f : Flags = record no_flags { invert = invert; in_acl = in_acl } in
      let q = plain_check f (if in_acl then acl else current) name user refl refl p in
      let e : parse_name no_flags (with_prefixes invert in_acl name) ≡ parse_name f name =
        parse_name-with_prefixes invert in_acl name in
      rw (e, q.0, q.1, group_member_check) refl

-- The names on which the check panics: "sub", behind any number of prefixes `!` and `~`.
abbrev pub strips_to_sub : Name → Bool
strips_to_sub [] = false
strips_to_sub (c ∷ name) =
    let rest = strips_to_sub name in
    if (c == b'!') || (c == b'~') then rest else same_name (c ∷ name) (b's' ∷ b'u' ∷ b'b' ∷ [])

module _ (text : Text) where
  member_of_sub :
      (f : Flags) (channel : Chain) (name : Name) (user : User)
      → f.token ≡ false
      → f.hash ≡ false
      → same_name name (b's' ∷ b'u' ∷ b'b' ∷ []) ≡ true
      → member_of text f channel name user ≡ none
  unfolding member_of
  member_of_sub f channel name user t h s = rw (same_name→eq name _ s, t, h, member_of) refl

  member_of_defined :
      (f : Flags) (channel : Chain) (name : Name) (user : User)
      → (not f.token && (not f.hash && same_name name (b's' ∷ b'u' ∷ b'b' ∷ []))) ≡ false
      → is_some (member_of text f channel name user) ≡ true
  unfolding member_of
  member_of_defined f channel name user h = ground arith

panics_on : Option (Flags × Name) → Bool
panics_on none = false
panics_on (some (f, name)) = not f.token && (not f.hash && same_name name (b's' ∷ b'u' ∷ b'b' ∷ []))

panics_on-parse_name :
    (f : Flags) (name : Name)
    → panics_on (parse_name f name) ≡ (not f.token && (not f.hash && strips_to_sub name))
unfolding panics_on parse_name
panics_on-parse_name f [] = ground arith
panics_on-parse_name f (c ∷ name) =
    let a = panics_on-parse_name (record f { invert = true }) name in
    let b = panics_on-parse_name (record f { in_acl = true }) name in
    let t = panics_on-parse_name (record f { token = true }) name in
    let d = panics_on-parse_name (record f { hash = true }) name in ground arith

off : (b : Bool) → not b ≡ true → b ≡ false
off b h = ground arith

inverted-is_some :
    (invert : Bool) (o : Option Bool) → is_some o ≡ true → is_some (inverted invert o) ≡ true
inverted-is_some invert none h = h
inverted-is_some invert (some b) h = refl

module _ (text : Text) where
  checked : Chain → Chain → User → Option (Flags × Name) → Option Bool
  checked current acl user none = some false
  checked current acl user (some (f, rest)) =
      inverted f.invert (member_of text f (if f.in_acl then acl else current) rest user)

  checked-is_some :
      (current acl : Chain) (user : User) (o : Option (Flags × Name))
      → is_some (checked current acl user o) ≡ not (panics_on o)
  unfolding checked panics_on
  checked-is_some current acl user none = refl
  checked-is_some current acl user (some (f, rest)) =
      let c = if f.in_acl then acl else current in
      elim (Bool-cases (not f.token && (not f.hash && same_name rest (b's' ∷ b'u' ∷ b'b' ∷ [])))) [
        | inl e ↦
            let q = both_on (not f.token) (not f.hash && same_name rest _) e in
            let r = both_on (not f.hash) (same_name rest _) q.1 in
            rw (e, member_of_sub text f c rest user (off f.token q.0) (off f.hash r.0) r.1) refl
        | inr e ↦ rw e (inverted-is_some f.invert _ (member_of_defined text f c rest user e))
      ]

  -- The check of a group panics on the name "sub", behind any number of prefixes `!` and `~`, and
  -- on no other name: every other name has an answer.
  pub group_member_check-is_some :
      (current acl : Chain) (name : Name) (user : User)
      → is_some (group_member_check text current acl name user) ≡ not (strips_to_sub name)
  unfolding group_member_check checked
  group_member_check-is_some current acl name user =
      checked-is_some current acl user (parse_name no_flags name)
      ∙ ap not (panics_on-parse_name no_flags name)
