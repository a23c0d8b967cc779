-- ===== src/Acl/LastWord.antt =====
-- The ACLs of one context (the inner loop of HasPermission in acl.go): each permission is decided
-- by the last ACL that is in force and mentions it.
use grumble.Common.{
  ℕ, ◌^◌, ◌<◌, Bool, true, false, not, ◌&&◌, ◌||◌, List, [], ◌∷◌, Option, none, some, ◌≡◌, refl, ap,
  sym, ◌∙◌, if◌then◌else◌, ◌==◌, All, bit_and, bit_or, arith,
}
use grumble.Common.Int.{eqb_ℤ}
use grumble.Acl.{
  Acl, Chain, User, Text, Access, is_set, not_u32, is_user_acl, group_member_check, address_of,
  apply_acl, matches, apply_acls,
}
use grumble.Acl.Names.{strips_to_sub, group_member_check-is_some, is_some}
use grumble.Acl.Bit.{has_bit, has_bit-bit_or, has_bit-bit_and, has_bit-not_u32, is_set-pow}

-- What one ACL says of a permission: a denial overrides an allowance.
abbrev pub says : ℕ → Acl → Option Bool
says k acl =
    if has_bit k acl.deny then some false else if has_bit k acl.allow then some true else none

abbrev pub or_else : Option Bool → Option Bool → Option Bool
or_else (some b) o = some b
or_else none o = o

abbrev pub or_default : Option Bool → Bool → Bool
or_default (some b) d = b
or_default none d = d

-- What the last ACL says that counts and mentions the permission.
abbrev pub last_word : (Acl → Bool) → ℕ → List Acl → Option Bool
last_word counts k [] = none
last_word counts k (acl ∷ acls) =
    or_else (last_word counts k acls) (if counts acl then says k acl else none)

pub or_default-or_else :
    (o w : Option Bool) (d : Bool) → or_default (or_else o w) d ≡ or_default o (or_default w d)
or_default-or_else none w d = refl
or_default-or_else (some b) w d = refl

-- An ACL of which no group name panics, with its denials on 32 bits.
abbrev pub IsSane : Acl → Type 0
IsSane acl = (strips_to_sub acl.group ≡ false) × (acl.deny < 2 ^ 32)

says_flag :
    (k : ℕ) (acl : Acl) (s : Bool)
    → (if is_set acl.deny (2 ^ k) then false else if is_set acl.allow (2 ^ k) then true else s)
      ≡ or_default (says k acl) s
says_flag k acl s = rw (is_set-pow k acl.deny, is_set-pow k acl.allow) (ground arith)

says_granted :
    (k : ℕ) (acl : Acl) (g : ℕ)
    → k < 32
    → acl.deny < 2 ^ 32
    → has_bit k (bit_and (bit_or g acl.allow) (not_u32 acl.deny))
      ≡ or_default (says k acl) (has_bit k g)
says_granted k acl g p q =
    let a = has_bit-bit_and k (bit_or g acl.allow) (not_u32 acl.deny) in
    let b = has_bit-bit_or k g acl.allow in let c = has_bit-not_u32 k acl.deny p q in ground arith

step-traverse :
    (b here : Bool) (acl : Acl) (a : Access)
    → (if b then apply_acl here acl a else a).traverse
      ≡ or_default (if b then says 1 acl else none) a.traverse
unfolding apply_acl
step-traverse true here acl a = says_flag 1 acl a.traverse
step-traverse false here acl a = refl

step-write :
    (b here : Bool) (acl : Acl) (a : Access)
    → (if b then apply_acl here acl a else a).write
      ≡ or_default (if b then says 0 acl else none) a.write
unfolding apply_acl
step-write true here acl a = says_flag 0 acl a.write
step-write false here acl a = refl

step-granted :
    (k : ℕ) (b here : Bool) (acl : Acl) (a : Access)
    → k < 32
    → acl.deny < 2 ^ 32
    → has_bit k (if b then apply_acl here acl a else a).granted
      ≡ or_default
          (if b && ((here && acl.apply_here) || (not here && acl.apply_subs))
            then says k acl
            else none)
          (has_bit k a.granted)
unfolding apply_acl
step-granted k false here acl a p q = refl
step-granted k true here acl a p q =
    applied ((here && acl.apply_here) || (not here && acl.apply_subs)) a.granted
  where
    applied :
        (c : Bool) (g : ℕ)
        → has_bit k (if c then bit_and (bit_or g acl.allow) (not_u32 acl.deny) else g)
          ≡ or_default (if c then says k acl else none) (has_bit k g)
    applied true g = says_granted k acl g p q
    applied false g = refl

known :
    (o : Option Bool) (own : Bool)
    → is_some o ≡ true
    → (elim o as (λ _. Option Bool) [ none ↦ none | some b ↦ some (own || b) ])
      ≡ some (own || or_default o false)
known none own h = ground arith
known (some b) own h = refl

module _ (text : Text) (orig : Chain) (user : User) where
  abbrev pub is_in_group : Chain → Acl → Bool
  is_in_group ctx acl = or_default (group_member_check text orig ctx acl.group user) false

  -- The ACL is the user's own or that of a group he is in.
  abbrev pub in_force : Chain → Acl → Bool
  in_force ctx acl = (is_user_acl acl && eqb_ℤ acl.user_id user.user_id) || is_in_group ctx acl

  -- An ACL in force that is meant for the context asked about, or for those below its own.
  abbrev pub grants : Chain → Acl → Bool
  grants ctx acl =
      let here = address_of orig == address_of ctx in
      in_force ctx acl && ((here && acl.apply_here) || (not here && acl.apply_subs))

  matches-in_force :
      (ctx : Chain) (acl : Acl)
      → IsSane acl
      → matches text orig user ctx acl ≡ some (in_force ctx acl)
  unfolding matches
  matches-in_force ctx acl s =
      let t = group_member_check-is_some text orig ctx acl.group user ∙ ap not s.0 in
      known (group_member_check text orig ctx acl.group user) _ t

  -- The access after the ACLs of a context.
  abbrev pub folded : Chain → List Acl → Access → Access
  folded ctx [] a = a
  folded ctx (acl ∷ acls) a =
      folded ctx acls
        (if in_force ctx acl then apply_acl (address_of orig == address_of ctx) acl a else a)

  next_acl :
      (ctx : Chain) (acls : List Acl) (acl : Acl) (a : Access) (b : Bool)
      → ((c : Access) → apply_acls text orig user ctx acls c ≡ some (folded ctx acls c))
      → (elim b as (λ _. Option Access) [
        | true ↦
            apply_acls text orig user ctx acls (apply_acl (address_of orig == address_of ctx) acl a)
        | false ↦ apply_acls text orig user ctx acls a
      ])
        ≡ some
            (folded ctx acls (if b then apply_acl (address_of orig == address_of ctx) acl a else a))
  next_acl ctx acls acl a true h = h _
  next_acl ctx acls acl a false h = h a

  pub apply_acls-folded :
      (ctx : Chain) (acls : List Acl) (a : Access)
      → All IsSane acls
      → apply_acls text orig user ctx acls a ≡ some (folded ctx acls a)
  unfolding apply_acls
  apply_acls-folded ctx [] a s = refl
  apply_acls-folded ctx (acl ∷ acls) a s =
      rw (apply_acls, matches-in_force ctx acl s.0)
        (next_acl ctx acls acl a (in_force ctx acl) (λ b. apply_acls-folded ctx acls b s.1))

  pub folded-traverse :
      (ctx : Chain) (acls : List Acl) (a : Access)
      → (folded ctx acls a).traverse ≡ or_default (last_word (in_force ctx) 1 acls) a.traverse
  unfolding apply_acl
  folded-traverse ctx [] a = refl
  folded-traverse ctx (acl ∷ acls) a =
      let here = address_of orig == address_of ctx in
      let b = in_force ctx acl in
      let w = last_word (in_force ctx) 1 acls in
      folded-traverse ctx acls (if b then apply_acl here acl a else a)
      ∙ ap (or_default w) (step-traverse b here acl a)
      ∙ sym (or_default-or_else w (if b then says 1 acl else none) a.traverse)

  pub folded-write :
      (ctx : Chain) (acls : List Acl) (a : Access)
      → (folded ctx acls a).write ≡ or_default (last_word (in_force ctx) 0 acls) a.write
  unfolding apply_acl
  folded-write ctx [] a = refl
  folded-write ctx (acl ∷ acls) a =
      let here = address_of orig == address_of ctx in
      let b = in_force ctx acl in
      let w = last_word (in_force ctx) 0 acls in
      folded-write ctx acls (if b then apply_acl here acl a else a)
      ∙ ap (or_default w) (step-write b here acl a)
      ∙ sym (or_default-or_else w (if b then says 0 acl else none) a.write)

  pub folded-granted :
      (ctx : Chain) (k : ℕ) (acls : List Acl) (a : Access)
      → k < 32
      → All IsSane acls
      → has_bit k (folded ctx acls a).granted
        ≡ or_default (last_word (grants ctx) k acls) (has_bit k a.granted)
  unfolding apply_acl
  folded-granted ctx k [] a p s = refl
  folded-granted ctx k (acl ∷ acls) a p s =
      let here = address_of orig == address_of ctx in
      let b = in_force ctx acl in
      let w = last_word (grants ctx) k acls in
      folded-granted ctx k acls (if b then apply_acl here acl a else a) p s.1
      ∙ ap (or_default w) (step-granted k b here acl a p s.0.1)
      ∙ sym
          (or_default-or_else w (if grants ctx acl then says k acl else none) (has_bit k a.granted))
