-- ===== src/Acl/Decision.antt =====
-- HasPermission (acl.go) as a whole: the loop over the contexts against what each context leaves
-- of a permission, read from the context asked about up.
use grumble.Common.{
  ℕ, zero, suc, ◌^◌, ◌<◌, Bool, true, false, not, ◌&&◌, ◌||◌, List, [], ◌∷◌, ◌++◌, Option, none,
  some, ◌≡◌, refl, ap, ◌∙◌, if◌then◌else◌, All, Bool-cases, inl, inr, arith, append-nil,
  append_assoc,
}
use grumble.Common.Int.{eqb_ℤ, pos}
use grumble.Acl.{
  Context, Chain, User, Text, Access, build_chain, defaults, walk, is_spoken, allows,
  has_permission,
}
use grumble.Acl.Bit.{has_bit, allows-pow}
use grumble.Acl.LastWord.{
  or_default, last_word, IsSane, in_force, grants, folded, apply_acls-folded, folded-traverse,
  folded-write, folded-granted,
}

abbrev pub IsSaneContext : Context → Type 0
IsSaneContext ctx = All IsSane ctx.acls

split_and : (x y : Bool) → (x && y) ≡ true → (x ≡ true) × (y ≡ true)
split_and x y h = ground arith

and_shut : (x y : Bool) → x ≡ true → (x && y) ≡ false → y ≡ false
and_shut x y p h = ground arith

has_bit_of_zero : (k : ℕ) → has_bit k 0 ≡ false
has_bit_of_zero zero = refl
has_bit_of_zero (suc k) = has_bit_of_zero k

if_some : (c x y : Bool) → (if c then some x else some y) ≡ some (if c then x else y)
if_some true x y = refl
if_some false x y = refl

not_both : (x y : Bool) → (x || y) ≡ true → (not x && not y) ≡ false
not_both x y h = ground arith

both_not : (x y : Bool) → (x || y) ≡ false → (not x && not y) ≡ true
both_not x y h = ground arith

module _ (text : Text) (orig : Chain) (user : User) where
  -- The right to traverse, which the contexts above leave unless an ACL here speaks of it.
  abbrev pub traverse_at : Chain → Bool
  traverse_at [] = true
  traverse_at (ctx ∷ parents) =
      or_default (last_word (in_force text orig user (ctx ∷ parents)) 1 ctx.acls)
        (traverse_at parents)

  abbrev pub write_at : Chain → Bool
  write_at [] = false
  write_at (ctx ∷ parents) =
      or_default (last_word (in_force text orig user (ctx ∷ parents)) 0 ctx.acls) (write_at parents)

  -- No context up to the root takes both rights away.
  abbrev pub is_open : Chain → Bool
  is_open [] = true
  is_open (ctx ∷ parents) =
      is_open parents && (traverse_at (ctx ∷ parents) || write_at (ctx ∷ parents))

  -- The grant of a permission: that of the contexts above, or the default where a context does not
  -- inherit, unless an ACL here speaks of it.
  abbrev pub grant_at : ℕ → Chain → Bool
  grant_at k [] = has_bit k defaults
  grant_at k (ctx ∷ parents) =
      or_default (last_word (grants text orig user (ctx ∷ parents)) k ctx.acls)
        (if ctx.inherit_acl then grant_at k parents else has_bit k defaults)

  abbrev pub start : Access
  start = record { granted = defaults; traverse = true; write = false }

  abbrev entered : Bool → Access → Access
  entered inherits a = if inherits then a else record a { granted = defaults }

  access_at : Chain → Access
  access_at [] = start
  access_at (ctx ∷ parents) =
      folded text orig user (ctx ∷ parents) ctx.acls (entered ctx.inherit_acl (access_at parents))

  entered-flags :
      (b : Bool) (a : Access)
      → ((entered b a).traverse ≡ a.traverse) × ((entered b a).write ≡ a.write)
  entered-flags true a = (refl, refl)
  entered-flags false a = (refl, refl)

  entered-granted :
      (k : ℕ) (b : Bool) (a : Access) (g : Bool)
      → has_bit k a.granted ≡ g
      → has_bit k (entered b a).granted ≡ (if b then g else has_bit k defaults)
  entered-granted k true a g h = h
  entered-granted k false a g h = refl

  access-traverse : (chain : Chain) → (access_at chain).traverse ≡ traverse_at chain
  unfolding access_at
  access-traverse [] = refl
  access-traverse (ctx ∷ parents) =
      folded-traverse text orig user (ctx ∷ parents) ctx.acls
        (entered ctx.inherit_acl (access_at parents))
      ∙ ap (or_default (last_word (in_force text orig user (ctx ∷ parents)) 1 ctx.acls))
          ((entered-flags ctx.inherit_acl (access_at parents)).0 ∙ access-traverse parents)

  access-write : (chain : Chain) → (access_at chain).write ≡ write_at chain
  unfolding access_at
  access-write [] = refl
  access-write (ctx ∷ parents) =
      folded-write text orig user (ctx ∷ parents) ctx.acls
        (entered ctx.inherit_acl (access_at parents))
      ∙ ap (or_default (last_word (in_force text orig user (ctx ∷ parents)) 0 ctx.acls))
          ((entered-flags ctx.inherit_acl (access_at parents)).1 ∙ access-write parents)

  access-granted :
      (k : ℕ) (chain : Chain)
      → k < 32
      → All IsSaneContext chain
      → has_bit k (access_at chain).granted ≡ grant_at k chain
  unfolding access_at
  access-granted k [] p s = refl
  access-granted k (ctx ∷ parents) p s =
      folded-granted text orig user (ctx ∷ parents) k ctx.acls
        (entered ctx.inherit_acl (access_at parents)) p s.0
      ∙ ap (or_default (last_word (grants text orig user (ctx ∷ parents)) k ctx.acls)) (
          entered-granted k ctx.inherit_acl (access_at parents) (grant_at k parents)
            (access-granted k parents p s.1))

  -- One turn of the loop over the contexts.
  walk_turn :
      (ctx : Context) (parents : Chain) (rest : List Chain) (a : Access)
      → All IsSane ctx.acls
      → walk text orig user ((ctx ∷ parents) ∷ rest) a ≡ (
          let b = folded text orig user (ctx ∷ parents) ctx.acls (entered ctx.inherit_acl a) in
          if not b.traverse && not b.write
          then some (record b { granted = 0 })
          else walk text orig user rest b)
  unfolding walk
  walk_turn ctx parents rest a s =
      rw
        (
          apply_acls-folded text orig user (ctx ∷ parents) ctx.acls (entered ctx.inherit_acl a) s,
          walk,
        )
        refl

  -- The loop up to a context where every context is open goes on with the access there.
  walk_open :
      (chain : Chain) (rest : List Chain)
      → All IsSaneContext chain
      → is_open chain ≡ true
      → walk text orig user (build_chain chain ++ rest) start
        ≡ walk text orig user rest (access_at chain)
  unfolding build_chain access_at
  walk_open [] rest s o = refl
  walk_open (ctx ∷ parents) rest s o =
      let q = split_and (is_open parents) _ o in
      let b = access_at (ctx ∷ parents) in
      let here : (not b.traverse && not b.write) ≡ false =
        rw (access-traverse (ctx ∷ parents), access-write (ctx ∷ parents)) (not_both _ _ q.1) in
      ap (λ l. walk text orig user l start) (append_assoc (build_chain parents) _ rest)
      ∙ walk_open parents ((ctx ∷ parents) ∷ rest) s.1 q.0
      ∙ walk_turn ctx parents rest (access_at parents) s.0
      ∙ ap (λ c. if c then some (record b { granted = 0 }) else walk text orig user rest b) here

  -- Where one is not, the loop ends with no permission granted.
  walk_closed :
      (chain : Chain) (rest : List Chain)
      → All IsSaneContext chain
      → is_open chain ≡ false
      → (a : Access) × ((walk text orig user (build_chain chain ++ rest) start ≡ some a)
          × (a.granted ≡ 0))
  unfolding build_chain access_at
  walk_closed [] rest s o = ground arith
  walk_closed (ctx ∷ parents) rest s o =
      let e =
        ap (λ l. walk text orig user l start)
          (append_assoc (build_chain parents) ((ctx ∷ parents) ∷ []) rest) in
      elim (Bool-cases (is_open parents)) [
        | inl p ↦
            let b = access_at (ctx ∷ parents) in
            let shut : (not b.traverse && not b.write) ≡ true =
              rw (access-traverse (ctx ∷ parents), access-write (ctx ∷ parents))
                (both_not _ _ (and_shut (is_open parents) _ p o)) in
            (
              record b { granted = 0 },
              (
                e
                    ∙ walk_open parents ((ctx ∷ parents) ∷ rest) s.1 p
                    ∙ walk_turn ctx parents rest (access_at parents) s.0
                    ∙ ap
                        (λ c.
                          if c then some (record b { granted = 0 }) else walk text orig user rest b)
                        shut,
                refl,
              ),
            )
        | inr p ↦
            let ih = walk_closed parents ((ctx ∷ parents) ∷ rest) s.1 p in
            (ih.0, (e ∙ ih.1.0, ih.1.1))
      ]

  -- The answer for one permission at the context asked about.
  abbrev pub may : ℕ → Chain → Bool
  may k chain =
      is_open chain
      && (if is_spoken (2 ^ k) then grant_at k chain else (grant_at k chain || grant_at 0 chain))

  none_granted : (k : ℕ) → allows (2 ^ k) 0 ≡ false
  none_granted k = rw (allows-pow k 0, has_bit_of_zero k) (ground arith)

  decided :
      (k : ℕ) (chain : Chain)
      → k < 32
      → All IsSaneContext chain
      → (elim (walk text orig user (build_chain chain) start) as (λ _. Option Bool) [
        | none ↦ none
        | some a ↦ some (allows (2 ^ k) a.granted)
      ])
        ≡ some (may k chain)
  unfolding walk
  decided k chain p s = elim (Bool-cases (is_open chain)) [
    | inl o ↦
        let w = walk_open chain [] s o in
        rw
          (
            ← append-nil (build_chain chain),
            w,
            o,
            allows-pow k (access_at chain).granted,
            access-granted k chain p s,
            access-granted 0 chain (omega arith) s,
          )
          refl
    | inr o ↦
        let w = walk_closed chain [] s o in
        rw (← append-nil (build_chain chain), w.1.0, o, w.1.1) (ap some (none_granted k))
  ]

-- A permission is answered as follows, without a panic, on every context whose ACLs name no group
-- on which the group check panics. The super user has all but speaking and whispering. For another
-- user, the last ACL in force that mentions a permission decides it, context by context from the
-- nearest up, and the right to write stands for all others but these two; no permission is left
-- where some context takes away both traversal and writing.
pub has_permission_last_word :
    (text : Text) (user : User) (ctx : Context) (parents : Chain) (k : ℕ)
    → k < 32
    → All IsSaneContext (ctx ∷ parents)
    → has_permission text (ctx ∷ parents) user (2 ^ k)
      ≡ some (
          if eqb_ℤ user.user_id (pos 0)
          then not (is_spoken (2 ^ k))
          else may text (ctx ∷ parents) user k (ctx ∷ parents))
unfolding has_permission
has_permission_last_word text user ctx parents k p s =
    rw (decided text (ctx ∷ parents) user k (ctx ∷ parents) p s)
      (if_some (eqb_ℤ user.user_id (pos 0)) _ _)
