-- ===== src/Acl/Groups.antt =====
-- Group membership (context.go, group.go): the walk over the contexts against a reading of the
-- groups from the nearest one.
use grumble.Common.{
  Bool, true, false, not, ◌&&◌, ◌||◌, List, [], ◌∷◌, ◌++◌, none, some, ◌≡◌, refl, if◌then◌else◌,
  inl, inr, Option-cases,
}
use grumble.Common.Int.{ℤ, neg}
use grumble.Common.Names.{Name}
use grumble.Acl.{
  mem_id, Group, Chain, User, find_group, collect_groups, is_member, in_members, members_in_context,
}

-- Membership by the nearest group of that name that mentions the user, which removes or adds him.
-- The walk ends, and he is no member, behind a group that does not mention him and does not
-- inherit, and at a group of an ancestor that cannot be inherited.
abbrev pub nearest : (Group → Bool) → (Group → Bool) → Bool → Name → Chain → Bool
nearest adds removes first name [] = false
nearest adds removes first name (ctx ∷ parents) =
    let above = nearest adds removes false name parents in
    elim (find_group name ctx.groups) [
      | none ↦ above
      | some g ↦
          if not first && not g.inheritable
          then false
          else if removes g
          then false
          else if adds g
          then true
          else if g.inherit
          then above
          else false
    ]

abbrev pub adds_user : User → Group → Bool
adds_user user g =
    mem_id user.user_id g.add
    || (mem_id user.user_id g.temporary || mem_id (neg user.session) g.temporary)

abbrev pub removes_user : User → Group → Bool
removes_user user g = mem_id user.user_id g.remove

is_member-append :
    (user : User) (so_far : Bool) (groups : List Group) (g : Group)
    → is_member user so_far (groups ++ (g ∷ [])) ≡ (
        if removes_user user g
        then false
        else if adds_user user g
        then true
        else is_member user so_far groups)
unfolding is_member
is_member-append user so_far [] g = refl
is_member-append user so_far (h ∷ groups) g =
    is_member-append user (is_member user so_far (h ∷ [])) groups g

or_if :
    (r a b : Bool) → (if r then false else (a || b)) ≡ (if r then false else if a then true else b)
or_if true a b = refl
or_if false true b = refl
or_if false false b = refl

in_members-append :
    (id : ℤ) (so_far : Bool) (groups : List Group) (g : Group)
    → in_members id so_far (groups ++ (g ∷ [])) ≡ (
        if mem_id id g.remove
        then false
        else if mem_id id g.add
        then true
        else in_members id so_far groups)
unfolding in_members
in_members-append id so_far [] g = or_if (mem_id id g.remove) (mem_id id g.add) so_far
in_members-append id so_far (h ∷ groups) g =
    in_members-append id (in_members id so_far (h ∷ [])) groups g

-- One context, for a verdict `m` on the collected groups that the last of them decides first.
visit :
    (m : List Group → Bool) (g : Group) (r a : Bool)
    → m [] ≡ false
    → ((groups : List Group)
        → m (groups ++ (g ∷ [])) ≡ (if r then false else if a then true else m groups))
    → (hidden inherit : Bool) (above : List Group)
    → m (if hidden then [] else if not inherit then g ∷ [] else above ++ (g ∷ [])) ≡ (
        if hidden
        then false
        else if r
        then false
        else if a
        then true
        else if inherit
        then m above
        else false)
visit m g r a base step true inherit above = base
visit m g r a base step false true above = step above
visit m g r a base step false false above = rw base at (step [])

collect_nearest :
    (m : List Group → Bool) (adds removes : Group → Bool)
    → m [] ≡ false
    → ((groups : List Group) (g : Group)
        → m (groups ++ (g ∷ [])) ≡ (if removes g then false else if adds g then true else m groups))
    → (first : Bool) (name : Name) (chain : Chain)
    → m (collect_groups first name chain) ≡ nearest adds removes first name chain
unfolding collect_groups
collect_nearest m adds removes base step first name [] = base
collect_nearest m adds removes base step first name (ctx ∷ parents) =
    let ih = collect_nearest m adds removes base step false name parents in
    elim (Option-cases (find_group name ctx.groups)) [
      | inl e ↦ rw (e, collect_groups, nearest) ih
      | inr (g, e) ↦
          let v =
            visit m g (removes g) (adds g) base (λ xs. step xs g) (not first && not g.inheritable)
              g.inherit (collect_groups false name parents) in
          rw (e, collect_groups, nearest) (rw ih at v)
    ]

pub member_nearest :
    (user : User) (name : Name) (chain : Chain)
    → is_member user false (collect_groups true name chain)
      ≡ nearest (adds_user user) (removes_user user) true name chain
unfolding is_member
member_nearest user name chain =
    collect_nearest (is_member user false) (adds_user user) (removes_user user) refl
      (is_member-append user false) true name chain

-- The members of a group in a context: an id is one exactly when the nearest group of that name
-- which mentions it, up to the end of the inheritance, adds it without removing it.
pub members_in_context-nearest :
    (name : Name) (chain : Chain) (id : ℤ)
    → members_in_context name chain id
      ≡ nearest (λ g. mem_id id g.add) (λ g. mem_id id g.remove) true name chain
unfolding members_in_context in_members
members_in_context-nearest name chain id =
    collect_nearest (in_members id false) (λ g. mem_id id g.add) (λ g. mem_id id g.remove) refl
      (in_members-append id false) true name chain
