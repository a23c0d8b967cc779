-- ===== src/Tokens/Permit.antt =====
-- What the names and the flags of a claim do to the permissions.
use grumble.Common.{
  ◌≡◌, refl, ap, ◌∙◌, Bool, true, false, ◌||◌, List, [], ◌∷◌, map, Option, none, some, arith,
  Bool-cases, inl, inr, if◌then◌else◌,
}
use grumble.Common.Names.{Name, same_name, same_name→eq, is_empty}
use grumble.Voice.{Permissions}
use grumble.Voice.Rooms.{IsTrim}
use grumble.Tokens.{
  Libs, Permission, voice_join, voice_publish, voice_receive, voice_moderate, permission_name,
  apply_permission,
}
use grumble.Tokens.Validate.{parse_permission_name, present, add_flag, add_flags}

abbrev pub granted : Permission → Permissions → Bool
granted voice_join perms = perms.join_voice
granted voice_publish perms = perms.publish_audio
granted voice_receive perms = perms.receive_audio
granted voice_moderate perms = perms.moderate_voice

abbrev same_permission : Permission → Permission → Bool
same_permission p q = same_name (permission_name p) (permission_name q)

granted-apply_permission :
    (q p : Permission) (enabled : Bool) (perms : Permissions)
    → granted q (apply_permission p enabled perms)
      ≡ (if same_permission p q then enabled else granted q perms)
granted-apply_permission voice_join voice_join enabled perms = refl
granted-apply_permission voice_join voice_publish enabled perms = refl
granted-apply_permission voice_join voice_receive enabled perms = refl
granted-apply_permission voice_join voice_moderate enabled perms = refl
granted-apply_permission voice_publish voice_join enabled perms = refl
granted-apply_permission voice_publish voice_publish enabled perms = refl
granted-apply_permission voice_publish voice_receive enabled perms = refl
granted-apply_permission voice_publish voice_moderate enabled perms = refl
granted-apply_permission voice_receive voice_join enabled perms = refl
granted-apply_permission voice_receive voice_publish enabled perms = refl
granted-apply_permission voice_receive voice_receive enabled perms = refl
granted-apply_permission voice_receive voice_moderate enabled perms = refl
granted-apply_permission voice_moderate voice_join enabled perms = refl
granted-apply_permission voice_moderate voice_publish enabled perms = refl
granted-apply_permission voice_moderate voice_receive enabled perms = refl
granted-apply_permission voice_moderate voice_moderate enabled perms = refl

granted-present :
    (libs : Libs) (q : Permission) (name : Name) (enabled : Bool) (perms : Permissions)
    → granted q (present libs name enabled perms) ≡ granted q perms
unfolding present
granted-present libs voice_join name true perms = refl
granted-present libs voice_publish name true perms = refl
granted-present libs voice_receive name true perms = refl
granted-present libs voice_moderate name true perms = refl
granted-present libs q name false perms = refl

module _ (libs : Libs) (trim_law : IsTrim libs.trim) where
  -- Whether a claim's name is that of the permission, blanks around it left out.
  abbrev pub names_it : Permission → Name → Bool
  names_it q name = same_name (libs.trim.trim_space name) (permission_name q)

  -- Whether a name that is looked up is the permission's.
  finds : Permission → Option Permission → Bool
  finds q none = false
  finds q (some p) = same_permission p q

  no_name :
      (q : Permission) (name : Name)
      → names_it voice_join name ≡ false
      → names_it voice_publish name ≡ false
      → names_it voice_receive name ≡ false
      → names_it voice_moderate name ≡ false
      → names_it q name ≡ false
  no_name voice_join name a b c d = a
  no_name voice_publish name a b c d = b
  no_name voice_receive name a b c d = c
  no_name voice_moderate name a b c d = d

  name_is :
      (q : Permission) (name : Name)
      → names_it q name ≡ true
      → libs.trim.trim_space name ≡ permission_name q
  name_is q name h = same_name→eq (libs.trim.trim_space name) (permission_name q) h

  finds-parse_permission_name :
      (q : Permission) (name : Name)
      → finds q (parse_permission_name libs (libs.trim.trim_space name)) ≡ names_it q name
  unfolding parse_permission_name finds
  finds-parse_permission_name q name = elim (Bool-cases (names_it voice_join name)) [
    | inl y ↦ let e = name_is voice_join name y in rw (trim_law.trim_twice name, e) refl
    | inr a ↦ elim (Bool-cases (names_it voice_publish name)) [
      | inl y ↦ let e = name_is voice_publish name y in rw (trim_law.trim_twice name, e) refl
      | inr b ↦ elim (Bool-cases (names_it voice_receive name)) [
        | inl y ↦ let e = name_is voice_receive name y in rw (trim_law.trim_twice name, e) refl
        | inr c ↦ elim (Bool-cases (names_it voice_moderate name)) [
          | inl y ↦ let e = name_is voice_moderate name y in rw (trim_law.trim_twice name, e) refl
          | inr d ↦ rw (trim_law.trim_twice name, a, b, c, d, no_name q name a b c d) refl
        ]
      ]
    ]
  ]

  granted_found :
      (q : Permission) (found : Option Permission) (enabled : Bool) (perms : Permissions)
      → granted q (elim found as (λ _. Permissions) [
        | none ↦ perms
        | some p ↦ apply_permission p enabled perms
      ])
        ≡ (if finds q found then enabled else granted q perms)
  unfolding finds
  granted_found q none enabled perms = refl
  granted_found q (some p) enabled perms = granted-apply_permission q p enabled perms

  not_empty :
      (q : Permission) (text : Name)
      → is_empty text ≡ true
      → same_name text (permission_name q) ≡ false
  not_empty voice_join [] h = refl
  not_empty voice_publish [] h = refl
  not_empty voice_receive [] h = refl
  not_empty voice_moderate [] h = refl
  not_empty q (c ∷ text) h = absurd (cc h)

  granted-add_flag :
      (q : Permission) (name : Name) (enabled : Bool) (perms : Permissions)
      → granted q (add_flag libs (name, enabled) perms)
        ≡ (if names_it q name then enabled else granted q perms)
  unfolding add_flag
  granted-add_flag q name enabled perms = elim (Bool-cases (is_empty (libs.trim.trim_space name))) [
    | inl e ↦ rw (add_flag, e, not_empty q (libs.trim.trim_space name) e) refl
    | inr e ↦
        let t = libs.trim.trim_space name in
        rw (add_flag, e)
          (granted_found q (parse_permission_name libs t) enabled (present libs t enabled perms)
            ∙ rw (finds-parse_permission_name q name, granted-present libs q t enabled perms) refl)
  ]

  -- The last claim of this name, from what stood before.
  abbrev pub last_claim : Permission → List (Name × Bool) → Bool → Bool
  last_claim q [] before = before
  last_claim q ((name, enabled) ∷ flags) before =
      last_claim q flags (if names_it q name then enabled else before)

  pub granted-add_flags :
      (q : Permission) (flags : List (Name × Bool)) (perms : Permissions)
      → granted q (add_flags libs flags perms) ≡ last_claim q flags (granted q perms)
  unfolding add_flags
  granted-add_flags q [] perms = refl
  granted-add_flags q ((name, enabled) ∷ flags) perms =
      granted-add_flags q flags (add_flag libs (name, enabled) perms)
      ∙ ap (last_claim q flags) (granted-add_flag q name enabled perms)

  abbrev pub any_names : Permission → List Name → Bool
  any_names q [] = false
  any_names q (name ∷ names) = names_it q name || any_names q names

  pub last_claim-map :
      (q : Permission) (names : List Name) (before : Bool)
      → last_claim q (map (λ n. (n, true)) names) before ≡ (any_names q names || before)
  last_claim-map q [] before = refl
  last_claim-map q (name ∷ names) before =
      last_claim-map q names (if names_it q name then true else before) ∙ ground arith
