-- ===== src/Tokens/Means.antt =====
-- The permissions that the claim `permissions` means, against parsePermissions.
use grumble.Common.{
  ==_iff, ℕ, zero, suc, ◌≡◌, refl, ap, sym, subst, ◌∙◌, Bool, true, false, not, ◌&&◌, List, [], ◌∷◌,
  ◌++◌, map, Option, none, some, arith, Bool-cases, Option-cases, inl, inr, if◌then◌else◌,
}
use grumble.Common.Names.{Name, is_empty, same_name}
use grumble.Voice.{Permissions}
use grumble.Voice.Rooms.{IsTrim}
use grumble.Tokens.{
  ok, Libs, Permission, voice_join, voice_publish, voice_receive, voice_moderate, no_permissions,
  apply_permission, is_quoted, is_nothing, null,
}
use grumble.Tokens.Validate.{
  present, add_flag, add_flags, unquoted_permissions, parse_permissions, parse_permission_name,
  read_permissions,
}
use grumble.Tokens.Permit.{granted, any_names, last_claim, granted-add_flags, last_claim-map}
use grumble.Tokens.Unquoting.{IsUnquoting, IsCovered, any_text, not_covered, next-IsCovered}

abbrev pub enabled_all : List Name → List (Name × Bool)
enabled_all names = map (λ n. (n, true)) names

permissions_eq :
    (a b : Permissions)
    → ((q : Permission) → granted q a ≡ granted q b)
    → a.presented ≡ b.presented
    → a ≡ b
permissions_eq a b g p i = record {
  join_voice = g voice_join i;
  publish_audio = g voice_publish i;
  receive_audio = g voice_receive i;
  moderate_voice = g voice_moderate i;
  presented = p i;
}

nothing_granted : (q : Permission) → granted q no_permissions ≡ false
nothing_granted voice_join = refl
nothing_granted voice_publish = refl
nothing_granted voice_receive = refl
nothing_granted voice_moderate = refl

presented-apply_permission :
    (p : Permission) (enabled : Bool) (perms : Permissions)
    → (apply_permission p enabled perms).presented ≡ perms.presented
presented-apply_permission voice_join enabled perms = refl
presented-apply_permission voice_publish enabled perms = refl
presented-apply_permission voice_receive enabled perms = refl
presented-apply_permission voice_moderate enabled perms = refl

presented_found :
    (found : Option Permission) (enabled : Bool) (perms : Permissions)
    → (elim found as (λ _. Permissions) [
      | none ↦ perms
      | some p ↦ apply_permission p enabled perms
    ]).presented
      ≡ perms.presented
presented_found none enabled perms = refl
presented_found (some p) enabled perms = presented-apply_permission p enabled perms

-- A text that begins with a quote and goes on.
abbrev pub IsQuoted : Name → Type 0
IsQuoted text = (c : ℕ) × ((rest : Name) × (text ≡ 34 ∷ c ∷ rest))

is_quoted-IsQuoted : (text : Name) → is_quoted text ≡ true → IsQuoted text
is_quoted-IsQuoted [] h = absurd (cc h)
is_quoted-IsQuoted (c ∷ []) h = absurd (cc h)
is_quoted-IsQuoted (c ∷ d ∷ rest) h = (d, (rest, ap (λ (x : ℕ). x ∷ d ∷ rest) ((==_iff c 34).0 h)))

pub IsQuoted-is_quoted : (text : Name) → IsQuoted text → is_quoted text ≡ true
IsQuoted-is_quoted text (c, (rest, e)) = rw e refl

plain_text : (text : Name) → is_quoted text ≡ false → IsQuoted text → ⊥
plain_text text p q = let y = IsQuoted-is_quoted text q in absurd (cc (y, p))

pub is_quoted-false : (text : Name) → (IsQuoted text → ⊥) → is_quoted text ≡ false
is_quoted-false text n = elim (Bool-cases (is_quoted text)) [
  | inl y ↦ absurd (n (is_quoted-IsQuoted text y))
  | inr p ↦ p
]

append_twice : (a b c : List Name) → (a ++ b) ++ c ≡ a ++ (b ++ c)
append_twice [] b c = refl
append_twice (x ∷ a) b c = ap (λ l. x ∷ l) (append_twice a b c)

append_none : (a : List Name) → a ++ [] ≡ a
append_none [] = refl
append_none (x ∷ a) = ap (λ l. x ∷ l) (append_none a)

module _ (libs : Libs) (trim_law : IsTrim libs.trim) where
  -- The names of the enabled entries, without the blanks around them, and not the blank ones.
  abbrev pub enabled_names : List (Name × Bool) → List Name
  enabled_names [] = []
  enabled_names ((name, enabled) ∷ flags) =
      let rest = enabled_names flags in
      let trimmed = libs.trim.trim_space name in
      if enabled && not (is_empty trimmed) then trimmed ∷ rest else rest

  -- The permissions that the claim means: each of the four by the names of a list, or by the last
  -- entry of its name in an object, with the enabled names; or what a text means in which one of
  -- these stands.
  pub data Means : Name → Permissions → Type 0 where
    list_means :
        (raw : Name) (names : List Name) (perms : Permissions)
        → is_empty raw ≡ false
        → same_name raw null ≡ false
        → (IsQuoted (libs.trim.trim_space raw) → ⊥)
        → libs.json_strings raw ≡ some names
        → ((q : Permission) → granted q perms ≡ any_names libs trim_law q names)
        → perms.presented ≡ enabled_names (enabled_all names)
        → Means raw perms
    flags_mean :
        (raw : Name) (flags : List (Name × Bool)) (perms : Permissions)
        → is_empty raw ≡ false
        → same_name raw null ≡ false
        → (IsQuoted (libs.trim.trim_space raw) → ⊥)
        → libs.json_strings raw ≡ none
        → libs.json_flags raw ≡ some flags
        → ((q : Permission) → granted q perms ≡ last_claim libs trim_law q flags false)
        → perms.presented ≡ enabled_names flags
        → Means raw perms
    text_means :
        (raw text : Name) (perms : Permissions)
        → is_empty raw ≡ false
        → same_name raw null ≡ false
        → IsQuoted (libs.trim.trim_space raw)
        → libs.json_string raw ≡ some text
        → Means (libs.trim.trim_space text) perms
        → Means raw perms

  presented-add_flag :
      (name : Name) (enabled : Bool) (perms : Permissions)
      → (add_flag libs (name, enabled) perms).presented
        ≡ perms.presented ++ enabled_names ((name, enabled) ∷ [])
  unfolding add_flag present
  presented-add_flag name enabled perms =
      let t = libs.trim.trim_space name in
      elim (Bool-cases (is_empty t)) [
        | inl e ↦ elim (Bool-cases enabled) [
          | inl y ↦ rw (add_flag, e, y) (sym (append_none perms.presented))
          | inr n ↦ rw (add_flag, e, n) (sym (append_none perms.presented))
        ]
        | inr e ↦
            rw (add_flag, e)
              (presented_found (parse_permission_name libs t) enabled (present libs t enabled perms)
                ∙ elim (Bool-cases enabled) [
                  | inl y ↦ rw (present, y) refl
                  | inr n ↦ rw (present, n) (sym (append_none perms.presented))
                ])
      ]

  enabled_names_first :
      (flag : Name × Bool) (flags : List (Name × Bool))
      → enabled_names (flag ∷ []) ++ enabled_names flags ≡ enabled_names (flag ∷ flags)
  enabled_names_first (name, enabled) flags =
      elim (Bool-cases (enabled && not (is_empty (libs.trim.trim_space name)))) [
        | inl y ↦ rw y refl
        | inr n ↦ rw n refl
      ]

  presented-add_flags :
      (flags : List (Name × Bool)) (perms : Permissions)
      → (add_flags libs flags perms).presented ≡ perms.presented ++ enabled_names flags
  unfolding add_flags
  presented-add_flags [] perms = sym (append_none perms.presented)
  presented-add_flags ((name, enabled) ∷ flags) perms =
      presented-add_flags flags (add_flag libs (name, enabled) perms)
      ∙ ap (λ l. l ++ enabled_names flags) (presented-add_flag name enabled perms)
      ∙ append_twice perms.presented (enabled_names ((name, enabled) ∷ [])) (enabled_names flags)
      ∙ ap (λ l. perms.presented ++ l) (enabled_names_first (name, enabled) flags)

  granted-flags :
      (q : Permission) (flags : List (Name × Bool))
      → granted q (add_flags libs flags no_permissions) ≡ last_claim libs trim_law q flags false
  granted-flags q flags =
      granted-add_flags libs trim_law q flags no_permissions
      ∙ ap (last_claim libs trim_law q flags) (nothing_granted q)

  granted-names :
      (q : Permission) (names : List Name)
      → granted q (add_flags libs (enabled_all names) no_permissions)
        ≡ any_names libs trim_law q names
  granted-names q names =
      granted-flags q (enabled_all names)
      ∙ last_claim-map libs trim_law q names false
      ∙ ground arith

  unquoted-Means :
      (raw : Name) (perms : Permissions)
      → is_empty raw ≡ false
      → same_name raw null ≡ false
      → is_quoted (libs.trim.trim_space raw) ≡ false
      → unquoted_permissions libs raw ≡ ok perms
      → Means raw perms
  unfolding unquoted_permissions
  unquoted-Means raw perms full set plain h = elim (Option-cases (libs.json_strings raw)) [
    | inr (names, e) ↦
        let all = enabled_all names in
        let same : add_flags libs all no_permissions ≡ perms =
          cc (rw (unquoted_permissions, e) at h) in
        subst (Means raw) same (
          list_means raw names (add_flags libs all no_permissions) full set
            (plain_text (libs.trim.trim_space raw) plain) e (λ q. granted-names q names)
            (presented-add_flags all no_permissions))
    | inl n ↦ elim (Option-cases (libs.json_flags raw)) [
      | inl m ↦ absurd (cc (rw (unquoted_permissions, n, m) at h))
      | inr (flags, e) ↦
          let same : add_flags libs flags no_permissions ≡ perms =
            cc (rw (unquoted_permissions, n, e) at h) in
          subst (Means raw) same (
            flags_mean raw flags (add_flags libs flags no_permissions) full set
              (plain_text (libs.trim.trim_space raw) plain) n e (λ q. granted-flags q flags)
              (presented-add_flags flags no_permissions))
    ]
  ]

  parse_permissions-Means :
      (fuel : ℕ) (raw : Name) (perms : Permissions)
      → parse_permissions libs fuel raw ≡ ok perms
      → Means raw perms
  unfolding parse_permissions
  parse_permissions-Means zero raw perms h = absurd (cc h)
  parse_permissions-Means (suc fuel) raw perms h = elim (Bool-cases (is_nothing raw)) [
    | inl n ↦ absurd (cc (rw (parse_permissions, n) at h))
    | inr something ↦
        let full : is_empty raw ≡ false = ground arith in
        let set : same_name raw null ≡ false = ground arith in
        elim (Bool-cases (is_quoted (libs.trim.trim_space raw))) [
          | inr plain ↦
              unquoted-Means raw perms full set plain
                (rw (parse_permissions, something, plain) at h)
          | inl quoted ↦ elim (Option-cases (libs.json_string raw)) [
            | inl n ↦ absurd (cc (rw (parse_permissions, something, quoted, n) at h))
            | inr (text, e) ↦ elim (Bool-cases (is_empty (libs.trim.trim_space text))) [
              | inl blank ↦ absurd (cc (rw (parse_permissions, something, quoted, e, blank) at h))
              | inr more ↦
                  text_means raw text perms full set
                    (is_quoted-IsQuoted (libs.trim.trim_space raw) quoted) e
                    (parse_permissions-Means fuel (libs.trim.trim_space text) perms
                      (rw (parse_permissions, something, quoted, e, more) at h))
            ]
          ]
        ]
  ]

  pub read_permissions-Means :
      (raw : Name) (perms : Permissions) → read_permissions libs raw ≡ ok perms → Means raw perms
  unfolding read_permissions
  read_permissions-Means raw perms h = parse_permissions-Means _ raw perms h

  pub Means-full : (raw : Name) (perms : Permissions) → Means raw perms → is_empty raw ≡ false
  Means-full _ perms (list_means raw names _ full set plain e g p) = full
  Means-full _ perms (flags_mean raw flags _ full set plain n e g p) = full
  Means-full _ perms (text_means raw text _ full set quoted e m) = full

  pub Means-set : (raw : Name) (perms : Permissions) → Means raw perms → is_nothing raw ≡ false
  Means-set _ perms (list_means raw names _ full set plain e g p) = rw (full, set) refl
  Means-set _ perms (flags_mean raw flags _ full set plain n e g p) = rw (full, set) refl
  Means-set _ perms (text_means raw text _ full set quoted e m) = rw (full, set) refl

  Means-parse_permissions :
      (fuel : ℕ) (raw : Name) (perms : Permissions)
      → IsUnquoting libs
      → IsCovered fuel raw
      → Means raw perms
      → parse_permissions libs fuel raw ≡ ok perms
  unfolding parse_permissions unquoted_permissions
  Means-parse_permissions zero raw perms law enough m = not_covered raw _ enough
  Means-parse_permissions (suc fuel) _ _ law enough
        (list_means raw names perms full set plain e g p) =
      let all = enabled_all names in
      let no_text = is_quoted-false (libs.trim.trim_space raw) plain in
      rw (parse_permissions, full, set, no_text, unquoted_permissions, e)
        (ap ok (
          permissions_eq (add_flags libs all no_permissions) perms
            (λ q. granted-names q names ∙ sym (g q))
            (presented-add_flags all no_permissions ∙ sym p)))
  Means-parse_permissions (suc fuel) _ _ law enough
        (flags_mean raw flags perms full set plain n e g p) =
      let no_text = is_quoted-false (libs.trim.trim_space raw) plain in
      rw (parse_permissions, full, set, no_text, unquoted_permissions, n, e)
        (ap ok (
          permissions_eq (add_flags libs flags no_permissions) perms
            (λ q. granted-flags q flags ∙ sym (g q))
            (presented-add_flags flags no_permissions ∙ sym p)))
  Means-parse_permissions (suc fuel) _ _ law enough
        (text_means raw text perms full set quoted e m) =
      let t = libs.trim.trim_space text in
      rw
        (
          parse_permissions,
          full,
          set,
          IsQuoted-is_quoted (libs.trim.trim_space raw) quoted,
          e,
          Means-full t perms m,
        )
        (Means-parse_permissions fuel t perms law (next-IsCovered libs fuel raw text law e enough)
          m)

  pub Means-read_permissions :
      (raw : Name) (perms : Permissions)
      → IsUnquoting libs
      → Means raw perms
      → read_permissions libs raw ≡ ok perms
  unfolding read_permissions
  Means-read_permissions raw perms law m =
      Means-parse_permissions _ raw perms law (any_text _ raw (omega arith)) m
