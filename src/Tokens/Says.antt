-- ===== src/Tokens/Says.antt =====
-- The permissions of a token: which claims grant one.
use grumble.Common.{◌≡◌, refl, sym, subst, Bool, true, false, List, none, some}
use grumble.Common.Names.{Name}
use grumble.Voice.{Permissions}
use grumble.Voice.Rooms.{IsTrim}
use grumble.Tokens.{Libs, Permission, is_quoted, is_nothing}
use grumble.Tokens.Permit.{granted, any_names, last_claim}
use grumble.Tokens.Means.{
  IsQuoted-is_quoted, is_quoted-false, Means, list_means, flags_mean, text_means,
}

module _ (libs : Libs) (trim_law : IsTrim libs.trim) where
  -- What the claim `permissions` says of a permission: the names of a list, the last entry of its name
  -- in an object, or what a text says in which one of these stands.
  pub data Says (q : Permission) : Name → Bool → Type 0 where
    by_list :
        (raw : Name) (names : List Name)
        → is_nothing raw ≡ false
        → is_quoted (libs.trim.trim_space raw) ≡ false
        → libs.json_strings raw ≡ some names
        → Says q raw (any_names libs trim_law q names)
    by_flags :
        (raw : Name) (flags : List (Name × Bool))
        → is_nothing raw ≡ false
        → is_quoted (libs.trim.trim_space raw) ≡ false
        → libs.json_strings raw ≡ none
        → libs.json_flags raw ≡ some flags
        → Says q raw (last_claim libs trim_law q flags false)
    by_text :
        (raw text : Name) (b : Bool)
        → is_nothing raw ≡ false
        → is_quoted (libs.trim.trim_space raw) ≡ true
        → libs.json_string raw ≡ some text
        → Says q (libs.trim.trim_space text) b
        → Says q raw b

  pub Means-Says :
      (q : Permission) (raw : Name) (perms : Permissions)
      → Means libs trim_law raw perms
      → Says q raw (granted q perms)
  Means-Says q _ perms (list_means raw names _ full set plain e g p) =
      subst (Says q raw) (sym (g q)) (
        by_list raw names (rw (full, set) refl) (is_quoted-false (libs.trim.trim_space raw) plain)
          e)
  Means-Says q _ perms (flags_mean raw flags _ full set plain n e g p) =
      subst (Says q raw) (sym (g q)) (
        by_flags raw flags (rw (full, set) refl) (is_quoted-false (libs.trim.trim_space raw) plain)
          n e)
  Means-Says q _ perms (text_means raw text _ full set quoted e m) =
      by_text raw text (granted q perms) (rw (full, set) refl)
        (IsQuoted-is_quoted (libs.trim.trim_space raw) quoted) e
        (Means-Says q (libs.trim.trim_space text) perms m)
