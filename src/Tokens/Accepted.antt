-- ===== src/Tokens/Accepted.antt =====
-- The tokens that Validate accepts, and the claims that it returns.
use grumble.Common.{
  ◌≡◌, refl, subst, Bool, true, false, not, ◌&&◌, ◌||◌, List, [], ◌∷◌, some, ◌↔◌, arith,
}
use grumble.Common.Int.{ℤ}
use grumble.Common.Names.{Name, same_name, same_name→eq, same_name_refl, is_empty}
use grumble.Voice.{Permissions}
use grumble.Voice.Rooms.{IsTrim}
use grumble.Tokens.{
  bad_token, bad_missing_claim, bad_issuer, ok, guard, from_option, RawClaims, Claims, Libs,
  Validator, Parts, three_parts, split, is_nothing,
}
use grumble.Tokens.Validate.{
  check_header, read_claims, check_time, check_audience, has_claims, is_blank, read_permissions,
  check_claims, claims_of, validate,
}
use grumble.Tokens.Unquoting.{IsUnquoting}
use grumble.Tokens.Means.{Means, Means-set, read_permissions-Means, Means-read_permissions}
use grumble.Tokens.Results.{
  from_option-some, >>=-ok, guard_on, three_parts-ok, IsSigned, check_header-IsSigned,
  IsSigned-check_header, IsCurrent, check_time-IsCurrent, IsCurrent-check_time, IsMeant,
  check_audience-IsMeant, IsMeant-check_audience,
}

all_off :
    (a b c d n : Bool)
    → (not (a || b) && not (c || (d || n))) ≡ true
    → (a ≡ false) × ((b ≡ false) × ((c ≡ false) × (d ≡ false)))
all_off a b c d n h = (ground arith, (ground arith, (ground arith, ground arith)))

module _ (libs : Libs) (trim_law : IsTrim libs.trim) (v : Validator) where
  -- The claims of a payload are in order, and are the ones that are returned.
  pub record HasClaims (raw : RawClaims) (c : Claims) : Type 0 where
    pub current : IsCurrent libs raw.expires_at c.expires_at
    pub subject_given : is_empty (libs.trim.trim_space raw.subject) ≡ false
    pub name_given : is_empty (libs.trim.trim_space raw.name) ≡ false
    pub team_id_given : is_empty (libs.trim.trim_space raw.team_id) ≡ false
    pub board_id_given : is_empty (libs.trim.trim_space raw.board_id) ≡ false
    pub issued : c.issuer ≡ v.issuer
    pub meant : IsMeant libs v.audience raw.audience c.audience
    pub permitted : Means libs trim_law raw.permissions c.permissions
    pub subject : raw.subject ≡ c.subject
    pub name : raw.name ≡ c.name
    pub issuer : raw.issuer ≡ c.issuer
    pub team_id : raw.team_id ≡ c.team_id
    pub board_id : raw.board_id ≡ c.board_id

  found_claims :
      (raw : RawClaims) (exp : ℤ) (audience : List Name) (permissions : Permissions)
      → IsCurrent libs raw.expires_at exp
      → has_claims libs raw ≡ true
      → raw.issuer ≡ v.issuer
      → IsMeant libs v.audience raw.audience audience
      → read_permissions libs raw.permissions ≡ ok permissions
      → HasClaims raw (claims_of raw exp audience permissions)
  unfolding has_claims
  found_claims raw exp audience permissions t g i m p =
      let (a, (b, (c, d))) =
        all_off (is_blank libs raw.subject) (is_blank libs raw.name) (is_blank libs raw.team_id)
          (is_blank libs raw.board_id) (is_nothing raw.permissions) g in
      record {
        current = t;
        subject_given = a;
        name_given = b;
        team_id_given = c;
        board_id_given = d;
        issued = i;
        meant = m;
        permitted = read_permissions-Means libs trim_law raw.permissions permissions p;
        subject = refl;
        name = refl;
        issuer = refl;
        team_id = refl;
        board_id = refl;
      }

  HasClaims-has_claims :
      (raw : RawClaims) (c : Claims) → HasClaims raw c → has_claims libs raw ≡ true
  unfolding has_claims
  HasClaims-has_claims raw c h =
      rw
        (
          has_claims,
          h.subject_given,
          h.name_given,
          h.team_id_given,
          h.board_id_given,
          Means-set libs trim_law raw.permissions c.permissions h.permitted,
        )
        refl

  check_claims-HasClaims :
      (raw : RawClaims) (c : Claims) → check_claims libs v raw ≡ ok c → HasClaims raw c
  unfolding check_claims
  check_claims-HasClaims raw c h =
      let (exp, (e1, h1)) = >>=-ok (check_time libs raw.expires_at) _ c h in
      let (x, (e2, h2)) = >>=-ok (guard (has_claims libs raw) bad_missing_claim) _ c h1 in
      let (y, (e3, h3)) = >>=-ok (guard (same_name raw.issuer v.issuer) bad_issuer) _ c h2 in
      let (audience, (e4, h4)) = >>=-ok (check_audience libs v.audience raw.audience) _ c h3 in
      let (permissions, (e5, h5)) = >>=-ok (read_permissions libs raw.permissions) _ c h4 in
      let same : claims_of raw exp audience permissions ≡ c = cc h5 in
      subst (HasClaims raw) same (
        found_claims raw exp audience permissions (check_time-IsCurrent libs raw.expires_at exp e1)
          (guard_on (has_claims libs raw) bad_missing_claim x e2)
          (same_name→eq raw.issuer v.issuer
            (guard_on (same_name raw.issuer v.issuer) bad_issuer y e3))
          (check_audience-IsMeant libs v.audience raw.audience audience e4) e5)

  HasClaims-check_claims :
      (raw : RawClaims) (c : Claims)
      → IsUnquoting libs
      → HasClaims raw c
      → check_claims libs v raw ≡ ok c
  unfolding check_claims
  HasClaims-check_claims raw c law h =
      let issued : same_name raw.issuer v.issuer ≡ true =
        rw (h.issuer, h.issued) (same_name_refl v.issuer) in
      rw
        (
          check_claims,
          IsCurrent-check_time libs raw.expires_at c.expires_at h.current,
          HasClaims-has_claims raw c h,
          issued,
          IsMeant-check_audience libs v.audience raw.audience c.audience h.meant,
          Means-read_permissions libs trim_law raw.permissions c.permissions law h.permitted,
        )
        (simp (h.subject, h.name, h.issuer, h.team_id, h.board_id) refl)

  -- A token that Validate should accept, with the claims that it says.
  pub record IsAccepted (token : Name) (c : Claims) : Type 0 where
    pub parts : Parts
    pub in_three :
        split (libs.trim.trim_space token) ≡ parts.header ∷ parts.payload ∷ parts.signature ∷ []
    pub signed : IsSigned libs v.secret parts
    pub raw : RawClaims
    pub payload_bytes : Name
    pub payload_read : libs.decode parts.payload ≡ some payload_bytes
    pub claims_read : libs.json_claims payload_bytes ≡ some raw
    pub claims : HasClaims raw c

  not_blank :
      (token : Name) (a b d : Name) (texts : List Name)
      → split (libs.trim.trim_space token) ≡ a ∷ b ∷ d ∷ texts
      → is_blank libs token ≡ false
  unfolding split
  not_blank token a b d texts h = go (libs.trim.trim_space token) h
    where
      go : (text : Name) → split text ≡ a ∷ b ∷ d ∷ texts → is_empty text ≡ false
      go [] h = absurd (cc h)
      go (c ∷ text) h = refl

  pub validate-IsAccepted :
      (token : Name) (c : Claims) → validate libs v token ≡ ok c → IsAccepted token c
  unfolding validate read_claims
  validate-IsAccepted token c h =
      let (x, (e1, h1)) = >>=-ok (guard (not (is_blank libs token)) bad_token) _ c h in
      let (parts, (e2, h2)) = >>=-ok (three_parts (split (libs.trim.trim_space token))) _ c h1 in
      let (y, (e3, h3)) = >>=-ok (check_header libs v.secret parts) _ c h2 in
      let (raw, (e4, h4)) = >>=-ok (read_claims libs parts.payload) _ c h3 in
      let (bytes, (e5, h5)) = >>=-ok (from_option bad_token (libs.decode parts.payload)) _ raw e4 in
      record {
        parts = parts;
        in_three = three_parts-ok (split (libs.trim.trim_space token)) parts e2;
        signed = check_header-IsSigned libs v.secret parts y e3;
        raw = raw;
        payload_bytes = bytes;
        payload_read = from_option-some bad_token (libs.decode parts.payload) bytes e5;
        claims_read = from_option-some bad_token (libs.json_claims bytes) raw h5;
        claims = check_claims-HasClaims raw c h4;
      }

  IsAccepted-validate :
      (token : Name) (c : Claims)
      → IsUnquoting libs
      → IsAccepted token c
      → validate libs v token ≡ ok c
  unfolding validate read_claims
  IsAccepted-validate token c law a =
      let p = a.parts in
      rw
        (
          validate,
          not_blank token p.header p.payload p.signature [] a.in_three,
          a.in_three,
          IsSigned-check_header libs v.secret p a.signed,
          read_claims,
          a.payload_read,
          a.claims_read,
        )
        (HasClaims-check_claims a.raw c law a.claims)

  -- Validate returns claims exactly for the tokens of three parts whose header says HS256, whose
  -- signature verifies, and whose payload is read as claims: a subject, a name, a team and a board
  -- that are not blank, a time of expiry that is to come, the issuer, an audience that names the
  -- validator's, and permissions that are given and read; and it returns those claims, with that
  -- time, that audience, and the four permissions and the names that were presented. A second trim
  -- changes nothing, and json.Unmarshal and TrimSpace keep to UTF-8.
  pub validate_iff_IsAccepted :
      (token : Name) (c : Claims)
      → IsUnquoting libs
      → (validate libs v token ≡ ok c) ↔ IsAccepted token c
  validate_iff_IsAccepted token c law =
      (validate-IsAccepted token c, IsAccepted-validate token c law)
