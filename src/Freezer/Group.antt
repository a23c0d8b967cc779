-- ===== src/Freezer/Group.antt =====
-- The payload of a transaction group: what `Put` writes of the values, and the walker's loop on it.
use grumble.Common.{
  ℕ, suc, ◌+◌, ◌^◌, ◌≤◌, ◌<◌, ◌≡◌, refl, ap, ◌∙◌, Bool, false, List, [], ◌∷◌, ◌++◌, append_assoc,
  append-nil, some, arith, length, Option-cases, inl, inr,
}
use grumble.Freezer.{
  TypeKind, code_of, kind_of, Value, decoded, Codec, LogTx, Written, written, refused, op_bytes,
  put_value, put_values, Ops, ended, cons_entry, read_value, read_ops, to_le, server_type,
  config_key_value_pair_type, ban_list_type, user_type, user_remove_type, channel_type,
  channel_remove_type,
}
use grumble.Freezer.Bytes.{read_le-to_le, read_full-append}

-- The values and the bytes that stand for them, one operation after the other.
pub data Encodes {M : Type 0} (codec : Codec M) : List (Value M) → List ℕ → Type 0 where
  done : Encodes codec [] []
  op :
      (v : Value M) (buf : List ℕ) (vs : List (Value M)) (bytes : List ℕ)
      → codec.marshal v.kind v.body ≡ some buf
      → length buf ≤ 65535
      → Encodes codec vs bytes
      → Encodes codec (v ∷ vs) (op_bytes v.kind buf ++ bytes)

-- What the transaction is after puts, from what it was before.
pub record Extends {M : Type 0} (codec : Codec M) (vs : List (Value M)) (before after : LogTx)
    : Type 0 where
  pub bytes : List ℕ
  pub encodes : Encodes codec vs bytes
  pub same_buf : after.buf ≡ before.buf ++ bytes
  pub same_ops : after.numops ≡ before.numops + length vs
  pub few_ops : before.numops ≤ 256 → after.numops ≤ 256

put_one :
    {M : Type 0} (codec : Codec M) (v : Value M) (before after : LogTx)
    → put_value codec v before ≡ written after
    → (buf : List ℕ) × ((codec.marshal v.kind v.body ≡ some buf)
        × ((length buf ≤ 65535)
            × ((before.numops ≤ 255)
                × (after ≡ record {
                  buf = before.buf ++ op_bytes v.kind buf;
                  numops = before.numops + 1;
                }))))
unfolding put_value
put_one codec v before after h = elim (Option-cases (codec.marshal v.kind v.body)) [
  | inl e ↦ ground arith
  | inr (buf, e) ↦ (buf, (e, ground arith))
]

put_first :
    {M : Type 0} (codec : Codec M) (v : Value M) (vs : List (Value M)) (before mid after : LogTx)
    → ((buf : List ℕ) × ((codec.marshal v.kind v.body ≡ some buf)
          × ((length buf ≤ 65535)
              × ((before.numops ≤ 255)
                  × (mid ≡ record {
                    buf = before.buf ++ op_bytes v.kind buf;
                    numops = before.numops + 1;
                  })))))
    → Extends codec vs mid after
    → Extends codec (v ∷ vs) before after
put_first codec v vs before mid after (buf, (m, (l, (o, e)))) r = record {
  bytes = op_bytes v.kind buf ++ r.bytes;
  encodes = op v buf vs r.bytes m l r.encodes;
  same_buf =
      r.same_buf
      ∙ ap (λ (t : LogTx). t.buf ++ r.bytes) e
      ∙ append_assoc before.buf (op_bytes v.kind buf) r.bytes;
  same_ops = omega (arith, r.same_ops, ap (λ (t : LogTx). t.numops) e);
  few_ops = λ p. r.few_ops (omega (arith, ap (λ (t : LogTx). t.numops) e));
}

pub put_values-Extends :
    {M : Type 0} (codec : Codec M) (vs : List (Value M)) (before after : LogTx)
    → put_values codec vs before ≡ written after
    → Extends codec vs before after
unfolding put_values
put_values-Extends codec [] before after h =
    let e : before ≡ after = cc h in
    record {
      bytes = [];
      encodes = done;
      same_buf = rw (append-nil, e) refl;
      same_ops = rw e (omega arith);
      few_ops = λ p. rw (← e) p;
    }
put_values-Extends codec (v ∷ vs) before after h =
    go (put_value codec v before) refl h (λ mid. put_values-Extends codec vs mid after)
  where
    go :
        (w : Written)
        → put_value codec v before ≡ w
        → (elim w as (λ _. Written) [
          | written mid ↦ put_values codec vs mid
          | refused e ↦ refused e
        ])
          ≡ written after
        → ((mid : LogTx) → put_values codec vs mid ≡ written after → Extends codec vs mid after)
        → Extends codec (v ∷ vs) before after
    go (refused e) p h rec = absurd (cc h)
    go (written mid) p h rec =
        put_first codec v vs before mid after (put_one codec v before mid p) (rec mid h)

kind_of-code_of : (kind : TypeKind) → kind_of (code_of kind) ≡ some kind
unfolding kind_of
kind_of-code_of server_type = refl
kind_of-code_of config_key_value_pair_type = refl
kind_of-code_of ban_list_type = refl
kind_of-code_of user_type = refl
kind_of-code_of user_remove_type = refl
kind_of-code_of channel_type = refl
kind_of-code_of channel_remove_type = refl

pub code_of-lt : (kind : TypeKind) → code_of kind < 7
code_of-lt server_type = omega arith
code_of-lt config_key_value_pair_type = omega arith
code_of-lt ban_list_type = omega arith
code_of-lt user_type = omega arith
code_of-lt user_remove_type = omega arith
code_of-lt channel_type = omega arith
code_of-lt channel_remove_type = omega arith

-- What the code relies on: a message that was marshalled is unmarshalled to itself.
pub record IsCodec {M : Type 0} (codec : Codec M) : Type 0 where
  pub unmarshal_marshal :
      (kind : TypeKind) (m : M) (buf : List ℕ)
      → codec.marshal kind m ≡ some buf
      → codec.unmarshal kind buf ≡ decoded m
  pub crc-lt : (bytes : List ℕ) → codec.crc bytes < 2 ^ 32

-- One operation, whatever stands behind it.
pub read_ops-op_bytes :
    {M : Type 0} (codec : Codec M) (n : ℕ) (kind : TypeKind) (buf file : List ℕ) (eof : Bool)
    → length buf ≤ 65535
    → read_ops codec (suc n) (op_bytes kind buf ++ file) eof
      ≡ read_value codec (code_of kind) buf (read_ops codec n file)
unfolding read_ops op_bytes
read_ops-op_bytes codec n kind buf file eof l =
    let c = code_of-lt kind in
    let parts : op_bytes kind buf ++ file
        ≡ to_le 2 (code_of kind) ++ (to_le 2 (length buf) ++ (buf ++ file)) =
      append_assoc (to_le 2 (code_of kind)) (to_le 2 (length buf) ++ buf) file
      ∙ ap (◌++◌ (to_le 2 (code_of kind))) (append_assoc (to_le 2 (length buf)) buf file) in
    rw
      (
        parts,
        read_ops,
        read_le-to_le 2 (code_of kind) (to_le 2 (length buf) ++ (buf ++ file)) (omega arith),
        read_le-to_le 2 (length buf) (buf ++ file) (omega arith),
        read_full-append buf file,
      )
      refl

pub read_value_known :
    {M : Type 0} (codec : Codec M) (v : Value M) (buf : List ℕ) (next_ops : Bool → Ops M)
    → IsCodec codec
    → codec.marshal v.kind v.body ≡ some buf
    → read_value codec (code_of v.kind) buf next_ops ≡ cons_entry v (next_ops false)
unfolding read_value
read_value_known codec v buf next_ops law m =
    rw (read_value, kind_of-code_of v.kind, law.unmarshal_marshal v.kind v.body buf m) refl

-- The walker's loop reads the operations of the values and nothing behind them.
pub read_ops-Encodes :
    {M : Type 0} (codec : Codec M) (vs : List (Value M)) (bytes rest : List ℕ)
    → IsCodec codec
    → Encodes codec vs bytes
    → read_ops codec (length vs) (bytes ++ rest) false ≡ ended vs rest false
unfolding read_ops
read_ops-Encodes codec _ _ rest law done = refl
read_ops-Encodes codec _ _ rest law (op v buf vs bytes m l r) =
    ap (λ file. read_ops codec (suc (length vs)) file false)
      (append_assoc (op_bytes v.kind buf) bytes rest)
    ∙ read_ops-op_bytes codec (length vs) v.kind buf (bytes ++ rest) false l
    ∙ read_value_known codec v buf (read_ops codec (length vs) (bytes ++ rest)) law m
    ∙ ap (cons_entry v) (read_ops-Encodes codec vs bytes rest law r)
