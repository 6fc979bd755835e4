-- ===== src/Membership/Codec.antt =====
-- The codec of the control entries: what is encoded is decoded, and control entries are told apart.
use arbitro_raft.Base.{
  ℕ, ◌*◌, ◌^◌, ◌<◌, ◌≤◌, ◌≡◌, refl, ap, ◌∙◌, true, List, [], ◌∷◌, ◌++◌, none, some, length,
  length-append, arith,
}
use mathlib.Core.List.{append_assoc}
use arbitro_raft.Wire.Bytes.{to_le_bytes, read_le-to_le_bytes, length-to_le_bytes}
use arbitro_raft.Membership.{
  ConfigChangeEntry, ConfigChangePhase, joint, final, add_learner, remove_learner, ids_bytes,
  encode, read_ids, decode_peers, decode_lengths, config_change_magic, config_change_version,
  decode, is_noop_entry, phase_of, phase_code,
}

abbrev pub AllIds : List ℕ → Type 0
AllIds [] = Unit {0}
AllIds (p ∷ ps) = (p < 256 ^ 8) × AllIds ps

-- The identifiers fit a word, and the two lengths fit their fields.
pub record IsEncodable (e : ConfigChangeEntry) : Type 0 where
  pub olds : AllIds e.old_peers
  pub news : AllIds e.new_peers
  pub old_len : length e.old_peers < 256 ^ 4
  pub new_len : length e.new_peers < 256 ^ 4

length-ids_bytes : (ps : List ℕ) → length (ids_bytes ps) ≡ length ps * 8
unfolding ids_bytes
length-ids_bytes [] = refl
length-ids_bytes (p ∷ ps) = omega (
  arith,
  length-append (to_le_bytes 8 p) (ids_bytes ps),
  length-to_le_bytes 8 p,
  length-ids_bytes ps,
)

read_ids-ids_bytes :
    (ps rest : List ℕ) → AllIds ps → read_ids (length ps) (ids_bytes ps ++ rest) ≡ some (ps, rest)
unfolding read_ids ids_bytes
read_ids-ids_bytes [] rest f = refl
read_ids-ids_bytes (p ∷ ps) rest f = rw append_assoc (
    ground
      (arith, read_le-to_le_bytes 8 p (ids_bytes ps ++ rest) f.0, read_ids-ids_bytes ps rest f.1))

phase_of-phase_code : (p : ConfigChangePhase) → phase_of (phase_code p) ≡ some p
phase_of-phase_code joint = refl
phase_of-phase_code final = refl
phase_of-phase_code add_learner = refl
phase_of-phase_code remove_learner = refl

decode_peers-ids :
    (e : ConfigChangeEntry) (rest : List ℕ)
    → IsEncodable e
    → decode_peers e.phase
        (length e.old_peers)
        (length e.new_peers)
        (ids_bytes e.old_peers ++ (ids_bytes e.new_peers ++ rest))
      ≡ some e
unfolding decode_peers
decode_peers-ids e rest f =
    let olds = ids_bytes e.old_peers in
    let news = ids_bytes e.new_peers in
    ground (
      arith,
      read_ids-ids_bytes e.old_peers (news ++ rest) f.olds,
      read_ids-ids_bytes e.new_peers rest f.news,
      length-append olds (news ++ rest),
      length-append news rest,
      length-ids_bytes e.old_peers,
      length-ids_bytes e.new_peers,
    )

decode_lengths-encoded :
    (e : ConfigChangeEntry) (rest : List ℕ)
    → IsEncodable e
    → decode_lengths e.phase (
        to_le_bytes 4 (length e.old_peers)
        ++ (to_le_bytes 4 (length e.new_peers)
            ++ (ids_bytes e.old_peers ++ (ids_bytes e.new_peers ++ rest))))
      ≡ some e
unfolding decode_lengths
decode_lengths-encoded e rest f =
    let body = ids_bytes e.old_peers ++ (ids_bytes e.new_peers ++ rest) in
    let news = to_le_bytes 4 (length e.new_peers) ++ body in
    ground (
      arith,
      read_le-to_le_bytes 4 (length e.old_peers) news f.old_len,
      read_le-to_le_bytes 4 (length e.new_peers) body f.new_len,
      decode_peers-ids e rest f,
    )

-- Behind a sound header of four bytes the lengths and the peers decide.
decode_framed :
    (phase : ConfigChangePhase) (bytes : List ℕ)
    → 8 ≤ length bytes
    → decode (config_change_magic ∷ config_change_version ∷ phase_code phase ∷ 0 ∷ bytes)
      ≡ decode_lengths phase bytes
unfolding decode
decode_framed phase bytes h = ground (arith, phase_of-phase_code phase)

-- The bytes behind the header, with what follows the entry.
flat : (a b c d rest : List ℕ) → (a ++ (b ++ (c ++ d))) ++ rest ≡ a ++ (b ++ (c ++ (d ++ rest)))
flat a b c d rest = rw (append_assoc, append_assoc, append_assoc)

-- A control entry whose fields fit is decoded as it was encoded, whatever bytes follow it.
pub decode-encode :
    (e : ConfigChangeEntry) (rest : List ℕ) → IsEncodable e → decode (encode e ++ rest) ≡ some e
unfolding encode
decode-encode e rest f =
    let a = to_le_bytes 4 (length e.old_peers) in
    let b = to_le_bytes 4 (length e.new_peers) in
    let c = ids_bytes e.old_peers in
    let d = ids_bytes e.new_peers in
    let long : 8 ≤ length ((a ++ (b ++ (c ++ d))) ++ rest) = rw (flat a b c d rest) (
      omega (
        arith,
        length-append a (b ++ (c ++ (d ++ rest))),
        length-append b (c ++ (d ++ rest)),
        length-to_le_bytes 4 (length e.old_peers),
        length-to_le_bytes 4 (length e.new_peers),
      )) in
    decode_framed e.phase ((a ++ (b ++ (c ++ d))) ++ rest) long
    ∙ (ap (decode_lengths e.phase) (flat a b c d rest) ∙ decode_lengths-encoded e rest f)

-- The no-op entry is no configuration change: the decoder refuses it.
pub decode-noop : (payload : List ℕ) → is_noop_entry payload ≡ true → decode payload ≡ none
unfolding decode is_noop_entry
decode-noop [] h = refl
decode-noop (a ∷ []) h = refl
decode-noop (a ∷ b ∷ []) h = refl
decode-noop (a ∷ b ∷ c ∷ []) h = refl
decode-noop (a ∷ b ∷ c ∷ d ∷ bytes) h = ground arith
