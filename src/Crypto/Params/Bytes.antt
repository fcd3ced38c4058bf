-- ===== src/Crypto/Params/Bytes.antt =====
-- The bytes that `ngtcp2_encode_transport_params` writes, and how many they are.
use ngtcp.Pkt.Cursor.{encoded}
use ngtcp.Base.{
  leb, ◌==◌, if◌then◌else◌, eq→==, length, length-append, drop-append, take-all, nobuf, ok, err, ℕ,
  zero, suc, ◌+◌, ◌-◌, ◌*◌, ◌/◌, ◌%◌, ◌≤◌, ◌≡◌, refl, sym, Bool, true, false, not, ◌&&◌, List, [],
  ◌∷◌, ◌++◌, append_assoc, arith,
}
use ngtcp.Conv.{peek, put_uint16be, put_uint24be, put_uint32be}
use ngtcp.Conv.RoundTrip.{get_uint32-put_uint32be, length-put_uint16be}
use ngtcp.Crypto.Params.{TransportParams, client_hello, encrypted_extensions, new_session_ticket}
use ngtcp.Crypto.Params.Decode.{take_words, decode_version}
use ngtcp.Crypto.Params.Encode.{
  version_len, params_len, put_words, put_version, put_param_if, put_params,
  encode_transport_params,
}
use ngtcp.Crypto.Params.Steps.{
  length-put_param, length-put_uint16be-append, length-put_uint32be, length-put_ip,
}
use ngtcp.Crypto.Params.Written.{Words, IsSendable, sends_token}

take_words-put_words :
    (sv rest : List ℕ) → Words sv → take_words (length sv) (put_words sv ++ rest) ≡ ok (sv, rest)
unfolding take_words put_words
take_words-put_words [] rest h = refl
take_words-put_words (v ∷ sv) rest h =
    rw
      (
        append_assoc (put_uint32be v) (put_words sv) rest,
        get_uint32-put_uint32be v (put_words sv ++ rest) h.0,
        drop-append 4 (put_uint32be v) (put_words sv ++ rest) (sym (length-put_uint32be v)),
        take_words-put_words sv rest h.1,
      )
      refl

length-put_words : (sv : List ℕ) → length (put_words sv) ≡ length sv * 4
unfolding put_words
length-put_words [] = refl
length-put_words (v ∷ sv) = omega (
  arith,
  length-append (put_uint32be v) (put_words sv),
  length-put_uint32be v,
  length-put_words sv,
)

-- The versions as they are received.
unfoldable pub with_version : ℕ → TransportParams → TransportParams → TransportParams
with_version exttype base params = record base {
  version = if exttype == new_session_ticket then base.version else params.version;
  supported_versions =
      if exttype == encrypted_extensions
      then params.supported_versions
      else base.supported_versions;
}

pub decode_version-put_version :
    (exttype : ℕ) (params base : TransportParams) (rest : List ℕ)
    → IsSendable exttype params
    → decode_version exttype base (put_version exttype params ++ rest)
      ≡ ok (with_version exttype base params, version_len exttype params, rest)
unfolding decode_version put_version version_len with_version put_uint32be put_uint24be put_uint16be
    peek
decode_version-put_version zero params base rest c =
    rw (get_uint32-put_uint32be params.version rest c.version) (ground arith)
decode_version-put_version (suc zero) params base rest c =
    let n = length params.supported_versions in
    let small : n * 4 % 256 ≡ n * 4 = omega (arith, c.versions) in
    let all : (leb (n * 4) (length (put_words params.supported_versions ++ rest))
          && (n * 4 % 4 == 0))
        ≡ true =
      ground (
        arith,
        length-append (put_words params.supported_versions) rest,
        length-put_words params.supported_versions,
      ) in
    let quarter : n * 4 / 4 ≡ n = omega arith in
    rw
      (
        get_uint32-put_uint32be params.version
            ((n * 4 % 256 ∷ put_words params.supported_versions) ++ rest) c.version,
        small,
        all,
        quarter,
        take_words-put_words params.supported_versions rest c.words,
      )
      (ground arith)
decode_version-put_version (suc (suc zero)) params base rest c = refl
decode_version-put_version (suc (suc (suc n))) params base rest c = absurd (omega (arith, c.type))

length-put_param_if :
    (b : Bool) (type len : ℕ) (value : List ℕ)
    → length (put_param_if b type len value) ≡ (if b then 4 + length value else 0)
unfolding put_param_if
length-put_param_if true type len value = length-put_param type len value
length-put_param_if false type len value = refl

length-put_param_if-not :
    (b : Bool) (type len : ℕ) (value : List ℕ)
    → length (put_param_if (not b) type len value) ≡ (if b then 0 else 4 + length value)
length-put_param_if-not true type len value = length-put_param_if false type len value
length-put_param_if-not false type len value = length-put_param_if true type len value

module _ (exttype : ℕ) (params : TransportParams) (c : IsSendable exttype params) where
  pub length-put_version : length (put_version exttype params) ≡ version_len exttype params
  unfolding put_version version_len
  length-put_version = ground (
    arith,
    length-put_uint32be params.version,
    length-put_words params.supported_versions,
    length-append (put_uint32be params.version)
        ((length params.supported_versions * 4 % 256) ∷ put_words params.supported_versions),
  )

  token_len :
      ◌≡◌ {A = ℕ}
        (if sends_token exttype then 20 else 0)
        (if exttype == client_hello then 0 else 20)
  token_len = ground (arith, c.type)

  pub length-put_params :
      2 + version_len exttype params + length (put_params exttype params)
      ≡ params_len exttype params
  unfolding put_params params_len
  length-put_params =
      simp
        (
          length-append,
          length-put_param_if-not,
          length-put_param,
          length-put_param_if,
          length-put_uint32be,
          length-put_uint16be,
          length-put_ip,
          take-all 16 params.stateless_reset_token (omega (arith, c.token)),
          c.token,
          token_len,
        )
        (omega arith)

  pub params_len_le : params_len exttype params ≤ version_len exttype params + 95
  unfolding params_len
  params_len_le = ground arith

  -- The bytes of the parameters.
  unfoldable pub params_bytes : List ℕ
  params_bytes =
      put_version exttype params
      ++ (put_uint16be ((params_len exttype params - version_len exttype params - 2) % 65536)
          ++ put_params exttype params)

  pub length-params_bytes : length params_bytes ≡ params_len exttype params
  unfolding params_bytes
  length-params_bytes = omega (
    arith,
    length-put_params,
    length-put_version,
    length-append (put_version exttype params) (
        put_uint16be ((params_len exttype params - version_len exttype params - 2) % 65536)
        ++ put_params exttype params),
    length-put_uint16be-append
        ((params_len exttype params - version_len exttype params - 2) % 65536)
        (put_params exttype params),
  )

  pub encode_written :
      (destlen : ℕ)
      → encode_transport_params destlen exttype params
        ≡ (if leb (params_len exttype params) destlen then ok params_bytes else err nobuf)
  unfolding encode_transport_params encoded params_bytes
  encode_written destlen =
      rw (eq→== (length params_bytes) (params_len exttype params) length-params_bytes)
        (ground arith)
