-- ===== src/Crypto/Params/Safety.antt =====
-- `decode_transport_params` on arbitrary bytes.
use ngtcp.Pkt.Safety.Step.{Ensures-bind, guard_bind}
use ngtcp.Crypto.Params.Checked.{Checked, SafeParams, decode_param_safe}
use ngtcp.Base.{
  leb, ◌==◌, leb→le, Bool-cases, length, drop, length-drop, drop-drop, ok, ◌>>=◌, ◌>>◌, Ensures, ℕ,
  zero, suc, ◌+◌, ◌*◌, ◌/◌, ◌≤◌, max, ◌≡◌, refl, ap, inl, inr, List, [], ◌∷◌, arith,
}
use ngtcp.Pkt.Cursor.{has_bit}
use ngtcp.Conv.{get_uint32, get_uint16}
use ngtcp.Conv.Read.{IsBytes, drop-IsBytes, be_value, get_be_lem, be_value_lt, peek_lem, vlen}
use ngtcp.Crypto.Params.{TransportParams}
use ngtcp.Crypto.Params.Decode.{
  well_formed, take_words, test_flag, Loop, decode_param, decode_params, decode_version,
  set_defaults, check_required, decode_transport_params,
}

decode_params_safe :
    (fuel exttype most : ℕ) (params : TransportParams) (flags : ℕ) (p : List ℕ)
    → exttype ≤ 2
    → length p ≤ fuel
    → Checked exttype most flags params
    → Ensures (λ s. Checked exttype most s.1 s.0) (decode_params fuel exttype (params, flags, p))
unfolding decode_params get_uint16
decode_params_safe zero exttype most params flags p small le c = ground arith
decode_params_safe (suc fuel) exttype most params flags p small le c =
    elim (Bool-cases (leb 4 (length p))) [
      | inr e ↦ rw e c
      | inl e ↦
          rw (e, get_be_lem 2 0 p (omega (arith, leb→le _ _ e)))
            (Ensures-bind (λ s. Checked exttype most s.1 s.0)
              (λ (s : Loop). (length s.2 + 2 ≤ length (drop 2 p)) × Checked exttype most s.1 s.0)
              (decode_param exttype (be_value 2 0 p) (params, flags, drop 2 p))
              (decode_params fuel exttype)
              (decode_param_safe exttype most small params flags (drop 2 p) c
                (omega (arith, length-drop 2 p, leb→le _ _ e)) (be_value 2 0 p))
              (λ s k.
                decode_params_safe fuel exttype most s.0 s.1 s.2 small
                  (omega (arith, k.0, length-drop 2 p)) k.1))
    ]

words_at : ℕ → List ℕ → List ℕ
words_at zero p = []
words_at (suc n) p = be_value 4 0 p ∷ words_at n (drop 4 p)

length-words_at : (n : ℕ) (p : List ℕ) → length (words_at n p) ≡ n
unfolding words_at
length-words_at zero p = refl
length-words_at (suc n) p = ap suc (length-words_at n (drop 4 p))

take_words_lem :
    (n : ℕ) (p : List ℕ) → n * 4 ≤ length p → take_words n p ≡ ok (words_at n p, drop (n * 4) p)
unfolding take_words words_at get_uint32
take_words_lem zero p h = refl
take_words_lem (suc n) p h =
    let e : suc n * 4 ≡ 4 + n * 4 = omega arith in
    rw
      (
        get_be_lem 4 0 p (omega arith),
        take_words_lem n (drop 4 p) (omega (arith, length-drop 4 p)),
        drop-drop 4 (n * 4) p,
        e,
      )
      refl

start-Checked :
    (exttype most : ℕ) (params : TransportParams)
    → length params.supported_versions ≤ most
    → Checked exttype most 0 params
unfolding test_flag has_bit
start-Checked exttype most params h = record {
  versions = h;
  exponent = λ e. cc;
  bidi = λ e. cc;
  uni = λ e. cc;
}

decode_version_safe :
    (exttype : ℕ) (params : TransportParams) (p : List ℕ)
    → IsBytes p
    → Ensures
        (λ a.
          (length a.0.supported_versions ≤ max 63 (length params.supported_versions))
          × (length a.2 ≤ length p))
        (decode_version exttype params p)
unfolding decode_version get_uint32
decode_version_safe exttype params p bytes = ground (
  arith,
  get_be_lem 4 0 p,
  peek_lem (drop 4 p),
  length-drop 4 p,
  length-drop 5 p,
  be_value_lt 1 0 (drop 4 p) (drop-IsBytes 4 p bytes),
  take_words_lem (be_value 1 0 (drop 4 p) / 4) (drop 5 p),
  length-drop ((be_value 1 0 (drop 4 p) / 4) * 4) (drop 5 p),
  length-words_at (be_value 1 0 (drop 4 p) / 4) (drop 5 p),
)

set_defaults-Checked :
    (exttype most flags : ℕ) (params : TransportParams)
    → Checked exttype most flags params
    → SafeParams exttype most (set_defaults flags params)
unfolding set_defaults
set_defaults-Checked exttype most flags params c =
    ground (arith, c.versions, c.exponent, c.bidi, c.uni)

module _ (exttype most : ℕ) (small : exttype ≤ 2) where
  -- What follows the loop.
  finish_safe :
      (s : Loop)
      → Checked exttype most s.1 s.0
      → Ensures
          (SafeParams exttype most)
          (do well_formed (length s.2 == 0); check_required exttype s.1; ok (set_defaults s.1 s.0))
  unfolding check_required
  finish_safe s c = ground (arith, set_defaults-Checked exttype most s.1 s.0 c)

  -- What follows the versions.
  list_safe :
      (vlen fuel destlen : ℕ) (params : TransportParams) (p : List ℕ)
      → length params.supported_versions ≤ most
      → length p ≤ fuel
      → Ensures (SafeParams exttype most) (do
        well_formed (leb 2 (length p))
        n ← get_uint16 p
        well_formed (vlen + 2 + n == destlen)
        (params, flags, p) ← decode_params fuel exttype (params, 0, drop 2 p)
        well_formed (length p == 0)
        check_required exttype flags
        ok (set_defaults flags params))
  unfolding get_uint16
  list_safe vlen fuel destlen params p few le = elim (Bool-cases (leb 2 (length p))) [
    | inr e ↦ rw e tt
    | inl e ↦
        rw (e, get_be_lem 2 0 p (leb→le _ _ e))
          (guard_bind (SafeParams exttype most) (vlen + 2 + be_value 2 0 p == destlen) _ _ (λ _.
            Ensures-bind (SafeParams exttype most) (λ s. Checked exttype most s.1 s.0)
              (decode_params fuel exttype (params, 0, drop 2 p)) _
              (decode_params_safe fuel exttype most params 0 (drop 2 p) small
                (omega (arith, length-drop 2 p)) (start-Checked exttype most params few))
              finish_safe))
  ]

-- On any bytes at all the decoder reads only inside them and fails no assertion: it refuses them
-- with an error, or the parameters that it gives back are good: at most 63 versions (or those the
-- struct had before), an exponent of at most 20, and stream IDs that are 0 or of the kind that the
-- message's sender may use.
pub decode_transport_params_safe :
    (params : TransportParams) (exttype : ℕ) (bytes : List ℕ)
    → exttype ≤ 2
    → IsBytes bytes
    → Ensures
        (SafeParams exttype (max 63 (length params.supported_versions)))
        (decode_transport_params params exttype bytes)
unfolding decode_transport_params
decode_transport_params_safe params exttype bytes small b =
    let most = max 63 (length params.supported_versions) in
    Ensures-bind (SafeParams exttype most)
      (λ a. (length a.0.supported_versions ≤ most) × (length a.2 ≤ length bytes))
      (decode_version exttype params bytes) _ (decode_version_safe exttype params bytes b)
      (λ a k. list_safe exttype most small a.1 (length bytes) (length bytes) a.0 a.2 k.0 k.1)
