-- ===== src/Base/Results.antt =====
-- What a call of the library ends in: a value, one of its negative error codes, or a fault.
-- A fault is no result of the C function: it is a read outside the buffer or a failed assert.
use mathlib.Core.Path.{◌≡◌, refl}
use mathlib.Core.Bool.{Bool, true, false}

-- The members of `ngtcp2_lib_error` that the modelled functions return.
pub data LibError : Type 0 where
  invalid_argument unknown_pkt_type nobuf proto ack_frame stream_in_use frame_format : LibError
  required_transport_param malformed_transport_param nomem callback_failure : LibError
  stream_state stream_id_err final_offset_err flow_control stream_id_blocked : LibError
  stream_not_found invalid_state version_negotiation tls_handshake : LibError
  tls_fatal_alert_generated tls_fatal_alert_received : LibError

pub data Result {ℓ} (A : Type ℓ) : Type ℓ where
  ok : A → Result A
  err : LibError → Result A
  fault : Result A

infixl 5 ◌>>=◌ ◌>>◌
abbrev pub ◌>>=◌ {ℓ κ} : {A : Type ℓ} {B : Type κ} → Result A → (A → Result B) → Result B
ok a >>= f = f a
err e >>= f = err e
fault >>= f = fault

abbrev pub ◌>>◌ {ℓ} : {B : Type ℓ} → Result (Unit {0}) → Result B → Result B
m >> k = m >>= λ _. k

-- `if (!b) return e;`
abbrev pub guard : Bool → LibError → Result (Unit {0})
guard true e = ok tt
guard false e = err e

-- `assert(b);`
abbrev pub assert : Bool → Result (Unit {0})
assert true = ok tt
assert false = fault

-- What holds of a result that is no fault: `P` of the value, if there is one.
abbrev pub Ensures {ℓ} : {A : Type ℓ} → (A → Type 0) → Result A → Type 0
Ensures P (ok a) = P a
Ensures P (err e) = Unit {0}
Ensures P fault = ⊥

pub bind_assoc {ℓ} :
    {A B C : Type ℓ} (m : Result A) (f : A → Result B) (g : B → Result C)
    → (m >>= (λ a. f a >>= g)) ≡ ((m >>= f) >>= g)
bind_assoc (ok a) f g = refl
bind_assoc (err e) f g = refl
bind_assoc fault f g = refl

pub bind_same {ℓ} :
    {A B : Type ℓ} (m : Result A) (f g : A → Result B)
    → ((a : A) → f a ≡ g a)
    → (m >>= f) ≡ (m >>= g)
bind_same (ok a) f g h = h a
bind_same (err e) f g h = refl
bind_same fault f g h = refl
