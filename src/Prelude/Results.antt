-- ===== src/Prelude/Results.antt =====
-- Fallible code. An exception is its class: the text of the message is not modelled.
use mathlib.Core.Path.{◌≡◌, refl}
use mathlib.Core.Bool.{Bool, true, false}

pub data Error : Type 0 where
  value_error zero_division_error type_error index_error key_error overflow_error struct_error :
      Error
  bencode_decode_error bencode_encode_error : Error
  message_error protocol_error handshake_error peer_disconnected peer_timeout : Error
  storage_path_error dht_error invalid_torrent_error tracker_protocol_error unsafe_path_error :
      Error
  -- Not an exception of the program: a loop of a model that was given too few rounds.
  out_of_rounds : Error

pub data Result {ℓ} (T : Type ℓ) : Type ℓ where
  ok : (value : T) → Result T
  err : (raised : Error) → Result T

-- `if not test: raise error`
abbrev pub guard : Bool → Error → Result (Unit {0})
guard false error = err error
guard true error = ok tt

infixl 5 ◌>>=◌ ◌>>◌
abbrev pub ◌>>=◌ {ℓ κ} : {T : Type ℓ} {R : Type κ} → Result T → (T → Result R) → Result R
err error >>= next = err error
ok value >>= next = next value

abbrev pub ◌>>◌ {ℓ} : {R : Type ℓ} → Result (Unit {0}) → Result R → Result R
check >> rest = check >>= λ _. rest

-- What a chain that returns went through.
pub >>=-eq-ok {ℓ κ} :
    {T : Type ℓ} {R : Type κ} (first : Result T) (next : T → Result R) {result : R}
    → (first >>= next) ≡ ok result
    → (value : T) × (first ≡ ok value) × (next value ≡ ok result)
>>=-eq-ok (err error) next returned = cc
>>=-eq-ok (ok value) next returned = (value, refl, returned)

-- The next step of code that changes a state and may raise: an exception keeps the state.
abbrev pub and_then {ℓ κ μ} :
    {S : Type ℓ} {A : Type κ} {B : Type μ} → Result A × S → (A → S → Result B × S) → Result B × S
and_then (ok a, s) f = f a s
and_then (err e, s) f = (err e, s)

pub guard-eq-ok {ℓ} :
    {A : Type ℓ} (b : Bool) (e : Error) (m : Result A) {a : A}
    → (guard b e >> m) ≡ ok a
    → (b ≡ true) × (m ≡ ok a)
guard-eq-ok true e m h = (refl, h)
guard-eq-ok false e m h = cc
