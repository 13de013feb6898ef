-- ===== src/Common/Outcome.antt =====
-- What a C++ call may do to the object it runs on: return, throw, or leave defined behaviour.

-- The exceptions that the code throws, those of `std::stoi`, and what Poco throws for a socket that
-- cannot be opened or bound.
pub data Error : Type 0 where
  read_beyond_limit : Error
  packet_too_big : Error
  unknown_opcode : Error
  opcode_too_high : Error
  task_queue_full : Error
  invalid_argument : Error
  out_of_range : Error
  socket_error : Error

-- The state goes with an exception too: what was done before the throw stays done.
-- `fault` is undefined behaviour, such as an access out of bounds.
pub data Outcome {ℓ κ} (S : Type ℓ) (A : Type κ) : Type (ℓ ⊔ κ) where
  ok : A → S → Outcome S A
  throws : Error → S → Outcome S A
  fault : Outcome S A

abbrev pub Run {ℓ κ} : Type ℓ → Type κ → Type (ℓ ⊔ κ)
Run S A = S → Outcome S A

infixl 5 ◌>>=◌ ◌>>◌
abbrev pub ◌>>=◌ {ℓ κ μ} :
    {S : Type ℓ} {A : Type κ} {B : Type μ} → Run S A → (A → Run S B) → Run S B
◌>>=◌ m f s = elim (m s) [ ok a t ↦ f a t | throws e t ↦ throws e t | fault ↦ fault ]

abbrev pub ◌>>◌ {ℓ μ} : {S : Type ℓ} {B : Type μ} → Run S (Unit {0}) → Run S B → Run S B
m >> k = m >>= λ _. k

abbrev pub pure {ℓ κ} : {S : Type ℓ} {A : Type κ} → A → Run S A
pure a s = ok a s
