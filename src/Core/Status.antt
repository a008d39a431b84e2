-- ===== src/Core/Status.antt =====
-- Error codes and fallible results: include/minillm/core/status.h, src/core/status.cpp.
-- A `Status` is `Result` of nothing, and `std::expected<T, Status>` is `Result T`; the message
-- texts are dropped, the codes are kept.
use llmengine.Base.{Bool, false, inl, inr, refl, true, ◌≡◌, ◌⊎◌}

pub data ErrorCode : Type 0 where
  invalid_argument out_of_range shape_mismatch unsupported not_implemented : ErrorCode
  runtime_error internal_error io_error not_found type_error : ErrorCode

pub data Result {ℓ} (A : Type ℓ) : Type ℓ where
  ok : A → Result A
  err : ErrorCode → Result A

abbrev pub Status : Type 0
Status = Result (Unit {0})

-- `Status::make_ok`
abbrev pub make_ok : Status
make_ok = ok tt

-- `Status::ok`, `std::expected::has_value`
abbrev pub is_ok {ℓ} : {A : Type ℓ} → Result A → Bool
is_ok (ok a) = true
is_ok (err e) = false

-- `TRY_TENSOR`: go on with the value, or return the error.
infixl 5 ◌>>=◌ ◌>>◌
abbrev pub ◌>>=◌ {ℓ κ} : {A : Type ℓ} {B : Type κ} → Result A → (A → Result B) → Result B
ok a >>= f = f a
err e >>= f = err e

-- `TRY`
abbrev pub ◌>>◌ {ℓ} : {B : Type ℓ} → Status → Result B → Result B
m >> k = m >>= λ _. k

-- `if (!b) return e;`
abbrev pub guard : Bool → ErrorCode → Status
guard true e = ok tt
guard false e = err e

pub Status-cases : (s : Status) → (s ≡ make_ok) ⊎ ((e : ErrorCode) × (s ≡ err e))
Status-cases (ok tt) = inl refl
Status-cases (err e) = inr (e, refl)

pub Result-cases {ℓ} :
    {A : Type ℓ} (r : Result A) → ((a : A) × (r ≡ ok a)) ⊎ ((e : ErrorCode) × (r ≡ err e))
Result-cases (ok a) = inl (a, refl)
Result-cases (err e) = inr (e, refl)
