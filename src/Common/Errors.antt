-- ===== src/Common/Errors.antt =====
-- src/common/store_errors.go, and what a Go function returns: a value, an `error`, or a panic.
use babble.Base.{ℕ, String, Bool, true, false, ◌≡◌, refl, ℤ, Option, none, some, ◌⊎◌, inl, inr}

-- The key of a `StoreErr`: a text, or a number that `strconv.Itoa` or `fmt.Sprint` prints.
pub data Label : Type 0 where
  text : String → Label
  number : ℤ → Label
  id : ℕ → Label

-- The data type of a `StoreErr`: a cache's name, or `name[key]` for one index of a map.
pub data Name : Type 0 where
  base : String → Name
  item : Name → ℕ → Name

pub data StoreErrType : Type 0 where
  key_not_found too_late skipped_index unknown_participant empty key_already_exists : StoreErrType

pub record StoreErr : Type 0 where
  pub data_type : Name
  pub err_type : StoreErrType
  pub key : Label

-- The `error` values of the modelled packages: a `StoreErr`, a `SelfParentError` (a message and
-- whether it is normal), and one made by `fmt.Errorf`.
pub data Error : Type 0 where
  store : StoreErr → Error
  self_parent : String → Bool → Error
  message : String → Error

pub data Result {ℓ} (A : Type ℓ) : Type ℓ where
  ok : A → Result A
  err : Error → Result A
  panic : Result A

infixl 5 ◌>>=◌ ◌>>◌
abbrev pub ◌>>=◌ {ℓ κ} : {A : Type ℓ} {B : Type κ} → Result A → (A → Result B) → Result B
ok a >>= f = f a
err e >>= f = err e
panic >>= f = panic

abbrev pub ◌>>◌ {ℓ κ} : {A : Type ℓ} {B : Type κ} → Result A → Result B → Result B
m >> k = m >>= λ _. k

abbrev pub new_store_err : Name → StoreErrType → Label → Error
new_store_err d t k = store (record { data_type = d; err_type = t; key = k })

abbrev pub is_type : StoreErrType → StoreErrType → Bool
is_type key_not_found key_not_found = true
is_type too_late too_late = true
is_type skipped_index skipped_index = true
is_type unknown_participant unknown_participant = true
is_type empty empty = true
is_type key_already_exists key_already_exists = true
is_type _ _ = false

-- `IsStore`: the error is a `StoreErr` with the code.
abbrev pub is_store : Error → StoreErrType → Bool
is_store (store e) t = is_type e.err_type t
is_store _ t = false

abbrev pub or_err {ℓ} : {A : Type ℓ} → Option A → Error → Result A
or_err none e = err e
or_err (some a) e = ok a

pub Result-cases {ℓ} :
    {A : Type ℓ} (r : Result A) → ((a : A) × (r ≡ ok a)) ⊎ ((e : Error) × (r ≡ err e)) ⊎ (r ≡ panic)
Result-cases (ok a) = inl (a, refl)
Result-cases (err e) = inr (inl (e, refl))
Result-cases panic = inr (inr refl)
