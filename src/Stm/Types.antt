-- ===== src/Stm/Types.antt =====
-- The enumerations of grt_types.h and stm-distrib.h, and the compile-time configuration.
use cluster_stm.Common.{Bool, true, false, ◌≡◌, refl, ◌⊎◌, inl, inr}

-- `grt_status_t`
pub data Status : Type 0 where
  succeed fail : Status

-- `grt_lock_type_t`
pub data LockType : Type 0 where
  read write : LockType

-- `stm_status_t`
pub data StmStatus : Type 0 where
  commit abort : StmStatus

-- `WRITE_BUFFERING`, `READ_VERSIONING` and `LATE_ACQUIRE`: defined or not.
pub record Config : Type 0 where
  pub write_buffering : Bool
  pub read_versioning : Bool
  pub late_acquire : Bool

-- The combinations that stm-distrib.h compiles.
pub record IsLegal (c : Config) : Type 0 where
  pub late_buffers : c.late_acquire ≡ true → c.write_buffering ≡ true
  pub late_unversioned : c.late_acquire ≡ true → c.read_versioning ≡ false

-- `type == WRITE`
abbrev pub is_write : LockType → Bool
is_write read = false
is_write write = true

abbrev pub succeeded : Status → Bool
succeeded succeed = true
succeeded fail = false

-- `status == COMMIT`
abbrev pub is_commit : StmStatus → Bool
is_commit commit = true
is_commit abort = false

-- How a call ends: with a result, by a failed `assert`, or by more rounds than the fuel allows.
pub data Run {ℓ} (A : Type ℓ) : Type ℓ where
  ok : A → Run A
  assert_failed : Run A
  out_of_fuel : Run A

infixl 5 ◌>>=◌
abbrev pub ◌>>=◌ {ℓ κ} : {A : Type ℓ} {B : Type κ} → Run A → (A → Run B) → Run B
ok a >>= f = f a
assert_failed >>= f = assert_failed
out_of_fuel >>= f = out_of_fuel

pub ok-injective {ℓ} : {A : Type ℓ} {a b : A} → ok a ≡ ok b → a ≡ b
ok-injective h = cc

-- Inversion of a bind that ends with a result.
module _ {ℓ κ} {A : Type ℓ} {B : Type κ} where
  pub >>=-eq-ok :
      (r : Run A) (next : A → Run B) {b : B}
      → r >>= next ≡ ok b
      → (a : A) × (r ≡ ok a) × (next a ≡ ok b)
  >>=-eq-ok out_of_fuel next stop = cc
  >>=-eq-ok assert_failed next stop = cc
  >>=-eq-ok (ok a) next stop = (a, refl, stop)

pub Status-cases : (s : Status) → (s ≡ succeed) ⊎ (s ≡ fail)
Status-cases succeed = inl refl
Status-cases fail = inr refl
