-- ===== src/Base/Codes.antt =====
-- The return codes of the library: 0 or a value, or a negated error number.

-- EAGAIN, ENOMEM, EINVAL, ETIMEDOUT
pub data Errno : Type 0 where
  again nomem inval timedout : Errno

pub data Ret {ℓ} (A : Type ℓ) : Type ℓ where
  ok : A → Ret A
  err : Errno → Ret A
