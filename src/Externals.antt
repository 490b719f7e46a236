-- ===== src/Externals.antt =====
-- What the service calls and does not implement: the AES block cipher, the CMAC of aead/cmac and
-- the invoice decoder of fiatjaf/ln-decodepay.
use boltcard.Prelude.{Option}
use boltcard.Prelude.Int.{ℤ}
use boltcard.Text.{Text}

-- The fields of `decodepay.Bolt11` that the code reads.
pub record Bolt11 : Type 0 where
  pub m_satoshi : ℤ
  pub expiry : ℤ
  pub payee : Text

-- A decoder that may also panic.
pub data Decoded : Type 0 where
  panics fails : Decoded
  returns : Bolt11 → Decoded

pub record Externals : Type 0 where
  -- the AES decryption of one block under a key
  pub decrypt_block : Text → Text → Text
  -- `cmac.Sum(msg, cipher, 16)` under a key, or its error
  pub cmac_sum : Text → Text → Option Text
  pub decodepay : Text → Decoded
