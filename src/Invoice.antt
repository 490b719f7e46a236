-- ===== src/Invoice.antt =====
-- The package invoice (invoice/invoice.go): a panic of the decoder is an error, and so is an
-- invoice with no amount.
use boltcard.Prelude.{Option, none, some, if◌then◌else◌}
use boltcard.Prelude.Int.{pos, ltb_ℤ}
use boltcard.Text.{Text}
use boltcard.Externals.{Externals, Bolt11, Decoded, panics, fails, returns}

with_amount : Decoded → Option Bolt11
with_amount panics = none
with_amount fails = none
with_amount (returns b) = if ltb_ℤ (pos 0) b.m_satoshi then some b else none

unfoldable pub decode : Externals → Text → Option Bolt11
unfolding with_amount
decode x payment_request = with_amount (x.decodepay payment_request)
