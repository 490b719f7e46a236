-- ===== src/Lnurlw.antt =====
-- The package lnurlw: the tap of a card at a point of sale (lnurlw_request.go) and the payment of
-- the invoice that follows (lnurlw_callback.go).
pub mod Tap
pub mod Request
pub mod Callback
pub mod Approval
