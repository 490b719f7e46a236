-- ===== src/Approve.antt =====
-- `approve_request` of approve_request.go: the public answer to an approval notification.
pub mod Blank
use boltcard.Prelude.{
  ℕ, ◌≡◌, refl, Bool, true, false, ◌||◌, List, [], ◌∷◌, String, ◌==◌, if◌then◌else◌, length,
}
use boltcard.Text.{Text, codes, text_eq}
use boltcard.Http.{Request, get_param}
use boltcard.Db.Schema.{message}
use boltcard.Db.Monad.{M, pure, ◌>>=◌, ◌>>◌}
use boltcard.Db.Approvals.{approve_payment_by_token}
use boltcard.Lnurlw.Tap.{ensure}

abbrev pub approval_token_length : ℕ
approval_token_length = 32

-- Y or N as the flag that is stored.
flag_of : Text → ℕ
unfolding text_eq
flag_of approve = if text_eq approve (codes "Y") then b'Y' else b'N'

-- Whether the payment was approved. An error is answered by `resp_err.Write`.
unfoldable pub approve_request : Request → M Bool
unfolding flag_of text_eq
approve_request req = do
  let approve = get_param "approve" req
  ensure (text_eq approve (codes "Y") || text_eq approve (codes "N"))
      (message "approve must be Y or N")
  let token = get_param "token" req
  ensure (length token == approval_token_length) (message "approval token is not the right length")
  answered ← approve_payment_by_token token (flag_of approve)
  ensure answered (message "no payment was awaiting approval for the token given")
  pure (text_eq approve (codes "Y"))
