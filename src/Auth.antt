-- ===== src/Auth.antt =====
-- auth/auth.go: the key that callers of the internal API present.
use boltcard.Prelude.{
  ℕ, ◌+◌, ◌≤◌, ◌≡◌, ◌↔◌, refl, Bool, true, false, ◌&&◌, not, [], ◌∷◌, ltb, leb, if◌then◌else◌,
  length, take, drop, arith,
}
use boltcard.Text.{Text, codes, text_eq, text_eq_iff, text_eq_refl, trim_space}
use boltcard.Http.{Request, get_header}
use boltcard.Db.Schema.{Db}
use boltcard.Db.Monad.{Result, ok, M, pure, continue, ◌>>=◌}
use boltcard.Db.Settings.{get_setting}

abbrev pub min_key_length : ℕ
min_key_length = 16

-- `env` is the value of INTERNAL_API_KEY in the environment, empty where there is none.
unfoldable pub internal_api_key : Text → M Text
unfolding text_eq trim_space
internal_api_key env =
    if not (text_eq (trim_space env) [])
    then pure (trim_space env)
    else do value ← get_setting "INTERNAL_API_KEY"; pure (trim_space value)

abbrev pub scheme : Text
scheme = codes "bearer "

-- No letter of the scheme folds to one beyond ASCII.
unfoldable pub lower : Text → Text
lower [] = []
lower (c ∷ s) = (if leb b'A' c && leb c b'Z' then c + 32 else c) ∷ lower s

unfoldable pub request_token : Request → Text
unfolding text_eq trim_space lower get_header
request_token r =
    let header = trim_space (get_header "Authorization" r) in
    if not (text_eq header [])
    then if ltb (length scheme) (length header)
        && text_eq (lower (take (length scheme) header)) (lower scheme)
      then trim_space (drop (length scheme) header)
      else []
    else trim_space (get_header "X-Api-Key" r)

unfoldable pub token_valid : Text → Text → Bool
unfolding text_eq
token_valid configured_key presented_key =
    if ltb (length configured_key) min_key_length
    then false
    else if text_eq presented_key []
    then false
    else text_eq configured_key presented_key

-- Whether the handler runs. Where it does not, the answer is 401.
unfoldable pub require_internal_api_key : Text → Request → M Bool
unfolding internal_api_key
require_internal_api_key env r = do
  configured_key ← internal_api_key env
  if ltb (length configured_key) min_key_length
      then pure false
      else pure (token_valid configured_key (request_token r))

token_valid_iff :
    (configured presented : Text)
    → (token_valid configured presented ≡ true)
      ↔ ((min_key_length ≤ length configured) × (presented ≡ configured))
unfolding token_valid
token_valid_iff configured presented = (
  λ e. (ground arith, ground (arith, text_eq_iff configured presented)),
  λ (long, same). valid long same,
)
  where
    valid :
        min_key_length ≤ length configured
        → presented ≡ configured
        → token_valid configured presented ≡ true
    valid long same = rw same (ground (arith, text_eq_refl configured, text_eq_iff configured []))

answered :
    (key : Text) (r : Request) (result : Result Text) (db : Db)
    → result ≡ ok key
    → ((continue result
          (λ configured_key.
            if ltb (length configured_key) min_key_length
            then pure false
            else pure (token_valid configured_key (request_token r)))
          db).0
        ≡ ok true)
      ↔ ((min_key_length ≤ length key) × (request_token r ≡ key))
answered key r result db e =
    rw e (by_length (ltb (length key) min_key_length) refl (token_valid_iff key (request_token r)))
  where
    by_length :
        (short : Bool)
        → ltb (length key) min_key_length ≡ short
        → ((token_valid key (request_token r) ≡ true)
            ↔ ((min_key_length ≤ length key) × (request_token r ≡ key)))
        → (((if short then pure false else pure (token_valid key (request_token r))) db).0
            ≡ ok true)
          ↔ ((min_key_length ≤ length key) × (request_token r ≡ key))
    by_length true e' h = (λ f. absurd (cc), λ (long, same). absurd (ground arith))
    by_length false e' h = (λ f. h.0 (cc), λ q. rw (h.1 q) refl)

-- A handler of the internal API runs exactly for the callers that present the configured key, where
-- that is at least 16 bytes long.
pub require_internal_api_key_iff :
    (env : Text) (r : Request) (db : Db) (key : Text)
    → (internal_api_key env db).0 ≡ ok key
    → ((require_internal_api_key env r db).0 ≡ ok true)
      ↔ ((min_key_length ≤ length key) × (request_token r ≡ key))
unfolding require_internal_api_key
require_internal_api_key_iff env r db key e =
    answered key r (internal_api_key env db).0 (internal_api_key env db).1 e
