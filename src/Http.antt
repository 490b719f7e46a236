-- ===== src/Http.antt =====
-- What the handlers see of net/http: a request's host, caller, query parameters and headers.
use boltcard.Prelude.{List, [], ◌∷◌, String, str_eq, if◌then◌else◌}
use boltcard.Text.{Text}

pub record Request : Type 0 where
  pub host : Text
  pub remote_addr : Text
  pub params : List (String × Text)
  pub headers : List (String × Text)

-- The first value under a name, and the empty string where there is none.
unfoldable pub first_value : String → List (String × Text) → Text
first_value name [] = []
first_value name ((key, value) ∷ rest) = if str_eq key name then value else first_value name rest

-- `req.URL.Query().Get(name)`
unfoldable pub get_param : String → Request → Text
unfolding first_value
get_param name r = first_value name r.params

-- `req.Header.Get(name)`
unfoldable pub get_header : String → Request → Text
unfolding first_value
get_header name r = first_value name r.headers
