-- ===== src/Crypto.antt =====
-- The package crypto (crypto/crypto.go). Random bytes come as an argument: `none` where `rand.Read`
-- fails.
use boltcard.Prelude.{Bool, ◌||◌, [], ◌∷◌, Option, none, some, ◌==◌, if◌then◌else◌, length, get_or}
use boltcard.Text.{Text, text_eq}
use boltcard.Text.Hex.{encode_to_string}
use boltcard.Externals.{Externals}

unfoldable pub create_k1 : Option Text → Option Text
unfolding encode_to_string
create_k1 none = none
create_k1 (some bytes) = some (encode_to_string bytes)

-- `aes.NewCipher` takes a key of 16, 24 or 32 bytes.
unfoldable pub is_aes_key : Text → Bool
is_aes_key key = length key == 16 || length key == 24 || length key == 32

-- One block in CBC mode with a zero initialisation vector is the block decryption. `ba_p` has 16
-- bytes wherever this is called.
unfoldable pub aes_decrypt : Externals → Text → Text → Option Text
aes_decrypt x key ba_p = if is_aes_key key then some (x.decrypt_block key ba_p) else none

-- The bytes at the odd places of a 16-byte tag.
unfoldable pub odd_bytes : Text → Text
odd_bytes cm =
    get_or cm 1 0
    ∷ get_or cm 3 0
    ∷ get_or cm 5 0
    ∷ get_or cm 7 0
    ∷ get_or cm 9 0
    ∷ get_or cm 11 0
    ∷ get_or cm 13 0
    ∷ get_or cm 15 0
    ∷ []

-- `none` is an error of `aes.NewCipher` or `cmac.Sum`.
sum_under : Externals → Text → Text → Option Text
unfolding is_aes_key
sum_under x key msg = if is_aes_key key then x.cmac_sum key msg else none

tag_matches : Option Text → Text → Option Bool
unfolding odd_bytes text_eq
tag_matches none ba_c = none
tag_matches (some cm) ba_c = some (text_eq (odd_bytes cm) ba_c)

under_session_key : Externals → Option Text → Text → Option Bool
unfolding sum_under tag_matches
under_session_key x none ba_c = none
under_session_key x (some ks) ba_c = tag_matches (sum_under x ks []) ba_c

unfoldable pub aes_cmac : Externals → Text → Text → Text → Option Bool
unfolding under_session_key sum_under
aes_cmac x key sv2 ba_c = under_session_key x (sum_under x key sv2) ba_c
