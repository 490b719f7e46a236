-- ===== src/Lnurlp/Address.antt =====
-- What the answer for a lightning address says of the address.
use mathlib.Core.Option.{some-injective}
use mathlib.Core.Path.{subst}
use boltcard.Prelude.{
  ◌≡◌, refl, ◌++◌, Bool, true, false, [], ◌∷◌, Option, none, some, ◌==◌, arith, drop, if◌then◌else◌,
}
use boltcard.Text.{Text, codes, text_eq, text_eq_iff}
use boltcard.Text.Hex.{IsBytes}
use boltcard.Text.Json.{read_json_string, read_json_string-json_string}
use boltcard.Text.Runes.{IsAscii}
use boltcard.Text.Url.{
  path_escape, path_unescape, IsSegment, path_unescape-path_escape, path_escape-IsSegment,
}
use boltcard.Http.{Request}
use boltcard.Db.Schema.{Db, message}
use boltcard.Db.Monad.{ok, pure, ◌>>=◌}
use boltcard.Db.Settings.{get_setting}
use boltcard.Db.Cards.{get_card_count_for_name_lnurlp}
use boltcard.Db.Hoare.Post.{Post, Post-any, Post-pure, Post-bind, Post-ensure}
use boltcard.Lnurlp.{
  min_sendable_msat, max_sendable_msat, metadata_json, PayRequest, pay_request, response,
}

-- A reader of the first identifier of metadata.
unfoldable pub read_identifier : Text → Option Text
read_identifier metadata = read_json_string (drop 20 metadata)

ascii-IsBytes : (s : Text) → IsAscii s → IsBytes s
ascii-IsBytes [] h = tt
ascii-IsBytes (c ∷ s) h = (omega (arith, h.0), ascii-IsBytes s h.1)

append-IsAscii : (s t : Text) → IsAscii s → IsAscii t → IsAscii (s ++ t)
append-IsAscii [] t hs ht = ht
append-IsAscii (c ∷ s) t hs ht = (hs.0, append-IsAscii s t hs.1 ht)

read_identifier-metadata_json :
    (name domain : Text)
    → IsAscii name
    → IsAscii domain
    → read_identifier (metadata_json name domain) ≡ some (name ++ codes "@" ++ domain)
unfolding read_identifier metadata_json
read_identifier-metadata_json name domain hn hd =
    read_json_string-json_string (name ++ codes "@" ++ domain) _ (
      append-IsAscii (name ++ codes "@") domain
        (append-IsAscii name (codes "@") hn (omega arith, tt)) hd)

-- The metadata says the address, and the callback ends in a segment that says the name.
pub record SaysAddress (name domain : Text) (p : PayRequest) : Type 0 where
  pub identifier : read_identifier p.metadata ≡ some (name ++ codes "@" ++ domain)
  pub segment : Text
  pub callback_path : p.callback ≡ codes "https://" ++ domain ++ codes "/lnurlp/" ++ segment
  pub is_segment : IsSegment segment
  pub leads_back : path_unescape segment ≡ some name

abbrev says : Text → Text → PayRequest
says name domain = record {
  callback = codes "https://" ++ domain ++ codes "/lnurlp/" ++ path_escape name;
  max_sendable = max_sendable_msat;
  min_sendable = min_sendable_msat;
  metadata = metadata_json name domain;
}

says-SaysAddress :
    (name domain : Text)
    → IsAscii name
    → IsAscii domain
    → SaysAddress name domain (says name domain)
says-SaysAddress name domain hn hd = record {
  identifier = read_identifier-metadata_json name domain hn hd;
  segment = path_escape name;
  callback_path = refl;
  is_segment = path_escape-IsSegment name (ascii-IsBytes name hn);
  leads_back = path_unescape-path_escape name (ascii-IsBytes name hn);
}

module _ (name : Text) (r : Request) (hn : IsAscii name) (hh : IsAscii r.host) where
  pay_request-SaysAddress :
      (db : Db) → Post db (pay_request name r) (λ p _. SaysAddress name r.host p)
  unfolding pay_request
  pay_request-SaysAddress db = Post-bind (get_setting "HOST_DOMAIN") _ (Post-any _) λ domain _ _.
      Post-bind _ _ (Post-ensure (text_eq r.host domain) (message "wrong host domain")) λ _ _ same.
        Post-bind (get_card_count_for_name_lnurlp name) _ (Post-any _) λ count _ _.
          Post-bind _ _ (Post-ensure (count == 1) (message "not one enabled card with that name"))
            λ _ _ _. Post-pure (says name domain) (
              subst (λ d. SaysAddress name r.host (says name d))
                ((text_eq_iff r.host domain).0 same) (says-SaysAddress name r.host hn hh))

  pay_request-if :
      (b : Bool) (db : Db)
      → Post db
          (if b then (pay_request name r >>= λ p. pure (some p)) else pure none)
          (λ o _. (p : PayRequest) → o ≡ some p → SaysAddress name r.host p)
  pay_request-if true db = Post-bind (pay_request name r) _ (pay_request-SaysAddress db) λ p db' q.
      Post-pure (some p) λ p' e. subst (SaysAddress name r.host) (some-injective p p' e) q
  pay_request-if false db = Post-pure none λ p e. absurd (cc)

-- The answer for a lightning address says that address. Where the name and the host are ASCII, and
-- whatever the faults of the database: a reader of JSON finds name@host in the metadata of an
-- answer, whatever characters the name has, and the URL of its callback ends in one segment of a
-- path, which unescapes to the name.
pub response-SaysAddress :
    (name : Text) (r : Request) (p : PayRequest) (db : Db)
    → IsAscii name
    → IsAscii r.host
    → (response name r db).0 ≡ ok (some p)
    → SaysAddress name r.host p
unfolding response text_eq
response-SaysAddress name r p db hn hh e =
    (Post-bind (get_setting "FUNCTION_LNURLP") _ (Post-any _)
        λ value db1 _. pay_request-if name r hn hh (text_eq value (codes "ENABLE")) db1).at
      (some p) e p refl
