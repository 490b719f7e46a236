-- ===== src/Ratelimit/Callers.antt =====
-- The keys that ratelimit/ratelimit.go tells callers apart by. `net.ParseIP` is the argument `is_ip`.
use boltcard.Prelude.{
  ℕ, suc, ◌+◌, ◌-◌, ◌≡◌, refl, ◌++◌, Bool, true, false, not, ◌&&◌, ◌||◌, [], ◌∷◌, Option, none,
  some, ◌==◌, ltb, arith, length, length-append, take, drop, get_or, if◌then◌else◌,
}
use boltcard.Prelude.Int.{ℤ, pos, negsuc}
use boltcard.Text.{Text, text_eq, trim_space}
use boltcard.Text.Split.{split, split-append, entry, entry-append}
use boltcard.Http.{Request, get_header}

-- The index of the first `c`, and of the last one.
first_index : ℕ → Text → Option ℕ
first_index c [] = none
first_index c (d ∷ s) =
    let later = first_index c s in
    if d == c then some 0 else elim later [ none ↦ none | some i ↦ some (suc i) ]

last_index : ℕ → Text → Option ℕ
last_index c [] = none
last_index c (d ∷ s) = elim (last_index c s) [
  | some i ↦ some (suc i)
  | none ↦ if d == c then some 0 else none
]

is_absent : Option ℕ → Bool
is_absent none = true
is_absent (some i) = false

-- A host without brackets, where the last colon is at `i`.
plain_host : ℕ → Text → Option Text
unfolding first_index is_absent
plain_host i s =
    if is_absent (first_index b':' (take i s))
      && is_absent (first_index b'[' s)
      && is_absent (first_index b']' s)
    then some (take i s)
    else none

-- A host in brackets, where the first closing one is at `end`.
bracketed_host : ℕ → Option ℕ → Text → Option Text
unfolding first_index is_absent
bracketed_host i none s = none
bracketed_host i (some end) s =
    if suc end == i
      && is_absent (first_index b'[' (drop 1 s))
      && is_absent (first_index b']' (drop (suc end) s))
    then some (take (end - 1) (drop 1 s))
    else none

host_before : Option ℕ → Text → Option Text
unfolding plain_host bracketed_host
host_before none s = none
host_before (some i) s =
    if get_or s 0 0 == b'[' then bracketed_host i (first_index b']' s) s else plain_host i s

-- The host of `net.SplitHostPort`.
unfoldable pub split_host : Text → Option Text
unfolding host_before last_index
split_host s = host_before (last_index b':' s) s

or_self : Text → Option Text → Text
or_self s none = s
or_self s (some host) = host

unfoldable pub client_key : Request → Text
unfolding split_host or_self
client_key r = or_self r.remote_addr (split_host r.remote_addr)

-- The entry of the caller, where `n` proxies have each appended one.
unfoldable pub forwarded_address : ℕ → Text → Text
forwarded_address n forwarded_for =
    let addresses = split b',' forwarded_for in
    trim_space (entry (if ltb (length addresses) n then 0 else length addresses - n) addresses)

client_keys : (r r' : Request) → r.remote_addr ≡ r'.remote_addr → client_key r ≡ client_key r'
unfolding client_key
client_keys r r' same = rw same refl

index_behind : (a n : ℕ) → (if ltb (a + n) n then 0 else a + n - n) ≡ a
index_behind a n = ground arith

-- Behind the entries of `n` proxies, the address is the first of those.
address_of_proxies :
    (n : ℕ) (claimed appended : Text)
    → length (split b',' appended) ≡ n
    → forwarded_address n (claimed ++ b',' ∷ appended) ≡ trim_space (entry 0 (split b',' appended))
unfolding forwarded_address
address_of_proxies n claimed appended count =
    let before = length (split b',' claimed) in
    let same : (if ltb (before + n) n then 0 else before + n - n) ≡ before =
      index_behind before n in
    rw
      (
        split-append b',' claimed appended,
        length-append (split b',' claimed) (split b',' appended),
        count,
        same,
        entry-append (split b',' claimed) (split b',' appended),
      )
      refl

not_empty : (s t : Text) → text_eq (s ++ b',' ∷ t) [] ≡ false
unfolding text_eq
not_empty [] t = refl
not_empty (c ∷ s) t = refl

unfoldable pub client_key_behind_proxies : (Text → Bool) → Request → ℤ → Text
unfolding text_eq
client_key_behind_proxies is_ip r (negsuc n) = client_key r
client_key_behind_proxies is_ip r (pos n) =
    let forwarded_for = get_header "X-Forwarded-For" r in
    let address = forwarded_address n forwarded_for in
    if ltb n 1 || text_eq forwarded_for [] || not (is_ip address) then client_key r else address

key_of_proxies :
    (is_ip : Text → Bool) (r : Request) (n : ℕ) (claimed appended : Text)
    → length (split b',' appended) ≡ n
    → get_header "X-Forwarded-For" r ≡ claimed ++ b',' ∷ appended
    → client_key_behind_proxies is_ip r (pos n) ≡ (
        let address = trim_space (entry 0 (split b',' appended)) in
        if ltb n 1 || false || not (is_ip address) then client_key r else address)
unfolding client_key_behind_proxies
key_of_proxies is_ip r n claimed appended count h =
    rw (h, not_empty claimed appended, address_of_proxies n claimed appended count) refl

-- What a caller writes in the header itself is not looked at. Behind `n` trusted proxies, at least
-- one, that have appended `n` entries to X-Forwarded-For, two requests with the same entries of
-- the proxies from the same address have the same key, whatever their callers have put in front.
pub client_key_ignores_claims :
    (is_ip : Text → Bool) (r r' : Request) (n : ℕ) (claimed claimed' appended : Text)
    → length (split b',' appended) ≡ n
    → get_header "X-Forwarded-For" r ≡ claimed ++ b',' ∷ appended
    → get_header "X-Forwarded-For" r' ≡ claimed' ++ b',' ∷ appended
    → r.remote_addr ≡ r'.remote_addr
    → client_key_behind_proxies is_ip r (pos n) ≡ client_key_behind_proxies is_ip r' (pos n)
client_key_ignores_claims is_ip r r' n claimed claimed' appended count h h' same =
    rw
      (
        key_of_proxies is_ip r n claimed appended count h,
        key_of_proxies is_ip r' n claimed' appended count h',
        client_keys r r' same,
      )
      refl
