-- ===== src/Proxy/Options.antt =====
-- wn_curl_proxy of app/network_proxy.h.
use whitenoise_linux.Base.{
  List, [], ◌∷◌, Bytes, Bool, true, false, Option, none, some, ◌==◌, if◌then◌else◌, length,
}
use whitenoise_linux.Proxy.Credentials.{
  Authentication, anonymous, authenticated, invalid, wn_proxy_credentials,
}

-- The options of libcurl that are set, each with its value; NULL is `none`.
pub data Setting : Type 0 where
  proxy : Bytes → Setting
  socks5_hostname : Setting
  basic_authentication : Bool → Setting
  username password : Option Bytes → Setting
  no_proxy : Bytes → Setting

-- CURLcode: CURLE_OK, CURLE_BAD_FUNCTION_ARGUMENT, or the code of a curl_easy_setopt that failed.
pub data Code : Type 0 where
  ok bad_argument refused : Code

-- The settings in order, up to the first that curl_easy_setopt refuses: its code, and those made.
unfoldable pub set_all : (Setting → Bool) → List Setting → Code × List Setting
set_all accepts [] = (ok, [])
set_all accepts (s ∷ ss) =
    let rest = set_all accepts ss in if accepts s then (rest.0, s ∷ rest.1) else (refused, [])

abbrev pub is_authenticated : Authentication → Bool
is_authenticated authenticated = true
is_authenticated _ = false

abbrev pub settings : Bytes → Bool → Bytes → Bytes → List Setting
settings address known user secret =
    proxy address
    ∷ socks5_hostname
    ∷ basic_authentication known
    ∷ username (if known then some user else none)
    ∷ password (if known then some secret else none)
    ∷ no_proxy []
    ∷ []

abbrev pub address_of : Option Bytes → Bytes
address_of none = []
address_of (some a) = a

-- By what wn_proxy_credentials gave.
unfoldable pub with_credentials :
    (Setting → Bool) → Bytes → Authentication → Bytes → Bytes → Code × List Setting
with_credentials accepts address invalid user secret = (bad_argument, [])
with_credentials accepts address authenticated user secret =
    if length address == 0
    then (bad_argument, [])
    else set_all accepts (settings address true user secret)
with_credentials accepts address anonymous user secret =
    if length address == 0 then (ok, []) else set_all accepts (settings address false user secret)

-- wn_curl_proxy, over the three environment variables.
unfoldable pub wn_curl_proxy :
    (Setting → Bool) → Option Bytes → Option Bytes → Option Bytes → Code × List Setting
wn_curl_proxy accepts address user secret =
    let (kind, u, p) = wn_proxy_credentials user secret in
    with_credentials accepts (address_of address) kind u p
