-- ===== src/Proxy/Closed.antt =====
-- wn_curl_proxy of app/network_proxy.h never dials directly by mistake.
use whitenoise_linux.Base.{
  ◌<◌, List, [], ◌∷◌, Bytes, Bool, true, false, Option, none, some, ◌==◌, length, ◌≡◌, ◌≢◌, refl,
  ap, arith, ◌⊎◌, inl, inr, Bool-cases,
}
use whitenoise_linux.Proxy.Credentials.{
  Authentication, anonymous, authenticated, invalid, wn_proxy_credentials,
}
use whitenoise_linux.Proxy.Options.{
  Setting, proxy, socks5_hostname, basic_authentication, username, password, no_proxy, ok, set_all,
  settings, address_of, with_credentials, wn_curl_proxy,
}

set_all-ok :
    (accepts : Setting → Bool) (ss : List Setting)
    → (set_all accepts ss).0 ≡ ok
    → (set_all accepts ss).1 ≡ ss
unfolding set_all
set_all-ok accepts [] e = refl
set_all-ok accepts (s ∷ ss) e = elim (Bool-cases (accepts s)) [
  | inl yes_set ↦ rw yes_set (ap (◌∷◌ s) (set_all-ok accepts ss (rw yes_set at e)))
  | inr refusal ↦ cc (rw refusal at e)
]

-- What libcurl must be told for the proxy: its address, that it is SOCKS5 with the name resolved at its
-- other end, its authentication with the name and the password or without either, and that no host is
-- exempt from it.
abbrev pub proxied : Bytes → Authentication → Bytes → Bytes → List Setting
proxied address authenticated user secret =
    proxy address
    ∷ socks5_hostname
    ∷ basic_authentication true
    ∷ username (some user)
    ∷ password (some secret)
    ∷ no_proxy []
    ∷ []
proxied address anonymous user secret =
    proxy address
    ∷ socks5_hostname
    ∷ basic_authentication false
    ∷ username none
    ∷ password none
    ∷ no_proxy []
    ∷ []
proxied address invalid user secret = []

-- A request goes out directly only without a proxy and without credentials, or through the proxy.
abbrev pub IsClosed : Bytes → Authentication → Bytes → Bytes → List Setting → Type 0
IsClosed address kind user secret made =
    ((length address ≡ 0) × (kind ≡ anonymous) × (made ≡ []))
    ⊎ ((0 < length address) × (kind ≢ invalid) × (made ≡ proxied address kind user secret))

with_credentials-IsClosed :
    (accepts : Setting → Bool) (address : Bytes) (kind : Authentication) (user secret : Bytes)
    → (with_credentials accepts address kind user secret).0 ≡ ok
    → IsClosed address kind user secret (with_credentials accepts address kind user secret).1
unfolding with_credentials
with_credentials-IsClosed accepts address invalid user secret e = cc
with_credentials-IsClosed accepts address authenticated user secret e =
    elim (Bool-cases (length address == 0)) [
      | inl empty ↦ cc (rw empty at e)
      | inr given ↦ rw given (
          inr (
            ground arith,
            λ h. cc,
            set_all-ok accepts (settings address true user secret) (rw given at e),
          ))
    ]
with_credentials-IsClosed accepts address anonymous user secret e =
    elim (Bool-cases (length address == 0)) [
      | inl empty ↦ rw empty (inl (ground arith, refl, refl))
      | inr given ↦ rw given (
          inr (
            ground arith,
            λ h. cc,
            set_all-ok accepts (settings address false user secret) (rw given at e),
          ))
    ]

-- When wn_curl_proxy returns CURLE_OK, either no proxy is named and no credentials are given and
-- nothing was set, or exactly these were set: the address of the proxy, SOCKS5 with the names resolved
-- by the proxy, its authentication (basic, with the name and the password, or none of them), and an
-- empty NO_PROXY; credentials that are not valid, or that stand without a proxy, stop the request.
pub wn_curl_proxy-IsClosed :
    (accepts : Setting → Bool) (address user secret : Option Bytes)
    → (wn_curl_proxy accepts address user secret).0 ≡ ok
    → let (kind, u, p) = wn_proxy_credentials user secret in
      IsClosed (address_of address) kind u p (wn_curl_proxy accepts address user secret).1
unfolding wn_curl_proxy
wn_curl_proxy-IsClosed accepts address user secret e =
    let (kind, u, p) = wn_proxy_credentials user secret in
    with_credentials-IsClosed accepts (address_of address) kind u p e
