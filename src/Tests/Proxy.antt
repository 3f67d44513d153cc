-- ===== src/Tests/Proxy.antt =====
-- Runs of app/proxy_credentials.h and app/network_proxy.h, and instances of their theorems.
use whitenoise_linux.Base.{[], ◌∷◌, Bool, true, false, some, codes, ◌≡◌, refl, arith, inl, inr}
use whitenoise_linux.Proxy.Credentials.{
  authenticated, valid_from, wn_proxy_credential_valid, wn_proxy_credentials,
}
use whitenoise_linux.Proxy.Scalars.{text, wn_proxy_credential_valid-text}
use whitenoise_linux.Proxy.Options.{Setting, ok, set_all, with_credentials, wn_curl_proxy}
use whitenoise_linux.Proxy.Closed.{IsClosed, wn_curl_proxy-IsClosed}

-- "é" and a surrogate.
accented : wn_proxy_credential_valid (195 ∷ 169 ∷ []) ≡ true
unfolding wn_proxy_credential_valid valid_from
accented = refl

surrogate : wn_proxy_credential_valid (237 ∷ 160 ∷ 128 ∷ []) ≡ false
unfolding wn_proxy_credential_valid valid_from
surrogate = refl

wn_proxy_credential_valid-text_example :
    wn_proxy_credential_valid (text (233 ∷ 8364 ∷ 128512 ∷ [])) ≡ true
wn_proxy_credential_valid-text_example =
    wn_proxy_credential_valid-text (233 ∷ 8364 ∷ 128512 ∷ [])
      (inl (omega arith), (inl (omega arith), (inr (omega arith, omega arith), tt))) (omega arith)
      (omega arith)

abbrev always : Setting → Bool
always s = true

proxied :
    (wn_curl_proxy always (some (codes "socks5://p")) (some (codes "u")) (some (codes "s"))).0 ≡ ok
unfolding wn_curl_proxy with_credentials set_all wn_proxy_credentials wn_proxy_credential_valid
    valid_from
proxied = refl

wn_curl_proxy-IsClosed_example :
    IsClosed
      (codes "socks5://p")
      authenticated
      (codes "u")
      (codes "s")
      (wn_curl_proxy always (some (codes "socks5://p")) (some (codes "u")) (some (codes "s"))).1
unfolding wn_proxy_credentials wn_proxy_credential_valid valid_from
wn_curl_proxy-IsClosed_example =
    wn_curl_proxy-IsClosed always (some (codes "socks5://p")) (some (codes "u")) (some (codes "s"))
      proxied
