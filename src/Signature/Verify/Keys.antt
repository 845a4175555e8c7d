-- ===== src/Signature/Verify/Keys.antt =====
-- `resolveKey`: the cache of public keys.
use smartthings4cpp.Base.{
  ℕ, ◌+◌, ◌<◌, ◌≤◌, ◌∷◌, Option, none, some, Bytes, ◌≡◌, refl, ap, ◌∙◌, arith, eqb_refl,
}
use smartthings4cpp.Base.Dict
use smartthings4cpp.Base.Dict.{Dict, lookup-insert}
use smartthings4cpp.Base.Int.{ℤ}
use smartthings4cpp.Http.{Cpr, Wire}
use smartthings4cpp.Signature.Verify.{
  Crypto, Verifier, cached_key, remember_key, fetch_key, resolve_key,
}

module _ (crypto : Crypto) (parse_http_date : Bytes → Option ℤ) (now : ℤ) (cpr : Cpr) where
  remember_key-lookup :
      (t : ℕ) (v : Verifier) (key_id : Bytes) (c : ℕ) (pem : Bytes)
      → Dict.lookup key_id
          (remember_key crypto parse_http_date now cpr t v key_id (some (c ∷ pem))).cache
        ≡ some (c ∷ pem, t + v.config.key_cache_ttl)
  unfolding remember_key
  remember_key-lookup t v key_id c pem =
      rw
        (lookup-insert key_id key_id (c ∷ pem, t + v.config.key_cache_ttl) v.cache, eqb_refl key_id)
        refl

  resolve_key-cold :
      (t : ℕ) (v : Verifier) (key_id : Bytes) (c : ℕ) (pem : Bytes) (wire : Wire)
      → cached_key crypto parse_http_date now cpr t v key_id ≡ none
      → (fetch_key crypto parse_http_date now cpr t v key_id wire).0 ≡ some (c ∷ pem)
      → (resolve_key crypto parse_http_date now cpr t v key_id wire).1
        ≡ remember_key crypto parse_http_date now cpr t v key_id (some (c ∷ pem))
  unfolding resolve_key
  resolve_key-cold t v key_id c pem wire cold fetched =
      rw (cold, resolve_key) (ap (remember_key crypto parse_http_date now cpr t v key_id) fetched)

  resolve_key-warm :
      (u : ℕ) (v : Verifier) (key_id pem : Bytes) (expiry : ℕ) (wire : Wire)
      → Dict.lookup key_id v.cache ≡ some (pem, expiry)
      → u < expiry
      → resolve_key crypto parse_http_date now cpr u v key_id wire ≡ (some pem, v, wire)
  unfolding resolve_key cached_key
  resolve_key-warm u v key_id pem expiry wire known fresh = ground arith

  -- A key that was fetched and is not empty serves for the time to live of the cache: if nothing
  -- was cached under its id at time `t` and the fetch gave the key, the same id asked for at a
  -- time `u` below `t` plus the time to live gives that key, sends no request, and leaves the
  -- verifier as it is.
  pub key_served_from_cache :
      (t u : ℕ) (v : Verifier) (key_id : Bytes) (c : ℕ) (pem : Bytes) (wire wire' : Wire)
      → cached_key crypto parse_http_date now cpr t v key_id ≡ none
      → (fetch_key crypto parse_http_date now cpr t v key_id wire).0 ≡ some (c ∷ pem)
      → u < t + v.config.key_cache_ttl
      → resolve_key crypto parse_http_date now cpr u
          (resolve_key crypto parse_http_date now cpr t v key_id wire).1
          key_id
          wire'
        ≡ (some (c ∷ pem), (resolve_key crypto parse_http_date now cpr t v key_id wire).1, wire')
  key_served_from_cache t u v key_id c pem wire wire' cold fetched fresh =
      resolve_key-warm u _ key_id (c ∷ pem) (t + v.config.key_cache_ttl) wire'
        (ap (λ (w : Verifier). Dict.lookup key_id w.cache)
            (resolve_key-cold t v key_id c pem wire cold fetched)
          ∙ remember_key-lookup t v key_id c pem)
        fresh

  -- A cached key is not used at or after its expiry, whatever it is: it is fetched again.
  pub expired_key_fetched :
      (u : ℕ) (v : Verifier) (key_id pem : Bytes) (expiry : ℕ) (wire : Wire)
      → Dict.lookup key_id v.cache ≡ some (pem, expiry)
      → expiry ≤ u
      → (resolve_key crypto parse_http_date now cpr u v key_id wire).0
        ≡ (fetch_key crypto parse_http_date now cpr u v key_id wire).0
  unfolding resolve_key cached_key
  expired_key_fetched u v key_id pem expiry wire known late = ground (arith)
