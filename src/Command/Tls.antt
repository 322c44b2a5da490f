-- ===== src/Command/Tls.antt =====
-- cmd/ekanited/main.go: `newTLSConfig`.
use ekanite.Prelude.{List, [], ◌∷◌, Option, none, some, Bytes}

-- What crypto/x509 and ioutil give, `none` for an error.
pub record Certificates (Certificate Key : Type 0) : Type 0 where
  pub read_file : Bytes → Option Bytes
  pub parse_certificate : Bytes → Option Certificate
  pub parse_key : Bytes → Option Key

-- `tls.Config` with the fields that `newTLSConfig` sets: one certificate, of the bytes of the file, its
-- key, and the pool with the certificate, which clients must have one of.
pub record TlsConfig (Certificate Key : Type 0) : Type 0 where
  pub certificate : Bytes
  pub private_key : Key
  pub client_cas : List Certificate

module _ {Certificate Key : Type 0} (certs : Certificates Certificate Key) where
  -- `if err != nil { return nil, err }`
  infixl 5 ◌>>=◌
  abbrev ◌>>=◌ : {A B : Type 0} → Option A → (A → Option B) → Option B
  o >>= f = elim o [ none ↦ none | some a ↦ f a ]

  -- `newTLSConfig`
  unfoldable pub new_tls_config : (pem_path key_path : Bytes) → Option (TlsConfig Certificate Key)
  new_tls_config pem_path key_path = do
    ca_pem ← certs.read_file pem_path
    ca ← certs.parse_certificate ca_pem
    ca_key ← certs.read_file key_path
    key ← certs.parse_key ca_key
    some (record { certificate = ca_pem; private_key = key; client_cas = ca ∷ [] })
