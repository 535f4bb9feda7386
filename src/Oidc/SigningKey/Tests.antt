-- ===== src/Oidc/SigningKey/Tests.antt =====
-- A key that is made by one server and taken over by another.
use kubauth.Base.{refl, sym, ap, ℕ, zero, suc, String, none, some}
use kubauth.Proto.{ok, ok-injective}
use kubauth.Ucrd.Authenticator.{absent}
use kubauth.Oidc.SigningKey.{KeyLibrary, KeyHolder, ensure_jwt_signing_key}
use kubauth.Oidc.SigningKey.Laws.{DecodesPem, ParsesPkcs1, Shared, ensure-Shared}

abbrev uuid : ℕ → String
uuid zero = "kid-1"
uuid (suc n) = "kid-2"

abbrev library : KeyLibrary String
library = record {
  generate_key = ok "rsa";
  marshal_pkcs1 = λ key. key;
  parse_pkcs1 = λ bytes. ok bytes;
  parse_pkcs8 = λ bytes. ok none;
  encode_pem = λ type bytes. ok bytes;
  decode_pem = λ pem. some ("RSA PRIVATE KEY", pem);
  new_uuid = uuid;
}

decodes : DecodesPem library
decodes bytes pem e = ap (λ text. some ("RSA PRIVATE KEY", text)) (sym (ok-injective e))

parses : ParsesPkcs1 library
parses key = refl

abbrev starting : KeyHolder String
starting = record { private_key = none; key_id = "" }

ensure-Shared_example : Shared library (ensure_jwt_signing_key library (ok tt) starting absent)
ensure-Shared_example = ensure-Shared library decodes parses (ok tt) starting absent
