-- ===== src/Tests/Security.antt =====
-- The witnesses for the theorems on encryption, with a cipher that changes nothing.
use ai_risk_engine.Errors.{Error, encryption_error}
use ai_risk_engine.Exec.{ok, err}
use ai_risk_engine.Prelude.{◌≡◌, refl, sym, ap, ◌⊎◌, String, none, some, strip, lstrip, rstrip}
use ai_risk_engine.Security.Encryption.{
  Outcome, done, Crypto, raw_key, derive_key, new, encrypt, decrypt,
}
use ai_risk_engine.Security.Encryption.RoundTrip.{
  IsCrypto, IsAuthentic, decrypt-encrypt, decrypt_fails_closed,
}

-- Every code is the identity, and a token is the text.
abbrev plain : Crypto String String String
plain = record {
  b64encode = λ b. b;
  b64decode = λ b. done b;
  utf8_encode = λ s. done s;
  utf8_decode = λ b. done b;
  ascii_encode = λ s. done s;
  ascii_decode = λ b. done b;
  derive = λ salt secret. secret;
  fernet = λ key. key;
  encrypt = λ key drawn b. done b;
  decrypt = λ key token. done token;
}

abbrev text_of : Outcome String → String → String
text_of (done s) other = s
text_of _ other = other

done_eq : (a b : String) → done a ≡ done b → a ≡ b
done_eq a b h i = text_of (h i) a

plain-IsCrypto : IsCrypto plain
plain-IsCrypto = record {
  utf8_decode-encode = λ s b h. ap done (sym (done_eq s b h));
  b64decode-b64encode = λ b. refl;
  base64_is_ascii = λ b. (b, refl, refl);
  encrypts = λ k d b. (b, refl);
  decrypts = λ k d b t h. ap done (sym (done_eq b t h));
}

same_secret : strip " s3cret" ≡ strip "s3cret "
unfolding strip lstrip rstrip
same_secret = refl

from_argument : raw_key (some " s3cret") none ≡ some " s3cret"
unfolding raw_key
from_argument = refl

from_environment : raw_key none (some "s3cret ") ≡ some "s3cret "
unfolding raw_key
from_environment = refl

first : new plain "salt" (some " s3cret") none ≡ ok "s3cret"
unfolding new raw_key derive_key strip lstrip rstrip
first = refl

second : new plain "salt" none (some "s3cret ") ≡ ok "s3cret"
unfolding new raw_key derive_key strip lstrip rstrip
second = refl

decrypt-encrypt_example :
    (c : String) × (encrypt plain "s3cret" "iv" "hello" ≡ ok c)
    × (decrypt plain "s3cret" c ≡ ok "hello")
decrypt-encrypt_example =
    decrypt-encrypt plain "salt" plain-IsCrypto (some " s3cret") none none (some "s3cret ")
      " s3cret" "s3cret " "s3cret" "s3cret" "iv" "hello" "hello" from_argument from_environment refl
      refl same_secret first second refl

decrypt_fails_closed_example :
    (((text : String) × (decrypt plain "s3cret" "hello" ≡ ok text)
        × IsAuthentic plain "s3cret" "hello" text)
      ⊎ ((e : Error) × (decrypt plain "s3cret" "hello" ≡ err e) × (e.cls ≡ encryption_error)))
    × ((e : Error) → encrypt plain "s3cret" "iv" "hello" ≡ err e → e.cls ≡ encryption_error)
decrypt_fails_closed_example = decrypt_fails_closed plain "s3cret" "iv" "hello"
