-- ===== src/Security/Encryption/RoundTrip.antt =====
-- What an encryption service wrote, a service with the same secret reads.
use ai_risk_engine.Errors.{Error, encryption_error}
use ai_risk_engine.Exec.{ok, err}
use ai_risk_engine.Prelude.{
  arith, ◌≡◌, refl, sym, ap, ◌∙◌, ◌⊎◌, inl, inr, false, String, Option, some, is_blank, strip,
}
use ai_risk_engine.Security.Encryption.{
  Outcome, done, invalid_token, failed, Crypto, ◌>>=◌, raw_key, service_of, new, encrypt, decrypt,
  encrypted, decrypted, to_token, from_token,
}

-- Documented behaviour of the codecs and of Fernet.
pub record IsCrypto {B K D : Type 0} (crypto : Crypto B K D) : Type 0 where
  pub utf8_decode-encode :
      (s : String) (b : B) → crypto.utf8_encode s ≡ done b → crypto.utf8_decode b ≡ done s
  pub b64decode-b64encode : (b : B) → crypto.b64decode (crypto.b64encode b) ≡ done b
  pub base64_is_ascii :
      (b : B)
      → (s : String) × (crypto.ascii_decode (crypto.b64encode b) ≡ done s)
        × (crypto.ascii_encode s ≡ done (crypto.b64encode b))
  pub encrypts : (k : K) (d : D) (b : B) → (t : B) × (crypto.encrypt k d b ≡ done t)
  pub decrypts :
      (k : K) (d : D) (b t : B) → crypto.encrypt k d b ≡ done t → crypto.decrypt k t ≡ done b

module _ {B K D : Type 0} (crypto : Crypto B K D) (default_salt : B) where
  same_secret :
      (key key' env env' : Option String) (raw raw' : String)
      → raw_key key env ≡ some raw
      → raw_key key' env' ≡ some raw'
      → is_blank raw ≡ false
      → is_blank raw' ≡ false
      → strip raw ≡ strip raw'
      → new crypto default_salt key env ≡ new crypto default_salt key' env'
  unfolding new
  same_secret key key' env env' raw raw' is is' full full' same =
      ap (service_of crypto default_salt) is
      ∙ rw (full, same) (sym (rw full' refl))
      ∙ ap (service_of crypto default_salt) (sym is')

>>=-eq-done :
    {A B : Type 0} (m : Outcome A) (f : A → Outcome B) {b : B}
    → (m >>= f) ≡ done b
    → (a : A) × (m ≡ done a) × (f a ≡ done b)
>>=-eq-done (done a) f h = (a, refl, h)
>>=-eq-done invalid_token f h = absurd (ground (arith, h))
>>=-eq-done (failed e) f h = absurd (ground (arith, h))

module _ {B K D : Type 0} (crypto : Crypto B K D) where
  -- Under one key what is encrypted is a text, and decrypting it gives the plain text.
  decrypt-encrypt_same :
      (laws : IsCrypto crypto) (key : K) (drawn : D) (text : String) (plain : B)
      → crypto.utf8_encode text ≡ done plain
      → (c : String) × (encrypt crypto key drawn text ≡ ok c) × (decrypt crypto key c ≡ ok text)
  unfolding encrypt decrypt
  decrypt-encrypt_same laws key drawn text plain utf8 =
      let (token, made) = laws.encrypts key drawn plain in
      let (c, shown, read) = laws.base64_is_ascii token in
      (
        c,
        rw (utf8, made, shown) refl,
        rw
            (
              read,
              laws.b64decode-b64encode token,
              laws.decrypts key drawn plain token made,
              laws.utf8_decode-encode text plain utf8,
            )
            refl,
      )

  -- A text that one service encrypts, another that was made from the same secret decrypts to the plain
  -- text: the secret may come from the argument or from the environment and stand between white
  -- space, and what Fernet draws does not matter. The text must have a UTF-8 form. With the documented
  -- behaviour of the codecs and of Fernet neither call raises.
  pub decrypt-encrypt :
      (default_salt : B) (laws : IsCrypto crypto) (key key' env env' : Option String)
      (raw raw' : String) (k k' : K) (drawn : D) (text : String) (plain : B)
      → raw_key key env ≡ some raw
      → raw_key key' env' ≡ some raw'
      → is_blank raw ≡ false
      → is_blank raw' ≡ false
      → strip raw ≡ strip raw'
      → new crypto default_salt key env ≡ ok k
      → new crypto default_salt key' env' ≡ ok k'
      → crypto.utf8_encode text ≡ done plain
      → (c : String) × (encrypt crypto k drawn text ≡ ok c) × (decrypt crypto k' c ≡ ok text)
  decrypt-encrypt default_salt laws key key' env env' raw raw' k k' drawn text plain is is' full
        full' same made made' utf8 =
      let equal : ok k ≡ ok k' =
        sym made
        ∙ same_secret crypto default_salt key key' env env' raw raw' is is' full full' same
        ∙ made' in
      let keys : k ≡ k' = ground (arith, equal) in
      rw (← keys) (decrypt-encrypt_same laws k drawn text plain utf8)

  -- What is decrypted was accepted by Fernet under the key, and read from what it returned.
  pub record IsAuthentic (key : K) (text plain : String) : Type 0 where
    pub encoded : B
    pub token : B
    pub bytes : B
    pub from_ascii : crypto.ascii_encode text ≡ done encoded
    pub from_base64 : crypto.b64decode encoded ≡ done token
    pub accepted : crypto.decrypt key token ≡ done bytes
    pub to_text : crypto.utf8_decode bytes ≡ done plain

  decrypted-cases :
      (key : K) (o : Outcome String)
      → ((plain : String) × (decrypted crypto key o ≡ ok plain) × (o ≡ done plain))
        ⊎ ((e : Error) × (decrypted crypto key o ≡ err e) × (e.cls ≡ encryption_error))
  decrypted-cases key (done plain) = inl (plain, refl, refl)
  decrypted-cases key invalid_token = inr (_, refl, refl)
  decrypted-cases key (failed e) = inr (_, refl, refl)

  encrypted-err :
      (key : K) (o : Outcome String) (e : Error)
      → encrypted crypto key o ≡ err e
      → e.cls ≡ encryption_error
  encrypted-err key (done text) e h = absurd (ground (arith, h))
  encrypted-err key invalid_token e h = ground (arith, h)
  encrypted-err key (failed m) e h = ground (arith, h)

  -- Decryption fails closed, on any text, under any key and whatever the packages do: it returns a text
  -- only if Fernet accepted the token, and then the one that Fernet returned, and else it raises
  -- EncryptionError and no other exception. The same holds of what `encrypt` raises.
  pub decrypt_fails_closed :
      (key : K) (drawn : D) (text : String)
      → (((plain : String) × (decrypt crypto key text ≡ ok plain) × IsAuthentic key text plain)
          ⊎ ((e : Error) × (decrypt crypto key text ≡ err e) × (e.cls ≡ encryption_error)))
        × ((e : Error) → encrypt crypto key drawn text ≡ err e → e.cls ≡ encryption_error)
  unfolding encrypt decrypt
  decrypt_fails_closed key drawn text = (
    elim (decrypted-cases key (from_token crypto key text)) [
      | inl (plain, is, e₀) ↦
          let (encoded, from_ascii, e₁) = >>=-eq-done (crypto.ascii_encode text) _ e₀ in
          let (token, from_base64, e₂) = >>=-eq-done (crypto.b64decode encoded) _ e₁ in
          let (bytes, accepted, to_text) = >>=-eq-done (crypto.decrypt key token) _ e₂ in
          inl (
            plain,
            is,
            record {
              encoded = encoded;
              token = token;
              bytes = bytes;
              from_ascii = from_ascii;
              from_base64 = from_base64;
              accepted = accepted;
              to_text = to_text;
            },
          )
      | inr (e, is, cls) ↦ inr (e, is, cls)
    ],
    encrypted-err key (to_token crypto key drawn text),
  )
