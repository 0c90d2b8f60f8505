-- ===== src/Security/Encryption.antt =====
-- app/security/encryption.py, over the package `cryptography` and Python's encodings: PBKDF2, Fernet,
-- base64 and the codecs are parameters. What Fernet draws for a token, its time and initialisation
-- vector, is the argument `drawn` of `encrypt`.
pub mod RoundTrip
use ai_risk_engine.Errors.{Error, encryption_error, exception}
use ai_risk_engine.Exec.{Result, ok, err}
use ai_risk_engine.Prelude.{
  strip, Bool, String, Option, none, some, if◌then◌else◌, is_empty, is_blank,
}
use Prim.Native.String.{◌++◌}

-- How a call of a package ends: `InvalidToken`, or another exception with its text.
pub data Outcome (A : Type 0) : Type 0 where
  done : A → Outcome A
  invalid_token : Outcome A
  failed : String → Outcome A

-- On bytes `B` and keys `K`: `urlsafe_b64encode`, `urlsafe_b64decode`, `encode` and `decode` of text
-- in UTF-8 and in ASCII, the derived key of a secret, and Fernet under a key.
pub record Crypto (B K D : Type 0) : Type 0 where
  pub b64encode : B → B
  pub b64decode : B → Outcome B
  pub utf8_encode : String → Outcome B
  pub utf8_decode : B → Outcome String
  pub ascii_encode : String → Outcome B
  pub ascii_decode : B → Outcome String
  pub derive : B → B → B
  pub fernet : B → K
  pub encrypt : K → D → B → Outcome B
  pub decrypt : K → B → Outcome B

infixl 5 ◌>>=◌
abbrev pub ◌>>=◌ : {A B : Type 0} → Outcome A → (A → Outcome B) → Outcome B
done a >>= f = f a
invalid_token >>= f = invalid_token
failed e >>= f = failed e

-- `key or os.environ.get("ENCRYPTION_KEY")`
unfoldable pub raw_key : Option String → Option String → Option String
raw_key none env = env
raw_key (some key) env = if is_empty key then env else some key

module _ {B K D : Type 0} (crypto : Crypto B K D) (default_salt : B) where
  -- `_derive_key` with the default salt.
  unfoldable pub derive_key : String → Outcome B
  derive_key secret = do
    bytes ← crypto.utf8_encode secret
    done (crypto.b64encode (crypto.derive default_salt bytes))

  abbrev pub key_required : Error
  key_required = record {
    cls = encryption_error;
    message = "Encryption key is required. Set ENCRYPTION_KEY in environment.";
  }

  -- What `__init__` does not catch.
  abbrev raised : Outcome B → Result K
  raised (done key) = ok (crypto.fernet key)
  raised invalid_token = err (record { cls = exception; message = "" })
  raised (failed e) = err (record { cls = exception; message = e })

  abbrev pub service_of : Option String → Result K
  service_of none = err key_required
  service_of (some raw) = if is_blank raw then err key_required else raised (derive_key (strip raw))

  -- `EncryptionService.__init__`; the second argument is the environment variable.
  unfoldable pub new : Option String → Option String → Result K
  unfolding raw_key
  new key env = service_of (raw_key key env)

module _ {B K D : Type 0} (crypto : Crypto B K D) (key : K) where
  abbrev pub encrypted : Outcome String → Result String
  encrypted (done text) = ok text
  encrypted invalid_token = err (record { cls = encryption_error; message = "Encryption failed: " })
  encrypted (failed e) =
      err (record { cls = encryption_error; message = "Encryption failed: " ++ e })

  -- The body of the `try` in `encrypt`.
  abbrev pub to_token : D → String → Outcome String
  to_token drawn text = do
    plain ← crypto.utf8_encode text
    token ← crypto.encrypt key drawn plain
    crypto.ascii_decode (crypto.b64encode token)

  -- `EncryptionService.encrypt`
  unfoldable pub encrypt : D → String → Result String
  encrypt drawn text = encrypted (to_token drawn text)

  abbrev pub decrypted : Outcome String → Result String
  decrypted (done text) = ok text
  decrypted invalid_token =
      err (record { cls = encryption_error; message = "Decryption failed: invalid or wrong key" })
  decrypted (failed e) =
      err (record { cls = encryption_error; message = "Decryption failed: " ++ e })

  -- The body of the `try` in `decrypt`.
  abbrev pub from_token : String → Outcome String
  from_token text = do
    encoded ← crypto.ascii_encode text
    token ← crypto.b64decode encoded
    plain ← crypto.decrypt key token
    crypto.utf8_decode plain

  -- `EncryptionService.decrypt`
  unfoldable pub decrypt : String → Result String
  decrypt text = decrypted (from_token text)
