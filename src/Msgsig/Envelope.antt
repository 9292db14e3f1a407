-- ===== src/Msgsig/Envelope.antt =====
-- pkg/msgsig/envelope.go: the envelope and the bytes that are signed. JSON, base64 and Ed25519 are
-- parameters, with what the package relies on as laws of the record.
use capillaries.Prelude.{◌≡◌, Bool, true, ◌∷◌, ◌++◌, Option, some, length}
use capillaries.Prelude.Int.{ℤ, pos}
use capillaries.Prelude.Text.{Text, bytes}
use capillaries.Prelude.Decimal.{decimal}

pub record SignedEnvelope : Type 0 where
  pub version : ℤ
  pub alg : Text
  pub key_id : Text
  pub payload : Text
  pub signature : Text

abbrev pub envelope_version : ℤ
envelope_version = pos 1

abbrev pub alg_ed25519 : Text
alg_ed25519 = bytes "Ed25519"

-- `fmt.Sprintf("%d\n%s\n%s\n", version, alg, kid)` and the payload.
unfoldable pub signed_region : ℤ → Text → Text → Text → Text
signed_region version alg kid payload = decimal version ++ 10 ∷ alg ++ 10 ∷ kid ++ 10 ∷ payload

-- The calls of encoding/json, encoding/base64 and crypto/ed25519.
pub record Codecs : Type 0 where
  pub marshal : SignedEnvelope → Text
  pub unmarshal : Text → Option SignedEnvelope
  pub valid_string : Text → Bool
  pub decode_string : Text → Option Text
  pub new_key_from_seed : Text → Text
  pub public_key : Text → Text
  pub sign : Text → Text → Text
  pub verify : Text → Text → Text → Bool

-- What their documentation promises: an envelope whose texts are UTF-8 survives JSON, a key made
-- from a seed has 64 bytes, and its public key verifies its signatures.
pub record CodecsLaws (c : Codecs) : Type 0 where
  pub unmarshal-marshal :
      (e : SignedEnvelope)
      → c.valid_string e.alg ≡ true
      → c.valid_string e.key_id ≡ true
      → c.unmarshal (c.marshal e) ≡ some e
  pub valid_ed25519 : c.valid_string alg_ed25519 ≡ true
  pub length-new_key_from_seed : (s : Text) → length s ≡ 32 → length (c.new_key_from_seed s) ≡ 64
  pub verify-sign :
      (s m : Text)
      → length s ≡ 32
      → c.verify (c.public_key (c.new_key_from_seed s)) m (c.sign (c.new_key_from_seed s) m) ≡ true

-- A private key whose two halves belong together: it is the key of its seed.
abbrev pub IsKeyPair : Codecs → Text → Type 0
IsKeyPair c k = (s : Text) × (length s ≡ 32) × (c.new_key_from_seed s ≡ k)
