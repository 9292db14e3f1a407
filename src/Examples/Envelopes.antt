-- ===== src/Examples/Envelopes.antt =====
-- Runs of the envelopes of pkg/msgsig, with toy codecs: an envelope is written as the lengths of its
-- texts and the texts, and a signature is the public key and the text.
use capillaries.Prelude.{
  ◌≡◌, refl, ap, Bool, true, ℕ, [], ◌∷◌, ◌++◌, Option, none, some, length, take, drop, take-append,
  drop-append, length-append, zero, suc, arith,
}
use capillaries.Prelude.Int.{ℤ, pos, negsuc}
use capillaries.Prelude.Text.{Text, bytes, text_eq, text_eq_refl}
use capillaries.Prelude.Assoc.{lookup, put}
use capillaries.Prelude.Trim.{trim_space}
use capillaries.Prelude.Outcome.{done}
use capillaries.Msgsig.Envelope.{Codecs, CodecsLaws, SignedEnvelope}
use capillaries.Msgsig.Ops.{
  Signer, Verifier, mode_require, parse_mode, new_signer, new_verifier, seal, open_message,
}
use capillaries.Msgsig.Roundtrip.{open_message-seal}

abbrev tail_of : Text → Text → Text → Text → Text
tail_of a k p s = length a ∷ length k ∷ length p ∷ a ++ (k ++ (p ++ s))

abbrev toy_marshal : SignedEnvelope → Text
toy_marshal e = elim e.version [
  | pos n ↦ 0 ∷ n ∷ tail_of e.alg e.key_id e.payload e.signature
  | negsuc n ↦ 1 ∷ n ∷ tail_of e.alg e.key_id e.payload e.signature
]

abbrev split_texts : ℤ → ℕ → ℕ → ℕ → Text → SignedEnvelope
split_texts v a k p t = record {
  version = v;
  alg = take a t;
  key_id = take k (drop a t);
  payload = take p (drop k (drop a t));
  signature = drop p (drop k (drop a t));
}

abbrev toy_unmarshal : Text → Option SignedEnvelope
toy_unmarshal (zero ∷ n ∷ a ∷ k ∷ p ∷ t) = some (split_texts (pos n) a k p t)
toy_unmarshal (suc _ ∷ n ∷ a ∷ k ∷ p ∷ t) = some (split_texts (negsuc n) a k p t)
toy_unmarshal _ = none

split-tail :
    (v : ℤ) (a k p s : Text)
    → split_texts v (length a) (length k) (length p) (a ++ (k ++ (p ++ s)))
      ≡ record { version = v; alg = a; key_id = k; payload = p; signature = s }
split-tail v a k p s = simp (take-append, drop-append)

toy_codec_of_fields :
    (v : ℤ) (a k p s : Text)
    → toy_unmarshal
        (toy_marshal (record { version = v; alg = a; key_id = k; payload = p; signature = s }))
      ≡ some (record { version = v; alg = a; key_id = k; payload = p; signature = s })
toy_codec_of_fields (pos n) a k p s = ap some (split-tail (pos n) a k p s)
toy_codec_of_fields (negsuc n) a k p s = ap some (split-tail (negsuc n) a k p s)

abbrev toy : (Text → Text → Text → Bool) → Codecs
toy check = record {
  marshal = toy_marshal;
  unmarshal = toy_unmarshal;
  valid_string = λ s. true;
  decode_string = λ s. some s;
  new_key_from_seed = λ s. s ++ s;
  public_key = λ k. take 32 k;
  sign = λ k m. take 32 k ++ m;
  verify = check;
}

abbrev by_prefix : Text → Text → Text → Bool
by_prefix key m sig = text_eq sig (key ++ m)

toy_laws : CodecsLaws (toy by_prefix)
toy_laws = record {
  unmarshal-marshal = λ e _ _. toy_codec_of_fields e.version e.alg e.key_id e.payload e.signature;
  valid_ed25519 = refl;
  length-new_key_from_seed = λ s h. omega (arith, h, length-append s s);
  verify-sign = λ s m _. text_eq_refl (take 32 (s ++ s) ++ m);
}

abbrev private_key_text : Text
private_key_text = bytes "0123456789abcdef0123456789ABCDEF0123456789abcdef0123456789ABCDEF"

abbrev public_key_text : Text
public_key_text = bytes "0123456789abcdef0123456789ABCDEF"

abbrev key_one : Text
key_one = bytes "key-1"

abbrev signer_one : Signer
signer_one = record { kid = key_one; priv = private_key_text }

abbrev verifier_one : Verifier
verifier_one = record { mode = mode_require; ring = (key_one, public_key_text) ∷ [] }

abbrev hello : Text
hello = bytes "hello"

modes : parse_mode (bytes "  Require ") ≡ done mode_require
unfolding parse_mode text_eq
modes = refl

open_message-seal_example :
    open_message (toy by_prefix) (some verifier_one) (seal (toy by_prefix) signer_one hello)
    ≡ done hello
unfolding new_signer new_verifier text_eq trim_space put lookup
open_message-seal_example =
    open_message-seal (toy by_prefix) toy_laws (bytes " key-1") private_key_text signer_one
      mode_require ((key_one, public_key_text) ∷ []) verifier_one public_key_text hello refl refl
      (public_key_text, refl, refl) (λ e. cc) refl refl refl refl refl

abbrev sealed_hello : Text
sealed_hello = seal (toy by_prefix) signer_one hello
