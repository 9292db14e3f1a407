-- ===== src/Msgsig/Roundtrip.antt =====
-- From Seal to Open, pkg/msgsig: a message that a configured key signs is accepted.
use mathlib.Core.Path.{subst}
use capillaries.Prelude.{◌≡◌, ◌≢◌, refl, sym, ◌∙◌, true, some, [], arith, length}
use capillaries.Prelude.Text.{Text, text_eq}
use capillaries.Prelude.Assoc.{Assoc, lookup, count_key}
use capillaries.Prelude.Trim.{trim_space}
use capillaries.Prelude.Outcome.{done}
use capillaries.Msgsig.Envelope.{
  Codecs, CodecsLaws, IsKeyPair, signed_region, envelope_version, alg_ed25519,
}
use capillaries.Msgsig.Ops.{
  Mode, mode_off, mode_permissive, mode_require, open_with, open_parsed, sealed_envelope, Signer,
  Verifier, seal, open_message, new_signer, new_verifier, public_key_bytes, check_envelope,
}
use capillaries.Msgsig.Ring.{ring_loop-present, new_verifier-eq_done}

-- A sealed envelope passes the checks of a verifier that has the signer's public key.
check_envelope-seal :
    (c : Codecs) (laws : CodecsLaws c) (s : Signer) (v : Verifier) (payload : Text)
    → IsKeyPair c s.priv
    → lookup s.kid v.ring ≡ some (c.public_key s.priv)
    → check_envelope c v (sealed_envelope c s payload) ≡ done payload
unfolding check_envelope sealed_envelope text_eq
check_envelope-seal c laws s v payload n h =
    let region = signed_region envelope_version alg_ed25519 s.kid payload in
    let signed : c.verify (c.public_key s.priv) region (c.sign s.priv region) ≡ true =
      subst (λ k. c.verify (c.public_key k) region (c.sign k region) ≡ true) n.2
        (laws.verify-sign n.0 region n.1) in
    rw (h, signed) refl

open_parsed-seal :
    (c : Codecs) (laws : CodecsLaws c) (s : Signer) (v : Verifier) (payload : Text)
    → IsKeyPair c s.priv
    → c.valid_string s.kid ≡ true
    → lookup s.kid v.ring ≡ some (c.public_key s.priv)
    → open_parsed c v (seal c s payload) (c.unmarshal (seal c s payload)) ≡ done payload
unfolding open_parsed seal sealed_envelope
open_parsed-seal c laws s v payload n u h =
    rw (laws.unmarshal-marshal (sealed_envelope c s payload) laws.valid_ed25519 u)
      (check_envelope-seal c laws s v payload n h)

open_with-seal :
    (c : Codecs) (laws : CodecsLaws c) (s : Signer) (v : Verifier) (mode : Mode) (payload : Text)
    → mode ≢ mode_off
    → IsKeyPair c s.priv
    → c.valid_string s.kid ≡ true
    → lookup s.kid v.ring ≡ some (c.public_key s.priv)
    → open_with c v mode (seal c s payload) ≡ done payload
unfolding open_with
open_with-seal c laws s v mode_off payload m n u h = absurd (m refl)
open_with-seal c laws s v mode_permissive payload m n u h =
    open_parsed-seal c laws s v payload n u h
open_with-seal c laws s v mode_require payload m n u h = open_parsed-seal c laws s v payload n u h

-- A message that a signer made by NewSigner, with a key that is the key of a seed, seals is opened by each verifier made by NewVerifier
-- that verifies and has the signer's public key, as base64 of 32 bytes, once under the signer's key
-- id, which is UTF-8: it gives the payload back, given the laws of JSON and Ed25519.
pub open_message-seal :
    (c : Codecs) (laws : CodecsLaws c) (kid key : Text) (s : Signer) (mode : Mode)
    (keys : Assoc Text) (v : Verifier) (b payload : Text)
    → new_signer c kid key ≡ done s
    → new_verifier c mode keys ≡ done v
    → IsKeyPair c s.priv
    → mode ≢ mode_off
    → c.valid_string s.kid ≡ true
    → count_key s.kid keys ≡ 1
    → lookup s.kid keys ≡ some b
    → c.decode_string (trim_space b) ≡ some (c.public_key s.priv)
    → length (c.public_key s.priv) ≡ 32
    → open_message c (some v) (seal c s payload) ≡ done payload
unfolding open_message public_key_bytes
open_message-seal c laws kid key s mode keys v b payload hs hv pair m u n e d w =
    let built = new_verifier-eq_done c mode keys v hv in
    let found =
      ring_loop-present c s.kid [] keys v.ring b (c.public_key s.priv) built.1 n e
        (rw d (ground arith)) in
    open_with-seal c laws s v v.mode payload (λ off. m (sym built.0 ∙ off)) pair u found
