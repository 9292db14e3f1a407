-- ===== src/Msgsig/Ops.antt =====
-- pkg/msgsig/signer.go and pkg/msgsig/verifier.go: signers, verifiers and what they do. A nil
-- verifier is none.
use capillaries.Prelude.{
  Bool, false, true, not, ◌&&◌, ◌||◌, [], ◌∷◌, Option, none, some, if◌then◌else◌, ◌==◌, length,
}
use capillaries.Prelude.Int.{pos, int_eq}
use capillaries.Prelude.Text.{Text, bytes, text_eq}
use capillaries.Prelude.Assoc.{Assoc, lookup, put}
use capillaries.Prelude.Trim.{trim_space, to_lower}
use capillaries.Prelude.Outcome.{Outcome, done, error, and_then}
use capillaries.Msgsig.Envelope.{
  Codecs, SignedEnvelope, alg_ed25519, envelope_version, signed_region,
}

pub data Mode : Type 0 where
  mode_off mode_permissive mode_require : Mode

pub data SigError : Type 0 where
  unknown_mode bad_base64 bad_length no_keys empty_key_id : SigError
  err_unsigned err_unsupported_version err_unsupported_alg err_unknown_key err_bad_signature :
      SigError

-- ParseMode
unfoldable pub parse_mode : Text → Outcome SigError Mode
unfolding to_lower trim_space
parse_mode s =
    let t = to_lower (trim_space s) in
    if text_eq t [] || text_eq t (bytes "off")
    then done mode_off
    else if text_eq t (bytes "permissive")
    then done mode_permissive
    else if text_eq t (bytes "require")
    then done mode_require
    else error unknown_mode

pub record Signer : Type 0 where
  pub kid : Text
  pub priv : Text

pub record Verifier : Type 0 where
  pub mode : Mode
  pub ring : Assoc Text

unfoldable pub is_require : Mode → Bool
is_require mode_require = true
is_require _ = false

-- `(v *Verifier) Mode`
unfoldable pub mode_of : Option Verifier → Mode
mode_of none = mode_off
mode_of (some v) = v.mode

unfoldable pub signer_of : Text → Text → Outcome SigError Signer
signer_of kid priv = done (record { kid = kid; priv = priv })

unfoldable pub verifier_of : Mode → Assoc Text → Outcome SigError Verifier
unfolding is_require
verifier_of mode ring =
    if is_require mode && length ring == 0
    then error no_keys
    else done (record { mode = mode; ring = ring })

module _ (c : Codecs) where
  unfoldable pub private_key : Option Text → Outcome SigError Text
  private_key none = error bad_base64
  private_key (some raw) =
      if length raw == 32
      then done (c.new_key_from_seed raw)
      else if length raw == 64
      then done raw
      else error bad_length

  unfoldable pub new_signer : Text → Text → Outcome SigError Signer
  unfolding private_key signer_of
  new_signer kid key =
      if text_eq (trim_space kid) []
      then error empty_key_id
      else and_then (private_key (c.decode_string (trim_space key))) (signer_of (trim_space kid))

  unfoldable pub unsigned_envelope : Signer → Text → SignedEnvelope
  unsigned_envelope s payload = record {
    version = envelope_version;
    alg = alg_ed25519;
    key_id = s.kid;
    payload = payload;
    signature = [];
  }

  unfoldable pub sealed_envelope : Signer → Text → SignedEnvelope
  unfolding unsigned_envelope
  sealed_envelope s payload =
      let e = unsigned_envelope s payload in
      record e { signature = c.sign s.priv (signed_region e.version e.alg e.key_id e.payload) }

  -- Seal
  unfoldable pub seal : Signer → Text → Text
  seal s payload = c.marshal (sealed_envelope s payload)

  unfoldable pub public_key_bytes : Option Text → Outcome SigError Text
  public_key_bytes none = error bad_base64
  public_key_bytes (some raw) = if length raw == 32 then done raw else error bad_length

  -- The loop of NewVerifier over the configured keys.
  unfoldable pub ring_loop : Assoc Text → Assoc Text → Outcome SigError (Assoc Text)
  unfolding public_key_bytes
  ring_loop ring [] = done ring
  ring_loop ring ((kid, key) ∷ keys) =
      and_then (public_key_bytes (c.decode_string (trim_space key)))
        (λ raw. ring_loop (put kid raw ring) keys)

  unfoldable pub new_verifier : Mode → Assoc Text → Outcome SigError Verifier
  unfolding ring_loop verifier_of
  new_verifier mode keys = and_then (ring_loop [] keys) (verifier_of mode)

  -- The checks of an envelope that says which version it has.
  unfoldable pub check_signature : SignedEnvelope → Option Text → Outcome SigError Text
  check_signature e none = error err_unknown_key
  check_signature e (some key) =
      if not (c.verify key (signed_region e.version e.alg e.key_id e.payload) e.signature)
      then error err_bad_signature
      else done e.payload

  unfoldable pub check_envelope : Verifier → SignedEnvelope → Outcome SigError Text
  unfolding check_signature
  check_envelope v e =
      if not (int_eq e.version envelope_version)
      then error err_unsupported_version
      else if not (text_eq e.alg alg_ed25519)
      then error err_unsupported_alg
      else check_signature e (lookup e.key_id v.ring)

  unfoldable pub open_unsigned : Mode → Text → Outcome SigError Text
  open_unsigned mode_permissive raw = done raw
  open_unsigned _ raw = error err_unsigned

  unfoldable pub open_parsed : Verifier → Text → Option SignedEnvelope → Outcome SigError Text
  unfolding check_envelope open_unsigned
  open_parsed v raw none = open_unsigned v.mode raw
  open_parsed v raw (some e) =
      if int_eq e.version (pos 0) then open_unsigned v.mode raw else check_envelope v e

  unfoldable pub open_with : Verifier → Mode → Text → Outcome SigError Text
  unfolding open_parsed
  open_with v mode_off raw = done raw
  open_with v _ raw = open_parsed v raw (c.unmarshal raw)

  -- Open, without its metrics.
  unfoldable pub open_message : Option Verifier → Text → Outcome SigError Text
  unfolding open_with
  open_message none raw = done raw
  open_message (some v) raw = open_with v v.mode raw
