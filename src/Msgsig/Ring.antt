-- ===== src/Msgsig/Ring.antt =====
-- The ring that NewVerifier builds, pkg/msgsig/verifier.go: the key of each configured key id.
use capillaries.Prelude.{◌≡◌, [], ◌∷◌, some, arith, inl, inr, Bool-cases}
use capillaries.Prelude.Text.{Text, text_eq}
use capillaries.Prelude.Assoc.{Assoc, lookup, put, count_key, lookup-put}
use capillaries.Prelude.Trim.{trim_space}
use capillaries.Prelude.Outcome.{done, error, and_then, and_then-eq_done, Outcome}
use capillaries.Msgsig.Envelope.{Codecs}
use capillaries.Msgsig.Ops.{
  SigError, Mode, Verifier, verifier_of, new_verifier, ring_loop, public_key_bytes,
}

verifier_of-eq_done :
    (mode : Mode) (o : Outcome SigError (Assoc Text)) (v : Verifier)
    → and_then o (verifier_of mode) ≡ done v
    → (v.mode ≡ mode) × (o ≡ done v.ring)
unfolding verifier_of
verifier_of-eq_done mode (done ring) v h = ground arith
verifier_of-eq_done mode (error e) v h = cc

module _ (c : Codecs) where
  -- A key id that is not configured keeps what the ring has for it.
  ring_loop-absent :
      (j : Text) (ring : Assoc Text) (keys : Assoc Text) (r : Assoc Text)
      → ring_loop c ring keys ≡ done r
      → count_key j keys ≡ 0
      → lookup j r ≡ lookup j ring
  unfolding ring_loop
  ring_loop-absent j ring [] r h n = ground arith
  ring_loop-absent j ring ((k, b) ∷ keys) r h n =
      let split =
        and_then-eq_done (public_key_bytes c (c.decode_string (trim_space b)))
          (λ raw. ring_loop c (put k raw ring) keys) r h in
      ground
        (arith, ring_loop-absent j (put k split.0 ring) keys r split.2, lookup-put k j split.0 ring)

  -- A key id that is configured once has the bytes of its key.
  pub ring_loop-present :
      (j : Text) (ring : Assoc Text) (keys : Assoc Text) (r : Assoc Text) (b key : Text)
      → ring_loop c ring keys ≡ done r
      → count_key j keys ≡ 1
      → lookup j keys ≡ some b
      → public_key_bytes c (c.decode_string (trim_space b)) ≡ done key
      → lookup j r ≡ some key
  unfolding ring_loop lookup
  ring_loop-present j ring [] r b key h n e d = cc
  ring_loop-present j ring ((k, a) ∷ keys) r b key h n e d =
      let split =
        and_then-eq_done (public_key_bytes c (c.decode_string (trim_space a)))
          (λ raw. ring_loop c (put k raw ring) keys) r h in
      elim (Bool-cases (text_eq k j)) [
        | inl t ↦ ground (
          arith,
          ring_loop-absent j (put k split.0 ring) keys r split.2,
          lookup-put k j split.0 ring,
          split,
        )
        | inr f ↦
            ring_loop-present j (put k split.0 ring) keys r b key split.2 (ground arith)
              (ground arith) d
      ]

  -- A verifier that NewVerifier returns has the mode asked for and the ring of the configured keys.
  pub new_verifier-eq_done :
      (mode : Mode) (keys : Assoc Text) (v : Verifier)
      → new_verifier c mode keys ≡ done v
      → (v.mode ≡ mode) × (ring_loop c [] keys ≡ done v.ring)
  unfolding new_verifier
  new_verifier-eq_done mode keys v h = verifier_of-eq_done mode (ring_loop c [] keys) v h
