-- ===== src/Msgsig/Safety.antt =====
-- What Open accepts, pkg/msgsig/verifier.go.
use capillaries.Prelude.{◌≡◌, ◌≢◌, refl, ap, List, [], ◌∷◌, ◌++◌, All, Any, drop, some, arith, true}
use capillaries.Prelude.Text.{Text}
use capillaries.Prelude.Assoc.{Assoc, lookup}
use capillaries.Prelude.Decimal.{decimal}
use capillaries.Msgsig.Envelope.{
  Codecs, SignedEnvelope, alg_ed25519, envelope_version, signed_region,
}
use capillaries.Msgsig.Ops.{Verifier}

-- A line without a line feed ends where the first one stands.
line_cut :
    (k l p q : Text)
    → All (λ b. b ≢ 10) k
    → All (λ b. b ≢ 10) l
    → k ++ 10 ∷ p ≡ l ++ 10 ∷ q
    → (k ≡ l) × (p ≡ q)
line_cut [] [] p q hk hl e = (refl, ground arith)
line_cut [] (b ∷ l) p q hk hl e = absurd (hl.0 (ground arith))
line_cut (b ∷ k) [] p q hk hl e = absurd (hk.0 (ground arith))
line_cut (b ∷ k) (d ∷ l) p q hk hl e =
    let rest : (k ≡ l) × (p ≡ q) = line_cut k l p q hk.1 hl.1 (ground arith) in
    (ground (arith, rest), rest.1)

-- The signed bytes tell key ids without a line feed, and payloads, apart.
pub signed_region_injective :
    (k l p q : Text)
    → All (λ b. b ≢ 10) k
    → All (λ b. b ≢ 10) l
    → signed_region envelope_version alg_ed25519 k p
      ≡ signed_region envelope_version alg_ed25519 l q
    → (k ≡ l) × (p ≡ q)
unfolding signed_region decimal
signed_region_injective k l p q hk hl e = line_cut k l p q hk hl (ap (drop 10) e)

-- An envelope that passes the checks has this version and algorithm, a key of the ring verifies its
-- signature, and what it gives is its payload.
abbrev pub IsVerified : Codecs → Assoc Text → SignedEnvelope → Text → Type 0
IsVerified c ring e p =
    (key : Text) × (lookup e.key_id ring ≡ some key)
    × (c.verify key (signed_region envelope_version alg_ed25519 e.key_id p) e.signature ≡ true)

-- A text in one line.
abbrev pub IsOneLine : Text → Type 0
IsOneLine s = All (λ b. b ≢ 10) s

-- What was signed under key ids: pairs of a key id and a payload.
abbrev pub WasSigned : List (Text × Text) → Text → Type 0
WasSigned signed m = Any (λ s. signed_region envelope_version alg_ed25519 s.0 s.1 ≡ m) signed

-- A signature that a key of the ring verifies for a text that was not signed.
abbrev pub IsForgery : Codecs → Verifier → List (Text × Text) → Text → Type 0
IsForgery c v signed m =
    (kid : Text) × (key : Text) × (sig : Text) × (lookup kid v.ring ≡ some key)
    × (c.verify key m sig ≡ true)
    × (WasSigned signed m → ⊥)
