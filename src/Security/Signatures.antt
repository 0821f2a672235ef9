-- ===== src/Security/Signatures.antt =====
-- src/infrastructure/security/webhook_signature_verifier.py: the check of a signature, which no code calls. Texts are
-- their code points. `mac` is HMAC with SHA-256 of the standard library, of a key and a message.
use edo_adapter_enterprise.Shared.{
  ℕ, ◌<◌, ◌≡◌, Bool, true, false, not, ◌&&◌, Option, some, List, [], ◌∷◌, ◌==◌, ltb, All,
  if◌then◌else◌, refl, arith, subst,
}
use edo_adapter_enterprise.Shared.Results.{Result, ok, err, type_error}
use edo_adapter_enterprise.Shared.Base64.{b64encode, b64decode, b64decode-b64encode}
use edo_adapter_enterprise.Tasks.SendDocument.Hex.{hex, fromhex, fromhex-hex}

pub data SignatureStyle : Type 0 where
  hexadecimal base64 : SignatureStyle

abbrev same_text : List ℕ → List ℕ → Bool
same_text [] [] = true
same_text (c ∷ cs) (d ∷ ds) = c == d && same_text cs ds
same_text _ _ = false

abbrev pub is_ascii : List ℕ → Bool
is_ascii [] = true
is_ascii (c ∷ cs) = ltb c 128 && is_ascii cs

abbrev encoded : SignatureStyle → List ℕ → List ℕ
encoded hexadecimal raw_mac = hex raw_mac
encoded base64 raw_mac = b64encode raw_mac

abbrev pub decoded : SignatureStyle → List ℕ → Option (List ℕ)
decoded hexadecimal text = fromhex text
decoded base64 text = b64decode text

module _ (mac : List ℕ → List ℕ → List ℕ) where
  -- `secret` is the key as `encode` gives its bytes; `compare_digest` raises on a text that is not ASCII.
  unfoldable pub verify_hmac : List ℕ → List ℕ → List ℕ → SignatureStyle → Result Bool
  verify_hmac body secret provided style =
      if not (is_ascii provided)
      then err type_error
      else ok (same_text (encoded style (mac secret body)) provided)

  same_text-eq : (xs ys : List ℕ) → same_text xs ys ≡ true → xs ≡ ys
  same_text-eq [] [] h = refl
  same_text-eq [] (y ∷ ys) h = cc
  same_text-eq (x ∷ xs) [] h = cc
  same_text-eq (x ∷ xs) (y ∷ ys) h = ground (arith, same_text-eq xs ys)

  decoded-encoded :
      (style : SignatureStyle) (bytes : List ℕ)
      → All (λ b. b < 256) bytes
      → decoded style (encoded style bytes) ≡ some bytes
  decoded-encoded hexadecimal bytes h = fromhex-hex bytes h
  decoded-encoded base64 bytes h = b64decode-b64encode bytes h

  -- In both styles a signature that is accepted decodes to the code of the body under the secret, so that a
  -- text of another code is never accepted.
  pub verify_hmac_sound :
      (body secret provided : List ℕ) (style : SignatureStyle)
      → All (λ b. b < 256) (mac secret body)
      → verify_hmac body secret provided style ≡ ok true
      → decoded style provided ≡ some (mac secret body)
  unfolding verify_hmac
  verify_hmac_sound body secret provided style bytes h =
      let same : encoded style (mac secret body) ≡ provided =
        same_text-eq (encoded style (mac secret body)) provided (ground arith) in
      subst (λ text. decoded style text ≡ some (mac secret body)) same
        (decoded-encoded style (mac secret body) bytes)
