-- ===== src/Api/Deps/Signed.antt =====
-- core/signing.py: a signature verifies exactly when it is the one that `sign_body` makes.
use sentinel_brief.Prelude.{
  Text, ℕ, ◌≡◌, refl, ap, ◌∙◌, ◌==◌, Bool, true, false, Option, none, some, [], ◌∷◌, ◌++◌, arith,
  if◌then◌else◌,
}
use sentinel_brief.Api.Deps.{
  equal_texts, after_prefix, is_ascii, is_empty, prefix, sign_body, digest_matches,
  verify_signature,
}

eq_refl : (n : ℕ) → (n == n) ≡ true
eq_refl n = ground arith

equal_texts_refl : (t : Text) → equal_texts t t ≡ true
unfolding equal_texts
equal_texts_refl [] = refl
equal_texts_refl (c ∷ cs) = rw (eq_refl c, equal_texts_refl cs) refl

after_prefix-append : (p t : Text) → after_prefix p (p ++ t) ≡ some t
unfolding after_prefix
after_prefix-append [] t = refl
after_prefix-append (c ∷ cs) t = ground (arith, after_prefix-append cs t)

equal_texts_sound : (s t : Text) → equal_texts s t ≡ true → s ≡ t
unfolding equal_texts
equal_texts_sound [] [] h = refl
equal_texts_sound [] (y ∷ ys) h = cc
equal_texts_sound (x ∷ xs) [] h = cc
equal_texts_sound (x ∷ xs) (y ∷ ys) h = ground (arith, equal_texts_sound xs ys)

after_prefix_sound : (p t r : Text) → after_prefix p t ≡ some r → t ≡ p ++ r
unfolding after_prefix
after_prefix_sound [] t r h = cc
after_prefix_sound (x ∷ xs) [] r h = cc
after_prefix_sound (x ∷ xs) (y ∷ ys) r h = ground (arith, after_prefix_sound xs ys r)

-- A signature made with a secret that is not empty verifies under it, for a digest in ASCII, which
-- a hex digest is.
pub verify_signature-sign_body :
    (hmac_hex : Text → Text → Text) (secret body : Text)
    → is_empty secret ≡ false
    → is_ascii (hmac_hex secret body) ≡ true
    → verify_signature hmac_hex secret body (some (sign_body hmac_hex secret body)) ≡ true
unfolding verify_signature sign_body
verify_signature-sign_body hmac_hex secret body h a = rw h (
    ap (digest_matches hmac_hex secret body) (after_prefix-append prefix (hmac_hex secret body))
    ∙ matches)
  where
    matches : digest_matches hmac_hex secret body (some (hmac_hex secret body)) ≡ true
    matches = rw (a, equal_texts_refl (hmac_hex secret body)) refl

never : (b : Bool) → (if b then false else false) ≡ true → ⊥
never true h = cc
never false h = cc

-- A header that verifies is the signature of that body under that secret, and the secret is not
-- empty: nothing else is accepted.
pub verify_signature_sound :
    (hmac_hex : Text → Text → Text) (secret body : Text) (header : Option Text)
    → verify_signature hmac_hex secret body header ≡ true
    → (is_empty secret ≡ false) × (header ≡ some (sign_body hmac_hex secret body))
unfolding verify_signature sign_body
verify_signature_sound hmac_hex secret body none h = absurd (never (is_empty secret) h)
verify_signature_sound hmac_hex secret body (some header) h =
    by_test (is_empty secret) (after_prefix prefix header) refl refl h
  where
    by_test :
        (b : Bool) (candidate : Option Text)
        → is_empty secret ≡ b
        → after_prefix prefix header ≡ candidate
        → (if b then false else digest_matches hmac_hex secret body candidate) ≡ true
        → (is_empty secret ≡ false)
          × (◌≡◌ {A = Option Text} (some header) (some (prefix ++ hmac_hex secret body)))
    by_test true candidate eb ec k = cc
    by_test false none eb ec k = cc
    by_test false (some candidate) eb ec k = (
      eb,
      ap some (
          after_prefix_sound prefix header candidate ec
          ∙ ap (λ t. prefix ++ t)
              (equal_texts_sound candidate (hmac_hex secret body) (ground arith))),
    )
