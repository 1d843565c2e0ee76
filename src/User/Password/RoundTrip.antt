-- ===== src/User/Password/RoundTrip.antt =====
-- Which passwords a hash accepts.
use agency_bot.Base.{
  ◌≡◌, refl, ap, ◌∙◌, ◌↔◌, String, true, List, [], ◌∷◌, length, list_eq, list_eq_iff, split_on,
  split_on-join,
}
use agency_bot.User.Password.{
  Bytes, costs, costs_text, Argon, hash_with, verify, verify_parts, verify_key,
}

module _ (lib : Argon) (value other : String) (salt : Bytes) where
  abbrev key : Bytes
  key = lib.id_key value salt costs 32

  abbrev later_parts : List String
  later_parts = "argon2id" ∷ "v=19" ∷ costs_text ∷ lib.encode salt ∷ lib.encode key ∷ []

  split-hash : split_on b'$' (hash_with lib value salt) ≡ "" ∷ later_parts
  unfolding hash_with
  split-hash =
      split_on-join "$" "" later_parts
        (refl, (refl, (refl, (refl, (lib.has_code-encode salt, (lib.has_code-encode key, tt))))))

  verify_key-encoded :
      verify_key lib other
        (lib.scan_costs costs_text)
        (lib.decode (lib.encode salt))
        (lib.decode (lib.encode key))
      ≡ list_eq (lib.id_key other salt costs (length key)) key
  unfolding verify_key
  verify_key-encoded = rw (lib.scan_costs-text, lib.decode-encode salt, lib.decode-encode key) refl

  pub verify-hash_eq :
      verify lib other (hash_with lib value salt) ≡ list_eq (lib.id_key other salt costs 32) key
  unfolding verify verify_parts
  verify-hash_eq =
      ap (verify_parts lib other) split-hash
      ∙ (verify_key-encoded
          ∙ ap (λ n. list_eq (lib.id_key other salt costs n) key)
              (lib.length-id_key value salt costs 32))

  -- A hash with the salt accepts a password exactly if argon2 derives the same key from it: the
  -- password that was hashed is accepted, and another only if the two collide.
  pub verify-hash :
      (verify lib other (hash_with lib value salt) ≡ true)
      ↔ (lib.id_key other salt costs 32 ≡ lib.id_key value salt costs 32)
  verify-hash = rw verify-hash_eq (list_eq_iff (lib.id_key other salt costs 32) key)
