-- ===== src/Signer/Tests.antt =====
-- A key generation that draws once, and one that draws twice.
use symbiont_wallet.Base.{◌≡◌, ◌↔◌, refl, true, some, replicate, take, ok, err}
use symbiont_wallet.Base.Bytes.{Bytes}
use symbiont_wallet.Signer.Keys.{
  KeyPair, Keygen, done, draw, drawn_twice, system, fill, generate_with, check_draws,
  new_signer_from_seed,
}
use symbiont_wallet.Signer.Seeded.{IsSeeded, new_signer_from_seed_exact}

abbrev keys_of : Bytes → KeyPair
keys_of seed = record { public_key = take 32 seed; secret_key = seed }

abbrev one_draw : Keygen
one_draw = draw 48 48 (λ b. done (some (keys_of b)))

abbrev two_draws : Keygen
two_draws = draw 48 48 (λ b. draw 16 16 (λ c. done (some (keys_of b))))

abbrev sevens : Bytes
sevens = replicate 48 7

seeded : (new_signer_from_seed true true true one_draw sevens system).0 ≡ ok (keys_of sevens)
unfolding new_signer_from_seed generate_with check_draws fill
seeded = refl

drawn_again : (new_signer_from_seed true true true two_draws sevens system).0 ≡ err drawn_twice
unfolding new_signer_from_seed generate_with check_draws fill
drawn_again = refl

new_signer_from_seed_exact_example :
    ((new_signer_from_seed true true true one_draw sevens system).0 ≡ ok (keys_of sevens))
    ↔ IsSeeded one_draw sevens (keys_of sevens)
new_signer_from_seed_exact_example =
    new_signer_from_seed_exact true one_draw sevens system (keys_of sevens) refl
