-- ===== src/Signer/Seeded.antt =====
-- slhdsa.go: `NewSignerFromSeed` gives keys exactly when key generation draws the seed once.
use symbiont_wallet.Base.{
  ℕ, ◌≡◌, ◌↔◌, ◌⊎◌, sym, ap, ◌∙◌, subst, Bool, true, false, not, ◌||◌, inl, inr, Option, none, some,
  length, ◌==◌, Result, ok, Bool-cases, Option-cases, arith,
}
use symbiont_wallet.Base.Bytes.{Bytes}
use symbiont_wallet.Signer.Keys.{
  seed_size, KeyPair, Keygen, done, draw, Error, Rng, Draws, drawn_twice, wrong_draw, fill,
  generate_with, check_draws, new_signer_from_seed,
}

-- Key generation asks once, for as many bytes as the seed has, and makes these keys of the seed.
abbrev pub IsSeeded : Keygen → Bytes → KeyPair → Type 0
IsSeeded keygen seed keys =
    (k : Bytes → Keygen) × (keygen ≡ draw seed_size seed_size k) × (k seed ≡ done (some keys))

-- An error of the callback stays.
failed_stays :
    (seed : Bytes) (g : Keygen) (d : Draws) (e : Error)
    → d.called ≡ true
    → d.failed ≡ some e
    → (e' : Error) × ((generate_with seed g d).1.failed ≡ some e')
unfolding generate_with
failed_stays seed (done r) d e c f = (e, f)
failed_stays seed (draw n size k) d e c f =
    let (bytes, d') = fill seed n size d in
    let again : (d'.called ≡ true) × (d'.failed ≡ some drawn_twice) = unfold fill in ground arith in
    failed_stays seed (k bytes) d' drawn_twice (again.0) (again.1)

-- Keys are only returned without an error, and after a draw.
check_draws_ok :
    (r : Option KeyPair) (d : Draws) (keys : KeyPair)
    → check_draws r d ≡ ok keys
    → (r ≡ some keys) × (d.failed ≡ none) × (d.called ≡ true)
unfolding check_draws
check_draws_ok none d keys h = absurd (ground arith)
check_draws_ok (some k) d keys h = elim (Option-cases (d.failed)) [
  | inr (e, f) ↦ absurd (ground arith)
  | inl f ↦ ground arith
]

abbrev filled : Draws
filled = record { called = true; failed = none }

-- After the seed was drawn, key generation has to be over.
no_more_draws :
    (seed : Bytes) (g : Keygen) (keys : KeyPair)
    → let r = generate_with seed g filled in
      check_draws (r.0) (r.1) ≡ ok keys → g ≡ done (some keys)
no_more_draws seed (done r) keys h =
    unfold generate_with in ap done ((check_draws_ok r filled keys h).0)
no_more_draws seed (draw n size k) keys h =
    let (bytes, d') = fill seed n size filled in
    let again : (d'.called ≡ true) × (d'.failed ≡ some drawn_twice) = unfold fill in ground arith in
    let (e, f) = failed_stays seed (k bytes) d' drawn_twice (again.0) (again.1) in
    let last = generate_with seed (k bytes) d' in
    let (_, fine, _) = check_draws_ok (last.0) (last.1) keys (unfold generate_with in h) in
    absurd (ground (arith, fine, f))

abbrev start : Draws
start = record { called = false; failed = none }

-- The first draw: the seed, or a failure.
first_draw :
    (seed : Bytes) (n size : ℕ)
    → ((n ≡ seed_size) × (size ≡ seed_size) × (fill seed n size start ≡ (seed, filled)))
      ⊎ (((fill seed n size start).1.called ≡ true)
          × ((fill seed n size start).1.failed ≡ some wrong_draw))
unfolding fill
first_draw seed n size = elim (Bool-cases (not (n == seed_size) || not (size == seed_size))) [
  | inl e ↦ inr (ground arith)
  | inr e ↦ inl (ground arith)
]

-- What is checked after all draws.
abbrev checked : Bytes → Keygen → Result Error KeyPair
checked seed g = check_draws ((generate_with seed g start).0) ((generate_with seed g start).1)

checked-IsSeeded :
    (seed : Bytes) (g : Keygen) (keys : KeyPair) → checked seed g ≡ ok keys → IsSeeded g seed keys
unfolding generate_with
checked-IsSeeded seed (done r) keys h =
    let (_, _, drawn) = check_draws_ok r start keys h in absurd (ground (arith, drawn))
checked-IsSeeded seed (draw n size k) keys h = elim (first_draw seed n size) [
  | inr (c, f) ↦
      let (bytes, d) = fill seed n size start in
      let (e, stays) = failed_stays seed (k bytes) d wrong_draw c f in
      let last = generate_with seed (k bytes) d in
      let (_, fine, _) = check_draws_ok (last.0) (last.1) keys h in
      absurd (ground (arith, fine, stays))
  | inl (en, es, q) ↦
      let then_of = λ (x : Bytes × Draws). generate_with seed (k (x.0)) (x.1) in
      let h' =
        subst (λ (x : Bytes × Draws). check_draws ((then_of x).0) ((then_of x).1) ≡ ok keys) q h in
      (
        k,
        ap (λ m. draw m size k) en ∙ ap (λ m. draw seed_size m k) es,
        no_more_draws seed (k seed) keys h',
      )
]

IsSeeded-checked :
    (seed : Bytes) (g : Keygen) (keys : KeyPair) → IsSeeded g seed keys → checked seed g ≡ ok keys
unfolding generate_with fill check_draws
IsSeeded-checked seed g keys (k, once, made) =
    let of_rest = λ (c : Keygen).
      check_draws ((generate_with seed c filled).0) ((generate_with seed c filled).1) in
    ap (checked seed) once ∙ ap of_rest made

-- For a seed of 48 bytes and a library that works, `NewSignerFromSeed` returns keys exactly when key
-- generation asks its random source once, for 48 bytes, and makes these keys of the seed: a second
-- draw, a draw of another size and no draw at all are all refused.
pub new_signer_from_seed_exact :
    (switches : Bool) (g : Keygen) (seed : Bytes) (rng : Rng) (keys : KeyPair)
    → length seed ≡ seed_size
    → ((new_signer_from_seed true true switches g seed rng).0 ≡ ok keys) ↔ IsSeeded g seed keys
new_signer_from_seed_exact switches g seed rng keys h =
    let result : (new_signer_from_seed true true switches g seed rng).0 ≡ checked seed g =
      unfold new_signer_from_seed in ground (arith, h) in
    (
      (λ e. checked-IsSeeded seed g keys (sym result ∙ e)),
      λ e. result ∙ IsSeeded-checked seed g keys e,
    )
