-- ===== src/Crypto/Pow/Search.antt =====
-- internal/crypto/pow.go: what SolvePoW finds, VerifyPoW accepts.
use iskra.Base.{
  ℕ, zero, suc, ◌+◌, ◌%◌, ◌^◌, ◌≤◌, ◌<◌, ◌≡◌, true, false, some, arith, Bool-cases, inl, inr,
}
use iskra.Base.{ap, ◌∙◌, sym}
use native.Mathlib.Nat.{mod-eq_of_lt}
use native.Mathlib.Decide.{ℕ_discrete}
use iskra.Base.Bytes.{Bytes}
use iskra.Crypto.{Primitives}
use iskra.Crypto.Pow.{verify_pow, solve_from, solve_pow}

true_ne_false : ¬ (true ≡ false)
true_ne_false h = cc

module _ (p : Primitives) (message_id : Bytes) (timestamp difficulty : ℕ) where
  solve_stop :
      (fuel nonce : ℕ)
      → verify_pow p message_id timestamp nonce difficulty ≡ true
      → solve_from p message_id timestamp difficulty (suc fuel) nonce ≡ some nonce
  unfolding verify_pow solve_from
  solve_stop fuel nonce e = rw e

  solve_next :
      (fuel nonce : ℕ)
      → verify_pow p message_id timestamp nonce difficulty ≡ false
      → solve_from p message_id timestamp difficulty (suc fuel) nonce
        ≡ solve_from p message_id timestamp difficulty fuel ((nonce + 1) % 2 ^ 64)
  unfolding verify_pow solve_from
  solve_next fuel nonce e = rw e

  -- `n` is the least nonce from `nonce` on that passes.
  record IsLeast (nonce n : ℕ) : Type 0 where
    from : nonce ≤ n
    passes : verify_pow p message_id timestamp n difficulty ≡ true
    least : (i : ℕ) → nonce ≤ i → i < n → verify_pow p message_id timestamp i difficulty ≡ false

  IsLeast-extend :
      (nonce n : ℕ)
      → verify_pow p message_id timestamp nonce difficulty ≡ false
      → IsLeast (nonce + 1) n
      → IsLeast nonce n
  IsLeast-extend nonce n e l = record {
    from = omega arith;
    passes = l.passes;
    least =
        λ i a b. elim (ℕ_discrete i nonce) [ yes q ↦ rw q e | no q ↦ l.least i (omega arith) b ];
  }

  -- The loop counts up to the least nonce that passes, if one passes within the fuel.
  solve_from_lem :
      (fuel nonce k : ℕ)
      → k < 2 ^ 64
      → nonce ≤ k
      → k < nonce + fuel
      → verify_pow p message_id timestamp k difficulty ≡ true
      → (n : ℕ) × (solve_from p message_id timestamp difficulty fuel nonce ≡ some n)
        × (n ≤ k)
        × IsLeast nonce n
  solve_from_lem zero nonce k w lo hi good = absurd (omega arith)
  solve_from_lem (suc fuel) nonce k w lo hi good =
      elim (Bool-cases (verify_pow p message_id timestamp nonce difficulty)) [
        | inl e ↦ (
          nonce,
          solve_stop fuel nonce e,
          lo,
          record { from = omega arith; passes = e; least = λ i a b. absurd (omega arith) },
        )
        | inr e ↦
            let ne : nonce < k = later nonce k lo good e in
            let (n, r, le, l) =
              solve_from_lem fuel (nonce + 1) k w (omega arith) (omega arith) good in
            (
              n,
              solve_next fuel nonce e
                  ∙ ap (solve_from p message_id timestamp difficulty fuel)
                      (mod-eq_of_lt (omega arith))
                  ∙ r,
              le,
              IsLeast-extend nonce n e l,
            )
      ]
    where
      later :
          (nonce k : ℕ)
          → nonce ≤ k
          → verify_pow p message_id timestamp k difficulty ≡ true
          → verify_pow p message_id timestamp nonce difficulty ≡ false
          → nonce < k
      later nonce k le g b = elim (ℕ_discrete nonce k) [
        | yes q ↦ absurd (true_ne_false (sym g ∙ rw (← q) b))
        | no q ↦ omega arith
      ]

  -- SolvePoW returns the least nonce that VerifyPoW accepts, once a uint64 nonce `k` is accepted at
  -- all and the loop may run for k + 1 rounds.
  pub solve_pow-verify_pow :
      (fuel k : ℕ)
      → k < 2 ^ 64
      → k < fuel
      → verify_pow p message_id timestamp k difficulty ≡ true
      → (n : ℕ) × (solve_pow p fuel message_id timestamp difficulty ≡ some n)
        × (n ≤ k)
        × (verify_pow p message_id timestamp n difficulty ≡ true)
        × ((i : ℕ) → i < n → verify_pow p message_id timestamp i difficulty ≡ false)
  unfolding solve_pow
  solve_pow-verify_pow fuel k w hi good =
      let (n, r, le, l) = solve_from_lem fuel 0 k w (omega arith) (omega arith) good in
      (n, r, le, l.passes, λ i h. l.least i (omega arith) h)
