-- ===== src/Throwing/Retry.antt =====
-- `ThrowObject::from_result` (phper/src/errors.rs) converts errors into errors at most 51 times.
use phper.Base.{
  ℕ, zero, suc, ◌+◌, ◌-◌, ◌≤◌, ◌≡◌, refl, inl, inr, Outcome, returns, panics, undefined, Result, ok,
  err, arith, ltb, Bool-cases,
}
use phper.Engine.{Globals}
use phper.Engine.Run.{Run, pure, panic, continue, ◌>>=◌, ◌>>◌, step}
use phper.Throwing.{from_result, from_result_loop}

module _ {R E : Type 0} (to_object : E → Run R (Result ℕ E))
    (drop : E → Globals R → Globals R) where
  -- At most `n` conversions, none after a success.
  abbrev pub convert : ℕ → Result ℕ E → Run R (Result ℕ E)
  convert zero r = pure r
  convert (suc n) (ok o) = pure (ok o)
  convert (suc n) (err e) = do result ← to_object e; step (drop e); convert n result

  abbrev pub settle : Result ℕ E → Run R ℕ
  settle (ok o) = pure o
  settle (err e) = panic

  convert-ok : (n o : ℕ) → convert n (ok o) ≡ pure (ok o)
  convert-ok zero o = refl
  convert-ok (suc n) o = refl

  after_conversion :
      (fuel i n : ℕ) (e : E)
      → ((r : Result ℕ E) (g : Globals R)
          → from_result_loop to_object drop fuel i r g ≡ (convert n r >>= settle) g)
      → (o : Outcome (Result ℕ E × Globals R))
      → continue o (λ r. step (drop e) >> from_result_loop to_object drop fuel i r)
        ≡ continue (continue o (λ r. step (drop e) >> convert n r)) settle
  after_conversion fuel i n e ih (returns (r, g)) = ih r (drop e g)
  after_conversion fuel i n e ih panics = refl
  after_conversion fuel i n e ih undefined = refl

  loop_lem :
      (fuel i : ℕ) (r : Result ℕ E) (g : Globals R)
      → 52 ≤ fuel + i
      → from_result_loop to_object drop fuel i r g ≡ (convert (51 - i) r >>= settle) g
  unfolding from_result_loop
  loop_lem fuel i (ok o) g h = rw (convert-ok (51 - i) o) refl
  loop_lem zero i (err e) g h = let out : 51 - i ≡ 0 = omega arith in rw out refl
  loop_lem (suc fuel) i (err e) g h = elim (Bool-cases (ltb 50 i)) [
    | inl over ↦ let out : 51 - i ≡ 0 = ground arith in rw (over, from_result_loop) (rw out refl)
    | inr under ↦
        let more : 51 - i ≡ suc (51 - (i + 1)) = ground arith in
        rw (under, from_result_loop)
          (rw more (
            after_conversion fuel (i + 1) (51 - (i + 1)) e
              (λ r g'. loop_lem fuel (i + 1) r g' (omega arith)) (to_object e g)))
  ]

  -- The loop ends, whatever `to_object` does: it is 51 conversions, and then a panic if there is still
  -- an error. So it yields the first object that one of at most 51 conversions makes.
  pub from_result-convert :
      (r : Result ℕ E) (g : Globals R)
      → from_result to_object drop r g ≡ (convert 51 r >>= settle) g
  unfolding from_result
  from_result-convert r g = loop_lem 52 0 r g (omega arith)
