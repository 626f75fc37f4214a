-- ===== src/Owned/Release.antt =====
-- When the last owner of a string is dropped (phper/src/strings.rs, `Drop for ZString`).
use phper.Base.{ℕ, ◌≡◌, Bool, false, not, Option, none, some, List, [], returns, arith}
use phper.Base.Steps.{◌>>=◌}
use phper.Owned.{StringMemory, IsStringMemory, ZendString}
use phper.Owned.Requests.{Request, apply_all, drop_all}
use phper.Owned.Counts.{Kept, gone, counted, kept_interned, Keeps}
use phper.Owned.Refinement.{AllValid, Holds, apply_all-all_texts, drop_all-Keeps}

-- Whether a string stands there that is counted.
abbrev pub is_counted : Option ZendString → Bool
is_counted none = false
is_counted (some z) = not z.interned

Kept-freed : (held : ℕ) (z : Option ZendString) → held ≡ 0 → Kept held 0 z → is_counted z ≡ false
Kept-freed held z h (gone e no_owner) = ground arith
Kept-freed held z h (counted s e p short) = absurd (omega arith)
Kept-freed held z h (kept_interned n s e short) = ground arith

module _ {M : Type 0} (mem : StringMemory M) (is : IsStringMemory mem) (held : ℕ → ℕ)
    (text : ℕ → List ℕ) where
  -- After any valid requests, dropping the owners that are left returns, and frees every counted string
  -- that the engine has no reference to.
  pub drop_all-apply_all :
      (requests : List Request) (m : M) (q : ℕ)
      → AllValid held requests
      → Keeps mem held [] m
      → Holds mem is held text m
      → held q ≡ 0
      → (m' : M) × ((apply_all mem requests [] >>= drop_all mem) m ≡ returns (tt, m'))
        × (is_counted (mem.find m' q) ≡ false)
  drop_all-apply_all requests m q h k holds unheld =
      let (owners, m₁, run, k₁, holds₁, shown) =
        apply_all-all_texts mem is held text requests m h k holds in
      let (m₂, dropped, k₂, holds₂) = drop_all-Keeps mem is held text owners m₁ k₁ holds₁ in
      (m₂, rw run dropped, Kept-freed (held q) (mem.find m₂ q) unheld (k₂ q))
