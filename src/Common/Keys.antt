-- ===== src/Common/Keys.antt =====
-- Equality tests as an interface: the keys of Python's dicts.
use mathlib.Core.Path.{◌≡◌, refl}
use mathlib.Core.Logic.{◌↔◌}
use mathlib.Core.Bool.{Bool, true, false, not, ◌&&◌, ◌||◌}
use mathlib.Core.List.{List, [], ◌∷◌, ◌++◌}
use codex_python_sdk_unoffic.Common.Lists.{select}
use Prim.Native.Nat.{ℕ}
use Prim.Native.String.{String}
use native.Mathlib.Omega.{arith}
use text.Mathlib.Text.{◌==◌ as str_eq}
use text.Mathlib.TextEquality.{eq_iff}
use codex_python_sdk_unoffic.Common.Tests.{nat_beq, nat_beq_iff}

pub record Key {ℓ} (A : Type ℓ) : Type ℓ where
  pub agree : A → A → Bool
  pub agree_iff : (a b : A) → (agree a b ≡ true) ↔ (a ≡ b)

abbrev pub ◌==◌ {ℓ} : {A : Type ℓ} ⦃key : Key A⦄ → A → A → Bool
◌==◌ ⦃key⦄ = key.agree

infix 50 ◌==◌
module _ {ℓ} {A : Type ℓ} ⦃e : Key A⦄ where
  pub beq_refl : (a : A) → (a == a) ≡ true
  beq_refl a = (e.agree_iff a a).1 refl

  pub beq_sym : (a b : A) → (a == b) ≡ (b == a)
  beq_sym a b = ground (arith, e.agree_iff a b, e.agree_iff b a)

-- the keys in use: texts, and the numbers of subscriptions
instance abbrev pub string_eq : Key String
string_eq = record { agree = str_eq; agree_iff = eq_iff }

instance abbrev pub nat_eq : Key ℕ
nat_eq = record { agree = nat_beq; agree_iff = nat_beq_iff }

-- `a in xs`, and `xs` without every `a`
module _ {ℓ} {A : Type ℓ} ⦃e : Key A⦄ where
  unfoldable pub mem : A → List A → Bool
  mem a [] = false
  mem a (x ∷ xs) = x == a || mem a xs

  abbrev pub without : A → List A → List A
  without a l = select (λ x. not (x == a)) l

  -- every item once
  abbrev pub IsDistinct : List A → Type 0
  IsDistinct [] = Unit
  IsDistinct (x ∷ xs) = (mem x xs ≡ false) × IsDistinct xs

  pub mem-without : (a b : A) (l : List A) → mem b (without a l) ≡ (mem b l && not (a == b))
  unfolding mem
  mem-without a b [] = refl
  mem-without a b (x ∷ l) =
      ground (arith, e.agree_iff x a, e.agree_iff x b, e.agree_iff a b, mem-without a b l)

  pub without-IsDistinct : (a : A) (l : List A) → IsDistinct l → IsDistinct (without a l)
  unfolding mem
  without-IsDistinct a [] h = tt
  without-IsDistinct a (x ∷ l) h = ground (arith, mem-without a x l, without-IsDistinct a l h.1)

  pub mem-append : (a b : A) (l : List A) → mem b (l ++ a ∷ []) ≡ (mem b l || a == b)
  unfolding mem
  mem-append a b [] = ground arith
  mem-append a b (x ∷ l) = ground (arith, mem-append a b l)

  pub append-IsDistinct :
      (a : A) (l : List A) → IsDistinct l → mem a l ≡ false → IsDistinct (l ++ a ∷ [])
  unfolding mem
  append-IsDistinct a [] h k = (refl, tt)
  append-IsDistinct a (x ∷ l) h k =
      ground (arith, mem-append a x l, e.agree_iff a x, e.agree_iff x a, append-IsDistinct a l h.1)

-- a list that no item is in
pub empty_of_mem : (l : List ℕ) → ((j : ℕ) → mem j l ≡ false) → l ≡ []
unfolding mem
empty_of_mem [] h = refl
empty_of_mem (i ∷ l) h = absurd (ground (arith, h i, nat_beq_iff i i))
