-- ===== src/Common/Dict.antt =====
-- Python's `dict` (and `OrderedDict`): entries in insertion order, one for each key.
use mathlib.Core.List.{List, [], ◌∷◌, ◌++◌}
use mathlib.Core.Option.{Option, none, some}
use mathlib.Core.Path.{◌≡◌, refl}
use mathlib.Core.Bool.{Bool}
use Prim.Native.Nat.{◌+◌, ◌≤◌}
use native.Mathlib.Omega.{arith}
use codex_python_sdk_unoffic.Common.Tests.{if◌then◌else◌, is_some}
use codex_python_sdk_unoffic.Common.Keys.{Key, ◌==◌}
use codex_python_sdk_unoffic.Common.Lists.{length, All}

abbrev pub Dict {ℓ} : Type ℓ → Type ℓ → Type ℓ
Dict K V = List (K × V)

module _ {ℓ} {K V : Type ℓ} ⦃e : Key K⦄ where
  -- `d.get(k)`
  unfoldable pub get : K → Dict K V → Option V
  get k [] = none
  get k ((j, v) ∷ d) = if j == k then some v else get k d

  -- `k in d`
  abbrev pub has : K → Dict K V → Bool
  has k d = is_some (get k d)

  -- `d[k] = v`: in place if the key is there, at the end if not
  unfoldable pub put : K → V → Dict K V → Dict K V
  put k v [] = (k, v) ∷ []
  put k v ((j, w) ∷ d) = if j == k then (j, v) ∷ d else (j, w) ∷ put k v d

  -- `d.pop(k, None)`
  unfoldable pub remove : K → Dict K V → Dict K V
  remove k [] = []
  remove k ((j, w) ∷ d) = if j == k then d else (j, w) ∷ remove k d

  -- every key once
  abbrev pub IsKeyed : Dict K V → Type ℓ
  IsKeyed [] = Unit
  IsKeyed ((k, v) ∷ d) = (get k d ≡ none) × IsKeyed d

  pub get-put :
      (k j : K) (v : V) (d : Dict K V) → get j (put k v d) ≡ (if k == j then some v else get j d)
  unfolding get put
  get-put k j v [] = refl
  get-put k j v ((i, w) ∷ d) =
      ground (arith, e.agree_iff k j, e.agree_iff i k, e.agree_iff i j, get-put k j v d)

  pub get-remove :
      (k j : K) (d : Dict K V) → IsKeyed d → get j (remove k d) ≡ (if k == j then none else get j d)
  unfolding get remove
  get-remove k j [] h = ground arith
  get-remove k j ((i, w) ∷ d) h =
      ground (arith, e.agree_iff k j, e.agree_iff i k, e.agree_iff i j, get-remove k j d h.1)

  pub put-IsKeyed : (k : K) (v : V) (d : Dict K V) → IsKeyed d → IsKeyed (put k v d)
  unfolding get put
  put-IsKeyed k v [] h = (refl, tt)
  put-IsKeyed k v ((i, w) ∷ d) h =
      ground (arith, e.agree_iff i k, e.agree_iff k i, get-put k i v d, put-IsKeyed k v d h.1)

  pub remove-IsKeyed : (k : K) (d : Dict K V) → IsKeyed d → IsKeyed (remove k d)
  unfolding get remove
  remove-IsKeyed k [] h = tt
  remove-IsKeyed k ((i, w) ∷ d) h = ground (arith, get-remove k i d h.1, remove-IsKeyed k d h.1)

  pub length-put-le : (k : K) (v : V) (d : Dict K V) → length (put k v d) ≤ length d + 1
  unfolding put
  length-put-le k v [] = omega arith
  length-put-le k v ((i, w) ∷ d) = ground (arith, length-put-le k v d)

  pub length-remove-le : (k : K) (d : Dict K V) → length (remove k d) ≤ length d
  unfolding remove
  length-remove-le k [] = omega arith
  length-remove-le k ((i, w) ∷ d) = ground (arith, length-remove-le k d)

  -- a new key goes to the end
  pub put_new : (k : K) (v : V) (d : Dict K V) → get k d ≡ none → put k v d ≡ d ++ (k, v) ∷ []
  unfolding get put
  put_new k v [] h = refl
  put_new k v ((i, w) ∷ d) h = ground (arith, put_new k v d)

  pub get-append_none : (k : K) (d l : Dict K V) → get k d ≡ none → get k (d ++ l) ≡ get k l
  unfolding get
  get-append_none k [] l h = refl
  get-append_none k ((i, w) ∷ d) l h = ground (arith, get-append_none k d l)

  -- What holds of every key that is found holds of every entry.
  pub All-entries {κ} :
      (P : K → V → Type κ) (d : Dict K V)
      → IsKeyed d
      → ((k : K) (v : V) → get k d ≡ some v → P k v)
      → All (λ e. P e.0 e.1) d
  unfolding get
  All-entries P [] h f = tt
  All-entries P ((i, w) ∷ d) h f = (
    f i w (ground (arith, e.agree_iff i i)),
    All-entries P d h.1 (λ k v p. f k v (ground (arith, e.agree_iff i k))),
  )
