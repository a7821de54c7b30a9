-- ===== src/Ini/Ordered.antt =====
-- The order of std::string, and std::map as a list in that order.
use fz_server.Prelude.{
  ◌≡◌, refl, Bool, true, false, [], ◌∷◌, none, some, arith, ◌==◌, ltb, if◌then◌else◌,
}
use fz_server.Memory.{Bytes}
use fz_server.Map.{Map, lookup, bytes_eq, equals_iff}
use fz_server.Text.{equals}

-- `a < b` on std::string: by bytes, a prefix first.
unfoldable pub less : Bytes → Bytes → Bool
less [] [] = false
less [] (y ∷ ys) = true
less (x ∷ xs) [] = false
less (x ∷ xs) (y ∷ ys) = let later = less xs ys in if x == y then later else ltb x y

pub less_irrefl : (a : Bytes) → less a a ≡ false
unfolding less
less_irrefl [] = refl
less_irrefl (x ∷ xs) = ground (arith, less_irrefl xs)

pub less_trans : (a b c : Bytes) → less a b ≡ true → less b c ≡ true → less a c ≡ true
unfolding less
less_trans [] (y ∷ ys) [] h k = k
less_trans [] (y ∷ ys) (z ∷ zs) h k = refl
less_trans (x ∷ xs) (y ∷ ys) (z ∷ zs) h k = ground (arith, less_trans xs ys zs)
less_trans [] [] _ h k = absurd (ground (arith, h))
less_trans (x ∷ xs) [] _ h k = absurd (ground (arith, h))
less_trans (x ∷ xs) (y ∷ ys) [] h k = absurd (ground (arith, k))

pub less_total : (a b : Bytes) → equals a b ≡ false → less a b ≡ false → less b a ≡ true
unfolding less equals
less_total [] [] h k = absurd (ground (arith, h))
less_total [] (y ∷ ys) h k = absurd (ground (arith, k))
less_total (x ∷ xs) [] h k = refl
less_total (x ∷ xs) (y ∷ ys) h k = ground (arith, less_total xs ys)

module _ {V : Type 0} where
  -- `m[k] = v`.
  unfoldable pub put : Bytes → V → Map Bytes V → Map Bytes V
  unfolding less equals
  put k v [] = (k, v) ∷ []
  put k v ((j, w) ∷ m) =
      let later = put k v m in
      if equals j k then (k, v) ∷ m else if less k j then (k, v) ∷ (j, w) ∷ m else (j, w) ∷ later

  -- `m[k]`: a key that is missing is inserted with the default value.
  unfoldable pub at_key : Bytes → V → Map Bytes V → V × Map Bytes V
  unfolding put
  at_key k d m = elim (lookup k m) [ none ↦ (d, put k d m) | some v ↦ (v, m) ]

  pub lookup-put :
      (k j : Bytes) (v : V) (m : Map Bytes V)
      → lookup j (put k v m) ≡ (if equals k j then some v else lookup j m)
  unfolding lookup put
  lookup-put k j v [] = refl
  lookup-put k j v ((i, w) ∷ m) =
      ground (arith, equals_iff k j, equals_iff i k, equals_iff i j, lookup-put k j v m)
